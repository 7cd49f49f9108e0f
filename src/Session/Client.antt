-- ===== src/Session/Client.antt =====
-- The client of the OIDC provider: initOIDC of cmd/gateway/control.go. What oidc.NewProvider gives is
-- of type `P`.
use vial_gateway.Prelude.{
  ◌≡◌, refl, Bool, true, false, List, ◌∷◌, ◌++◌, Option, none, some, arith, Option-cases, inl, inr,
  ◌⊎◌,
}
use vial_gateway.Text.{Text, codes, trim_suffix}
use vial_gateway.Config.Types.{AdminConfig}

-- oauth2.Config without its endpoint, which is the provider's
pub record OauthConfig : Type 0 where
  pub client_id : Text
  pub client_secret : Text
  pub redirect_url : Text
  pub scopes : List Text

-- What initOIDC sets: the provider, the client ID of the verifier, and the oauth2 configuration.
pub record Client (P : Type 0) : Type 0 where
  pub provider : P
  pub audience : Text
  pub oauth : OauthConfig

unfoldable pub oauth_config : AdminConfig → OauthConfig
oauth_config admin = record {
  client_id = admin.oidc_client_id;
  client_secret = admin.oidc_client_secret;
  redirect_url = trim_suffix admin.external_url (codes "/") ++ codes "/admin/callback";
  scopes = codes "openid" ∷ admin.oidc_scopes;
}

module _ {P : Type 0} (new_provider : Text → Option P) (admin : AdminConfig) where
  -- initOIDC: the client after it, and whether it succeeds
  unfoldable pub init_oidc : Option (Client P) → Option (Client P) × Bool
  init_oidc (some client) = (some client, true)
  init_oidc none = elim (new_provider admin.oidc_issuer) [
    | none ↦ (none, false)
    | some provider ↦ (
      some (record {
        provider = provider;
        audience = admin.oidc_client_id;
        oauth = oauth_config admin;
      }),
      true,
    )
  ]

  -- What initOIDC leaves of every client that it set.
  abbrev pub IsOurs : Option (Client P) → Type 0
  IsOurs o =
      (client : Client P)
      → o ≡ some client
      → (client.audience ≡ admin.oidc_client_id) × (client.oauth ≡ oauth_config admin)

  -- A client is set exactly if initOIDC succeeds, one that is set stays, and it is for the client and
  -- the callback of the configuration.
  init_oidc-IsOurs :
      (o : Option (Client P))
      → IsOurs o
      → IsOurs (init_oidc o).0
        × (((init_oidc o).1 ≡ true) × ((client : Client P) × ((init_oidc o).0 ≡ some client))
            ⊎ ((init_oidc o).1 ≡ false) × ((init_oidc o).0 ≡ none))
  unfolding init_oidc
  init_oidc-IsOurs (some client) h = (h, inl (refl, (client, refl)))
  init_oidc-IsOurs none h = elim (Option-cases (new_provider admin.oidc_issuer)) [
    | inl away ↦ rw (away, init_oidc) ((λ client e. cc e), inr (refl, refl))
    | inr (provider, there) ↦
        rw (there, init_oidc) ((λ client e. (ground arith, ground arith)), inl (refl, (_, refl)))
  ]
