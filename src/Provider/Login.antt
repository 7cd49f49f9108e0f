-- ===== src/Provider/Login.antt =====
-- A login of the control plane (cmd/gateway/control.go) through the demo provider
-- (cmd/demo-oidc/main.go): from login, over authorize, to callback with its request to token.
use vial_gateway.Prelude.{
  ℕ, ◌+◌, ◌*◌, ◌≤◌, ◌≡◌, refl, true, false, List, [], ◌∷◌, ◌++◌, Option, none, some, arith, All,
  subst, sym, ap, ◌∙◌, ok,
}
use vial_gateway.Text.{Text, codes}
use vial_gateway.Text.Equality.{text_eq_refl}
use vial_gateway.Std.{Std}
use vial_gateway.Scopes.{scope_set, split_space}
use vial_gateway.Config.Types.{AdminConfig, second}
use vial_gateway.Store.{Store, put, delete}
use vial_gateway.Store.Writes.{write-same}
use vial_gateway.Control.{Calls}
use vial_gateway.Auth.{session_prefix, is_admin}
use vial_gateway.Session.{
  SessionCodec, Token, Claims, Oidc, redirect, Cookie, Visit, pending, login, login_elsewhere,
  granted_scopes, granted, session_of, session_ttl, cookie_of, sign_in, callback, Visit,
}
use vial_gateway.Session.Client.{OauthConfig, oauth_config}
use vial_gateway.Session.Callback.{took, settle, audited-strings}
use vial_gateway.Provider.{
  Provider, FormRequest, Signer, Reply, found, tokens, challenge_of, code_of, authorize, claims_of,
  sign, token,
}
use vial_gateway.Provider.Traffic.{draws, presents, Call, serve_all}
use vial_gateway.Provider.Redeem.{Presents, code_redeemed}

-- What packages oauth2 and go-oidc bring: AuthCodeURL, the form that Exchange posts for a code and a
-- verifier, Verify, and the claims of a token that is verified.
pub record Wire : Type 0 where
  pub auth_code_url : OauthConfig → Text → Text → Text
  pub post : OauthConfig → Text → Text → FormRequest
  pub verify : Text → Option Text
  pub claims : Text → Option Claims

-- The strings of a token response.
abbrev pub token_of : Reply → Option Token
token_of (tokens access scope id_token) =
    some (record { id_token = some id_token; scope = some scope })
token_of other = none

-- The claims that the gateway reads of an ID token for a scope.
abbrev pub demo_claims : Text → Claims
demo_claims scope = record { subject = codes "demo-admin"; scope = scope }

module _ (std : Std) (codec : SessionCodec) (admin : AdminConfig) (signer : Signer)
    (wire : Wire) where
  -- The provider as the gateway meets it: at one time, with what it draws for the access token.
  abbrev pub oidc_at : ℕ → Text → Provider → Oidc
  oidc_at now access p = record {
    reachable = true;
    auth_code_url = wire.auth_code_url (oauth_config admin);
    exchange = λ code verifier.
        token_of
          (token std signer now (some access) (wire.post (oauth_config admin) code verifier) p).1;
    verify = wire.verify;
    claims = wire.claims;
  }

  login-put :
      (oidc : Oidc) (c : Calls) (v : Visit) (st verifier key to : Text) (cookie : Cookie)
      (s : Store)
      → (login std codec admin oidc c v (some st) verifier (some key) s).1
        ≡ redirect to (some cookie)
      → (login std codec admin oidc c v (some st) verifier (some key) s).0
        ≡ put (session_prefix ++ key) (codec.encode (pending std codec admin st verifier)) s
  unfolding login login_elsewhere
  login-put oidc c v st verifier key to cookie s h = ground arith

  scopes-same :
      (scope id_token : Text)
      → granted_scopes std codec admin
          (record { subject = codes "demo-admin"; scope = scope })
          (record { id_token = some id_token; scope = some scope })
        ≡ split_space std.unicode scope
  unfolding granted_scopes
  scopes-same scope id_token = go (split_space std.unicode scope)
    where
      go : (l : List Text) → elim l as (λ x. List Text) [ [] ↦ l | s ∷ ss ↦ s ∷ ss ] ≡ l
      go [] = refl
      go (s ∷ ss) = refl

  granted-demo :
      (oidc : Oidc) (v : Visit) (stored st verifier id_token verified scope : Text)
      → codec.decode stored ≡ some (pending std codec admin st verifier)
      → v.state ≡ st
      → oidc.exchange v.code verifier
        ≡ some (record { id_token = some id_token; scope = some scope })
      → oidc.verify id_token ≡ some verified
      → oidc.claims verified ≡ some (demo_claims scope)
      → is_admin (scope_set (split_space std.unicode scope)) ≡ true
      → granted std codec admin oidc v stored
        ≡ ok (codes "demo-admin", split_space std.unicode scope)
  unfolding granted
  granted-demo oidc v stored st verifier id_token verified scope decodes state gives verifies
        claimed allowed =
      let same = scopes-same scope id_token in
      rw (decodes, granted)
        (rw state
          (rw (text_eq_refl st) (rw gives (rw verifies (rw claimed (rw same (rw allowed refl)))))))

  signed_in-by :
      (c : Calls) (csrf id subject : Text) (scopes : List Text) (s : Store)
      → c.second ≡ true
      → let r = sign_in std codec admin c (some csrf) (some id) subject scopes s in
        (r.0.strings (session_prefix ++ id)
          ≡ some (codec.encode (session_of std codec admin csrf subject scopes)))
        × (r.1
            ≡ redirect
                (codes "/admin")
                (some (cookie_of std codec admin id (session_ttl std codec admin))))
  unfolding sign_in put
  signed_in-by c csrf id subject scopes s up =
      rw (up, sign_in)
        (
          ap (λ f. f (session_prefix ++ id))
                (audited-strings std codec admin c subject (codes "session.login") [] _)
              ∙ write-same (session_prefix ++ id) _ s.strings,
          refl,
        )

  -- A login through the provider ends in a session of the demo administrator with the scopes that were
  -- asked for, gateway.admin among them: where the login was sent to the provider; the provider granted
  -- the code for the challenge of its verifier; the callback comes with its state, its code and its
  -- cookie, within two minutes and before anybody else is given or presents the code; the gateway
  -- posts it as the provider's client, with the verifier and the URI; the provider signs; Redis answers,
  -- and has the pending login still; and the pending login and the ID token are read as they were
  -- written.
  pub login_completes :
      (oidc : Oidc) (c₀ c₁ : Calls) (v₀ v₁ : Visit)
      (st verifier key to location code access id_token verified csrf id : Text) (cookie : Cookie)
      (t₀ t₁ : ℕ) (q : FormRequest) (cs : List Call) (p : Provider) (s s' : Store)
      → (login std codec admin oidc c₀ v₀ (some st) verifier (some key) s).1
        ≡ redirect to (some cookie)
      → s'.strings (session_prefix ++ key)
        ≡ (login std codec admin oidc c₀ v₀ (some st) verifier (some key) s).0.strings
            (session_prefix ++ key)
      → codec.decode (codec.encode (pending std codec admin st verifier))
        ≡ some (pending std codec admin st verifier)
      → challenge_of std signer verifier ≡ q.form (codes "code_challenge")
      → (authorize std signer t₀ (some code) q p).1 ≡ found location
      → All (λ c. draws code c ≡ false) cs
      → All (λ c. presents code c ≡ false) cs
      → t₁ ≤ t₀ + 120 * second
      → Presents std signer p code
          (q.form (codes "redirect_uri"))
          verifier
          (wire.post (oauth_config admin) code verifier)
      → sign std signer (claims_of std signer t₁ p (code_of std signer t₀ q)) ≡ some id_token
      → wire.verify id_token ≡ some verified
      → wire.claims verified ≡ some (demo_claims (q.form (codes "scope")))
      → is_admin (scope_set (split_space std.unicode (q.form (codes "scope")))) ≡ true
      → v₁.cookie ≡ some key
      → v₁.state ≡ st
      → v₁.code ≡ code
      → c₁.first ≡ true
      → c₁.second ≡ true
      → let p' = serve_all std signer cs (authorize std signer t₀ (some code) q p).0 in
        let r = callback std codec admin (oidc_at t₁ access p') c₁ v₁ (some csrf) (some id) s' in
        (r.0.strings (session_prefix ++ id)
          ≡ some (
              codec.encode (
                session_of std codec admin csrf
                  (codes "demo-admin")
                  (split_space std.unicode (q.form (codes "scope"))))))
        × (r.1
            ≡ redirect
                (codes "/admin")
                (some (cookie_of std codec admin id (session_ttl std codec admin))))
  login_completes oidc c₀ c₁ v₀ v₁ st verifier key to location code access id_token verified csrf id
        cookie t₀ t₁ q cs p s s' begun kept decodes challenged sent undrawn unused fresh posted
        signed verifies claimed allowed named state coded up up' =
      let p' = serve_all std signer cs (authorize std signer t₀ (some code) q p).0 in
      let scope = q.form (codes "scope") in
      let stored = codec.encode (pending std codec admin st verifier) in
      let there : s'.strings (session_prefix ++ key) ≡ some stored =
        kept
        ∙ ap (λ u. u.strings (session_prefix ++ key))
            (login-put oidc c₀ v₀ st verifier key to cookie s begun)
        ∙ unfold put in write-same (session_prefix ++ key) (some stored) s.strings in
      let gives : (oidc_at t₁ access p').exchange v₁.code verifier
          ≡ some (record { id_token = some id_token; scope = some scope }) =
        ap (λ k. (oidc_at t₁ access p').exchange k verifier) coded
        ∙ ap token_of (
            code_redeemed std signer t₀ t₁ code access id_token location verifier q
              (wire.post (oauth_config admin) code verifier) cs p sent undrawn unused fresh
              challenged posted signed) in
      let passed =
        took std codec admin (oidc_at t₁ access p') c₁ v₁ (some csrf) (some id) s' key stored refl
          named up there
        ∙ ap (settle std codec admin c₁ (some csrf) (some id) (delete (session_prefix ++ key) s')) (
            granted-demo (oidc_at t₁ access p') v₁ stored st verifier id_token verified scope
              decodes state gives verifies claimed allowed) in
      subst
        (λ r.
          (r.0.strings (session_prefix ++ id)
            ≡ some (
                codec.encode (
                  session_of std codec admin csrf (codes "demo-admin")
                    (split_space std.unicode scope))))
          × (r.1
              ≡ redirect (codes "/admin")
                  (some (cookie_of std codec admin id (session_ttl std codec admin)))))
        (sym passed)
        (signed_in-by c₁ csrf id (codes "demo-admin") (split_space std.unicode scope)
          (delete (session_prefix ++ key) s') up')
