-- ===== src/Application/Secure.antt =====
-- What an accepted configuration guarantees of the control plane.
use vial_gateway.Prelude.{
  ◌≡◌, ◌≢◌, Bool, true, false, not, ◌&&◌, [], some, ok, arith, Option-cases, inl, inr,
  if◌then◌else◌, ◌==◌, >>-eq-ok, refuse_if, refuse_if-eq-ok,
}
use vial_gateway.Text.{Text, text_eq, is_empty}
use vial_gateway.Text.Equality.{is_empty-ne-nil, text_eq_iff}
use vial_gateway.Url.{Url}
use vial_gateway.Std.{Std}
use vial_gateway.Scopes.{scope_set}
use vial_gateway.Auth.{is_admin}
use vial_gateway.Config.Types.{ApplicationConfig, AdminConfig}
use vial_gateway.Config.Validate.{
  Check, https, production, is_none, admin_without_redis, bad_bootstrap_key, incomplete_oidc,
  oidc_without_external_url, oidc_without_admin_scope, oidc_required, session_ttl_not_positive,
}
use vial_gateway.Prelude.Int.{not_pos}
use vial_gateway.Prelude.{◌>>◌}
use vial_gateway.Hex.{hash_bytes}
use vial_gateway.Config.Routes.{validate_gateway}
use vial_gateway.Application.{
  configured, check_redis_url, check_external_url, check_prometheus_url, check_admin,
  validate_application,
}

module _ (std : Std) where
  -- A control plane that signs in by a provider, for gateway.admin, under an https URL.
  pub record IsSecure (a : AdminConfig) : Type 0 where
    pub issuer : a.oidc_issuer ≢ []
    pub client : a.oidc_client_id ≢ []
    pub scopes : is_admin (scope_set a.oidc_scopes) ≡ true
    pub external :
        (u : Url) × (std.urls.parse a.external_url ≡ some u) × (u.scheme ≡ https) × (u.host ≢ [])

  external-https :
      (environment raw : Text)
      → environment ≡ production
      → is_empty raw ≡ false
      → check_external_url std environment raw ≡ ok tt
      → (u : Url) × (std.urls.parse raw ≡ some u) × (u.scheme ≡ https) × (u.host ≢ [])
  unfolding check_external_url
  external-https environment raw strict given h = elim (Option-cases (std.urls.parse raw)) [
    | inl bad ↦ absurd (ground arith)
    | inr (u, parsed) ↦
        let same = (text_eq_iff environment production).1 strict in
        (
          u,
          parsed,
          (text_eq_iff u.scheme https).0 (ground arith),
          is_empty-ne-nil u.host (ground arith),
        )
  ]

  check_admin-IsSecure :
      (environment redis_url : Text) (a : AdminConfig)
      → environment ≡ production
      → check_admin std environment redis_url a ≡ ok tt
      → IsSecure a
  unfolding check_admin
  check_admin-IsSecure environment redis_url a strict h =
      let (_, h₁) = >>-eq-ok (refuse_if (is_empty redis_url) admin_without_redis) _ h in
      let (_, h₂) =
        >>-eq-ok
          (refuse_if
            (not (is_empty a.bootstrap_key_sha) && is_none (hash_bytes a.bootstrap_key_sha))
            bad_bootstrap_key)
          _ h₁ in
      let (both, h₃) =
        >>-eq-ok (refuse_if (not (configured a == 0) && not (configured a == 2)) incomplete_oidc) _
          h₂ in
      let (reached, h₄) =
        >>-eq-ok
          (refuse_if (not (configured a == 0) && is_empty a.external_url) oidc_without_external_url)
          _ h₃ in
      let (scoped, h₅) =
        >>-eq-ok
          (refuse_if (not (configured a == 0) && not (is_admin (scope_set a.oidc_scopes)))
            oidc_without_admin_scope)
          _ h₄ in
      let (needed, h₆) =
        >>-eq-ok (refuse_if (text_eq environment production && configured a == 0) oidc_required) _
          h₅ in
      let (external, _) =
        >>-eq-ok (check_external_url std environment a.external_url)
          (refuse_if (not_pos a.session_ttl) session_ttl_not_positive
            >> check_prometheus_url std a.prometheus_url)
          h₆ in
      let all_set : (not (configured a == 0) && not (configured a == 2)) ≡ false =
        refuse_if-eq-ok _ incomplete_oidc both in
      let some_set : (text_eq environment production && configured a == 0) ≡ false =
        refuse_if-eq-ok _ oidc_required needed in
      let url_set : (not (configured a == 0) && is_empty a.external_url) ≡ false =
        refuse_if-eq-ok _ oidc_without_external_url reached in
      let scope_set' : (not (configured a == 0) && not (is_admin (scope_set a.oidc_scopes)))
          ≡ false =
        refuse_if-eq-ok _ oidc_without_admin_scope scoped in
      let same = (text_eq_iff environment production).1 strict in
      record {
        issuer = is_empty-ne-nil a.oidc_issuer (ground arith);
        client = is_empty-ne-nil a.oidc_client_id (ground arith);
        scopes = ground arith;
        external = external-https environment a.external_url strict (ground arith) external;
      }

  if_true : (b : Bool) (m : Check) → (if b then m else ok tt) ≡ ok tt → b ≡ true → m ≡ ok tt
  if_true true m h e = h
  if_true false m h e = cc

  -- In production, a configuration that is accepted with the control plane enabled has a provider with
  -- a client, asks it for gateway.admin, and has an external URL with https and a host.
  pub validate_application-IsSecure :
      (c : ApplicationConfig)
      → validate_application std c ≡ ok tt
      → c.environment ≡ production
      → c.admin.enabled ≡ true
      → IsSecure c.admin
  unfolding validate_application
  validate_application-IsSecure c h strict enabled =
      let (_, h₁) = >>-eq-ok (refuse_if _ _) _ h in
      let (_, h₂) = >>-eq-ok (validate_gateway std c.environment c.control_only c.gateway) _ h₁ in
      let (_, h₃) = >>-eq-ok (check_redis_url std c.redis_url) _ h₂ in
      let (admin, _) =
        >>-eq-ok
          (if c.admin.enabled then check_admin std c.environment c.redis_url c.admin else ok tt) _
          h₃ in
      check_admin-IsSecure c.environment c.redis_url c.admin strict
        (if_true c.admin.enabled _ admin enabled)
