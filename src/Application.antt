-- ===== src/Application.antt =====
-- The application's configuration and its reload: applicationConfig.Validate and defaultConfig of
-- cmd/gateway/config.go, and reloadGateway of cmd/gateway/main.go.
pub mod Secure
pub mod Reload
use vial_gateway.Prelude.{
  ℕ, ◌+◌, ◌*◌, ◌^◌, Bool, true, false, not, ◌&&◌, ◌||◌, List, [], ◌∷◌, Option, none, some,
  if◌then◌else◌, ◌==◌, Result, ok, err, ◌>>◌, refuse_if,
}
use vial_gateway.Prelude.Int.{ℤ, pos, not_pos}
use vial_gateway.Text.{Text, codes, text_eq, is_empty, trim_space}
use vial_gateway.Url.{Url}
use vial_gateway.Std.{Std}
use vial_gateway.Hex.{hash_bytes}
use vial_gateway.Scopes.{scope_set}
use vial_gateway.Auth.{is_admin}
use vial_gateway.Config.Types.{ApplicationConfig, AdminConfig, TlsConfig, GatewayConfig, second}
use vial_gateway.Config.Validate.{
  ConfigError, Check, is_http, https, production, is_none, no_environment, bad_redis_url,
  admin_without_redis, bad_bootstrap_key, incomplete_oidc, oidc_without_external_url,
  oidc_without_admin_scope, oidc_required, bad_external_url, external_url_not_https,
  session_ttl_not_positive, bad_prometheus_url, incomplete_tls,
}
use vial_gateway.Config.Routes.{validate_gateway}
use vial_gateway.Manager.{Host, Manager, CompileError, activate}

abbrev is_redis : Url → Bool
is_redis u = text_eq u.scheme (codes "redis") || text_eq u.scheme (codes "rediss")

-- How many of oidc_issuer and oidc_client_id are set.
abbrev set_count : Text → ℕ
set_count t = if is_empty t then 0 else 1

abbrev pub configured : AdminConfig → ℕ
configured a = set_count a.oidc_issuer + set_count a.oidc_client_id

module _ (std : Std) where
  unfoldable pub check_redis_url : Text → Check
  check_redis_url raw = if is_empty raw then ok tt else elim (std.urls.parse raw) [
    | none ↦ err bad_redis_url
    | some parsed ↦ refuse_if (not (is_redis parsed) || is_empty parsed.host) bad_redis_url
  ]

  unfoldable pub check_external_url : Text → Text → Check
  check_external_url environment raw = if is_empty raw then ok tt else elim (std.urls.parse raw) [
    | none ↦ err bad_external_url
    | some external ↦ (do
      refuse_if (is_empty external.host || not (is_http external)) bad_external_url
      refuse_if (text_eq environment production && not (text_eq external.scheme https))
          external_url_not_https)
  ]

  unfoldable pub check_prometheus_url : Text → Check
  check_prometheus_url raw = if is_empty raw then ok tt else elim (std.urls.parse raw) [
    | none ↦ err bad_prometheus_url
    | some metrics ↦
        refuse_if
          (is_empty metrics.host
            || not (is_http metrics)
            || metrics.has_user
            || not (is_empty metrics.raw_query)
            || not (is_empty metrics.fragment))
          bad_prometheus_url
  ]

  -- The checks of an admin configuration that is enabled.
  unfoldable pub check_admin : Text → Text → AdminConfig → Check
  check_admin environment redis_url a = do
    refuse_if (is_empty redis_url) admin_without_redis
    refuse_if (not (is_empty a.bootstrap_key_sha) && is_none (hash_bytes a.bootstrap_key_sha))
        bad_bootstrap_key
    refuse_if (not (configured a == 0) && not (configured a == 2)) incomplete_oidc
    refuse_if (not (configured a == 0) && is_empty a.external_url) oidc_without_external_url
    refuse_if (not (configured a == 0) && not (is_admin (scope_set a.oidc_scopes)))
        oidc_without_admin_scope
    refuse_if (text_eq environment production && configured a == 0) oidc_required
    check_external_url environment a.external_url
    refuse_if (not_pos a.session_ttl) session_ttl_not_positive
    check_prometheus_url a.prometheus_url

  abbrev pub one_of_two : TlsConfig → Bool
  one_of_two tls =
      if is_empty tls.cert_file then not (is_empty tls.key_file) else is_empty tls.key_file

  -- applicationConfig.Validate
  unfoldable pub validate_application : ApplicationConfig → Check
  validate_application c = do
    refuse_if (is_empty (trim_space std.unicode c.environment)) no_environment
    validate_gateway std c.environment c.control_only c.gateway
    check_redis_url c.redis_url
    if c.admin.enabled then check_admin c.environment c.redis_url c.admin else ok tt
    refuse_if (one_of_two c.tls) incomplete_tls

-- The manager, and the certificate of the listener where it has TLS.
pub record Running (B C : Type 0) : Type 0 where
  pub manager : Manager B
  pub certificate : Option C

pub data ReloadError : Type 0 where
  invalid : ConfigError → ReloadError
  tls_mode_changed bad_certificate : ReloadError
  refused : CompileError → ReloadError

abbrev pub is_some {ℓ} : {A : Type ℓ} → Option A → Bool
is_some none = false
is_some (some a) = true

module _ {B C : Type 0} (host : Host B) (load_certificate : Text → Text → Option C) where
  -- The certificate of a replacement: none where it has no TLS, an error where it cannot be loaded.
  abbrev pub certificate_of : TlsConfig → Result ReloadError (Option C)
  certificate_of tls =
      if is_empty tls.cert_file
      then ok none
      else elim (load_certificate tls.cert_file tls.key_file) [
        | none ↦ err bad_certificate
        | some certificate ↦ ok (some certificate)
      ]

  abbrev pub or_current : Option C → Option C → Option C
  or_current none current = current
  or_current (some certificate) current = some certificate

  abbrev pub swapped :
      Running B C
      → Option C
      → Manager B × Result CompileError (Unit {0})
      → Running B C × Result ReloadError (Unit {0})
  swapped s certificate (m, ok u) =
      (record { manager = m; certificate = or_current certificate s.certificate }, ok tt)
  swapped s certificate (m, err e) = (record s { manager = m }, err (refused e))

  -- reloadGateway
  unfoldable pub reload_gateway :
      ApplicationConfig → Running B C → Running B C × Result ReloadError (Unit {0})
  reload_gateway c s = elim (validate_application host.std c) [
    | err e ↦ (s, err (invalid e))
    | ok u ↦
        let enabled = not (is_empty c.tls.cert_file) in
        let changed = if enabled then not (is_some s.certificate) else is_some s.certificate in
        if changed then (s, err tls_mode_changed) else elim (certificate_of c.tls) [
          | err e ↦ (s, err e)
          | ok certificate ↦ swapped s certificate (activate host s.manager c.gateway)
        ]
  ]

-- defaultConfig, where HTTP is the package's default
unfoldable pub default_gateway : GatewayConfig
default_gateway = record {
  schema_version = pos 1;
  version = pos 0;
  routes = [];
  auth_policies = [];
  rate_policies = [];
  cache_policies = [];
  telemetry = record { service_name = codes "vial-gateway"; otlp_endpoint = [] };
  dynamic_dns = record {
    enabled = false;
    check_url = [];
    update_url = [];
    interval = pos 0;
    timeout = pos 0;
  };
  trusted_proxies = [];
  cors_allowed_origins = [];
  max_header_bytes = pos (2 ^ 20);
}

unfoldable pub default_config : ApplicationConfig
default_config = record {
  environment = codes "development";
  redis_url = [];
  dynamic_dns_bearer_token = [];
  control_only = false;
  admin = record {
    enabled = false;
    external_url = [];
    bootstrap_key_sha = [];
    oidc_issuer = [];
    oidc_client_id = [];
    oidc_client_secret = [];
    oidc_scopes = [];
    prometheus_url = [];
    session_ttl = pos (8 * 3600 * second);
  };
  tls = record { cert_file = []; key_file = [] };
  gateway = default_gateway;
}
