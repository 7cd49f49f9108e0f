-- ===== src/Config/Validate.antt =====
-- Validate of GatewayConfig, authPolicy and dynamicDNSConfig: cmd/gateway/config.go. An error is a
-- constructor for each message, with the names that the message quotes.
use vial_gateway.Prelude.{
  ℕ, ◌+◌, ◌*◌, Bool, true, false, not, ◌&&◌, ◌||◌, List, [], ◌∷◌, ◌++◌, Option, none, some, leb,
  if◌then◌else◌, length, Result, ok, err, ◌>>◌, refuse_if, each,
}
use vial_gateway.Prelude.Int.{pos, is_neg, not_pos, leb_ℤ}
use vial_gateway.Text.{Text, codes, text_eq, is_empty, contains, trim_space}
use vial_gateway.Url.{Url}
use vial_gateway.Hex.{hash_bytes}
use vial_gateway.Std.{Std}
use vial_gateway.Config.Types.{
  AuthPolicy, RatePolicy, CachePolicy, DynamicDnsConfig, JsonTransform, TransformConfig,
  StaticApiKey, second,
}

pub data ConfigError : Type 0 where
  -- GatewayConfig.Validate
  unsupported_schema_version version_not_positive no_routes : ConfigError
  negative_max_header_bytes wildcard_cors : ConfigError
  bad_trusted_proxy bad_rate_policy bad_cache_policy : Text → ConfigError
  bad_route_name bad_path_prefix bad_path_rewrite no_upstream negative_limit : Text → ConfigError
  unknown_auth_policy unknown_rate_policy unknown_cache_policy : Text → Text → ConfigError
  cache_not_per_principal streaming_and_caching : Text → ConfigError
  streaming_with_retries_or_transforms too_many_transforms proxies_connect : Text → ConfigError
  route_conflict : Text → Text → ConfigError
  -- dynamicDNSConfig.validate
  no_ip_in_update_url dns_interval_too_short bad_dns_timeout : ConfigError
  bad_dns_url dns_url_not_https : Text → ConfigError
  -- authPolicy.validate
  unnamed_key bad_key_hash incomplete_jwt_policy unsupported_auth_type : Text → ConfigError
  -- parseHTTPURL
  not_http_url url_with_credentials : Text → ConfigError
  -- applicationConfig.Validate
  no_environment bad_redis_url admin_without_redis bad_bootstrap_key : ConfigError
  incomplete_oidc oidc_without_external_url oidc_without_admin_scope oidc_required : ConfigError
  bad_external_url external_url_not_https session_ttl_not_positive bad_prometheus_url : ConfigError
  incomplete_tls : ConfigError

abbrev pub Check : Type 0
Check = Result ConfigError (Unit {0})

abbrev pub http : Text
http = codes "http"

abbrev pub https : Text
https = codes "https"

abbrev pub development : Text
development = codes "development"

abbrev pub production : Text
production = codes "production"

abbrev pub star : Text
star = codes "*"

abbrev pub connect : Text
connect = codes "CONNECT"

-- parsed.Scheme != "http" && parsed.Scheme != "https"
abbrev pub is_http : Url → Bool
is_http u = text_eq u.scheme http || text_eq u.scheme https

unfoldable pub parse_http_url : Std → Text → Text → Result ConfigError Url
parse_http_url std name raw = elim (std.urls.parse (trim_space std.unicode raw)) [
  | none ↦ err (not_http_url name)
  | some parsed ↦ do
    refuse_if (not (is_http parsed) || is_empty parsed.host) (not_http_url name)
    refuse_if (parsed.has_user || not (is_empty parsed.raw_query) || not (is_empty parsed.fragment))
        (url_with_credentials name)
    ok parsed
]

-- The error alone, where the URL is not used.
abbrev pub checked {ℓ} : {A : Type ℓ} → Result ConfigError A → Check
checked (ok a) = ok tt
checked (err e) = err e

abbrev pub is_none {ℓ} : {A : Type ℓ} → Option A → Bool
is_none none = true
is_none (some a) = false

unfoldable pub check_key : Text → StaticApiKey → Check
check_key name key = do
  refuse_if (is_empty key.name) (unnamed_key name)
  refuse_if (is_none (hash_bytes key.sha256)) (bad_key_hash name)

unfoldable pub validate_auth_policy : Std → Text → AuthPolicy → Check
validate_auth_policy std name policy =
    let keys = each (check_key name) policy.keys in
    let jwks = checked (parse_http_url std (name ++ codes " JWKS") policy.jwks_url) in
    if text_eq policy.type (codes "none")
    then ok tt
    else if text_eq policy.type (codes "api_key")
    then keys
    else if text_eq policy.type (codes "jwt")
    then (refuse_if
          (is_empty policy.issuer || is_empty policy.jwks_url || leb (length policy.audiences) 0)
          (incomplete_jwt_policy name)
        >> jwks)
    else err (unsupported_auth_type name)

-- One round of the loop over the two URLs.
unfoldable pub check_dns_url : Std → Text → Text → Text → Check
check_dns_url std environment name raw = elim (std.urls.parse raw) [
  | none ↦ err (bad_dns_url name)
  | some parsed ↦ do
    refuse_if
        (is_empty parsed.host
          || not (is_http parsed)
          || parsed.has_user
          || not (is_empty parsed.fragment))
        (bad_dns_url name)
    refuse_if (text_eq environment production && not (text_eq parsed.scheme https))
        (dns_url_not_https name)
]

-- Go leaves the order of the two URLs open; it decides only which of them an error names.
unfoldable pub validate_dynamic_dns : Std → Text → DynamicDnsConfig → Check
validate_dynamic_dns std environment c =
    let checks : Check = (do
      refuse_if (not (contains c.update_url (codes "{ip}"))) no_ip_in_update_url
      check_dns_url std environment (codes "check_url") c.check_url
      check_dns_url std environment (codes "update_url") c.update_url
      refuse_if (not (leb_ℤ (pos (10 * second)) c.interval)) dns_interval_too_short
      refuse_if (not_pos c.timeout || not (leb_ℤ c.timeout c.interval)) bad_dns_timeout) in
    if not c.enabled then ok tt else checks

unfoldable pub operations : TransformConfig → ℕ
operations t =
    length t.set_headers
    + length t.remove_headers
    + length t.json.add
    + length t.json.remove
    + length t.json.rename

abbrev pub is_nil {ℓ} : {A : Type ℓ} → List A → Bool
is_nil [] = true
is_nil (x ∷ xs) = false

unfoldable pub json_empty : JsonTransform → Bool
json_empty t = is_nil t.add && is_nil t.remove && is_nil t.rename

unfoldable pub check_cors : Text → Text → Check
check_cors environment origin =
    refuse_if (text_eq origin star && not (text_eq environment development)) wildcard_cors

unfoldable pub check_proxy : Std → Text → Check
check_proxy std trusted =
    refuse_if (is_none (std.nets.parse_ip trusted) && is_none (std.nets.parse_cidr trusted))
      (bad_trusted_proxy trusted)

unfoldable pub check_rate_policy : Text × RatePolicy → Check
check_rate_policy (name, policy) =
    refuse_if (not_pos policy.requests || is_neg policy.burst || not_pos policy.window)
      (bad_rate_policy name)

unfoldable pub check_cache_policy : Text × CachePolicy → Check
check_cache_policy (name, policy) =
    refuse_if (not_pos policy.ttl || not_pos policy.max_body_bytes) (bad_cache_policy name)
