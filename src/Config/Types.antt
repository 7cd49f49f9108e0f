-- ===== src/Config/Types.antt =====
-- The configuration of cmd/gateway/config.go, with the source's fields. A `duration` is its number
-- of nanoseconds, an `int` or `int64` the integer that it holds, a map a list of its entries.
use vial_gateway.Prelude.{ℕ, Bool, List}
use vial_gateway.Prelude.Int.{ℤ}
use vial_gateway.Text.{Text}

-- A value of JSON, as encoding/json has it in an `any`; numbers are kept as their text.
mutual
  pub data Json : Type 0 where
    null : Json
    boolean : Bool → Json
    number : Text → Json
    text : Text → Json
    array : Items → Json
    object : Members → Json

  pub data Items : Type 0 where
    nil : Items
    cons : Json → Items → Items

  pub data Members : Type 0 where
    end : Members
    member : Text → Json → Members → Members

pub record StaticApiKey : Type 0 where
  pub name : Text
  pub sha256 : Text
  pub scopes : List Text

pub record AuthPolicy : Type 0 where
  pub type : Text
  pub keys : List StaticApiKey
  pub issuer : Text
  pub jwks_url : Text
  pub audiences : List Text

pub record RatePolicy : Type 0 where
  pub requests : ℤ
  pub burst : ℤ
  pub window : ℤ

pub record CachePolicy : Type 0 where
  pub ttl : ℤ
  pub max_body_bytes : ℤ
  pub per_principal : Bool
  pub vary_headers : List Text

pub record CircuitBreakerConfig : Type 0 where
  pub failures : ℕ
  pub open_for : ℤ

pub record JsonTransform : Type 0 where
  pub add : List (Text × Json)
  pub remove : List Text
  pub rename : List (Text × Text)

pub record TransformConfig : Type 0 where
  pub set_headers : List (Text × Text)
  pub remove_headers : List Text
  pub json : JsonTransform

pub record RouteConfig : Type 0 where
  pub name : Text
  pub hosts : List Text
  pub methods : List Text
  pub path_prefix : Text
  pub path_rewrite : Text
  pub rewrite_redirects : Bool
  pub upstreams : List Text
  pub health_path : Text
  pub health_interval : ℤ
  pub timeout : ℤ
  pub max_body_bytes : ℤ
  pub auth_policy : Text
  pub scopes : List Text
  pub rate_policy : Text
  pub concurrency : ℤ
  pub retries : ℤ
  pub circuit_breaker : CircuitBreakerConfig
  pub cache_policy : Text
  pub request_transform : TransformConfig
  pub response_transform : TransformConfig
  pub streaming : Bool

pub record TelemetryConfig : Type 0 where
  pub service_name : Text
  pub otlp_endpoint : Text

pub record DynamicDnsConfig : Type 0 where
  pub enabled : Bool
  pub check_url : Text
  pub update_url : Text
  pub interval : ℤ
  pub timeout : ℤ

pub record GatewayConfig : Type 0 where
  pub schema_version : ℤ
  pub version : ℤ
  pub routes : List RouteConfig
  pub auth_policies : List (Text × AuthPolicy)
  pub rate_policies : List (Text × RatePolicy)
  pub cache_policies : List (Text × CachePolicy)
  pub telemetry : TelemetryConfig
  pub dynamic_dns : DynamicDnsConfig
  pub trusted_proxies : List Text
  pub cors_allowed_origins : List Text
  pub max_header_bytes : ℤ

pub record AdminConfig : Type 0 where
  pub enabled : Bool
  pub external_url : Text
  pub bootstrap_key_sha : Text
  pub oidc_issuer : Text
  pub oidc_client_id : Text
  pub oidc_client_secret : Text
  pub oidc_scopes : List Text
  pub prometheus_url : Text
  pub session_ttl : ℤ

pub record TlsConfig : Type 0 where
  pub cert_file : Text
  pub key_file : Text

pub record ApplicationConfig : Type 0 where
  pub environment : Text
  pub redis_url : Text
  pub dynamic_dns_bearer_token : Text
  pub control_only : Bool
  pub admin : AdminConfig
  pub tls : TlsConfig
  pub gateway : GatewayConfig

-- Go's time.Second and time.Hour, in nanoseconds.
abbrev pub second : ℕ
second = 1000000000
