-- ===== src/Examples/Setup.antt =====
-- Concrete data for the examples: a small standard library, a configuration of one route, a manager
-- that serves nothing yet, and a store with one version.
use vial_gateway.Prelude.{
  ℕ, Bool, true, false, List, [], ◌∷◌, Option, none, some, if◌then◌else◌, replicate,
}
use vial_gateway.Prelude.Int.{pos}
use vial_gateway.Text.{Text, codes, text_eq, elem, ascii_only}
use vial_gateway.Url.{Url, UrlLib}
use vial_gateway.Std.{Std, NetLib, IpNet}
use vial_gateway.Config.Types.{RouteConfig, GatewayConfig, AuthPolicy, TransformConfig}
use vial_gateway.Pool.{Endpoint, Pool}
use vial_gateway.Manager.{Host, Manager}
use vial_gateway.Store.{Store, active_config_key, write}
use vial_gateway.Control.{Calls, Codec, committed}

-- Every text is a URL of the host "app".
abbrev pub app_url : Url
app_url = record {
  scheme = codes "http";
  has_user = false;
  host = codes "app";
  path = [];
  raw_path = [];
  raw_query = [];
  fragment = [];
}

abbrev urls : UrlLib
urls = record {
  parse = λ t. some app_url;
  resolve = λ base ref. ref;
  to_string = λ u. u.host;
  equal_fold = text_eq;
}

-- Two addresses are known.
abbrev pub proxy_ip : List ℕ
proxy_ip = 10 ∷ 0 ∷ 0 ∷ 1 ∷ []

abbrev pub other_ip : List ℕ
other_ip = 1 ∷ 2 ∷ 3 ∷ 4 ∷ []

abbrev known_ip : Text → Option (List ℕ)
known_ip t =
    if text_eq t (codes "10.0.0.1")
    then some proxy_ip
    else if text_eq t (codes "1.2.3.4")
    then some other_ip
    else none

abbrev same_ip : IpNet → Option (List ℕ) → Bool
same_ip n none = false
same_ip n (some ip) = text_eq n.ip ip

abbrev nets : NetLib
nets = record {
  parse_ip = known_ip;
  parse_cidr = λ t. none;
  to4 = some;
  ip_string = λ ip. codes "10.0.0.1";
  contains = same_ip;
  is_global_unicast = λ ip. true;
  is_private = λ ip. false;
  is_loopback = λ ip. false;
  split_host = λ t. t;
}

abbrev pub std : Std
std = record { unicode = ascii_only; urls = urls; nets = nets; sha256 = λ t. replicate 32 7 }

abbrev pub plain : TransformConfig
plain = record {
  set_headers = [];
  remove_headers = [];
  json = record { add = []; remove = []; rename = [] };
}

abbrev pub route : RouteConfig
route = record {
  name = codes "app";
  hosts = [];
  methods = codes "get" ∷ [];
  path_prefix = codes "/app";
  path_rewrite = [];
  rewrite_redirects = false;
  upstreams = codes "http://app" ∷ [];
  health_path = [];
  health_interval = pos 0;
  timeout = pos 0;
  max_body_bytes = pos 0;
  auth_policy = codes "keys";
  scopes = [];
  rate_policy = [];
  concurrency = pos 0;
  retries = pos 0;
  circuit_breaker = record { failures = 0; open_for = pos 0 };
  cache_policy = [];
  request_transform = plain;
  response_transform = plain;
  streaming = false;
}

abbrev pub hash_text : Text
hash_text = replicate 64 b'a'

abbrev pub keys_policy : AuthPolicy
keys_policy = record {
  type = codes "api_key";
  keys = record { name = codes "ci"; sha256 = hash_text; scopes = codes "read" ∷ [] } ∷ [];
  issuer = [];
  jwks_url = [];
  audiences = [];
}

abbrev pub config : GatewayConfig
config = record {
  schema_version = pos 1;
  version = pos 2;
  routes = route ∷ [];
  auth_policies = (codes "keys", keys_policy) ∷ [];
  rate_policies = [];
  cache_policies = [];
  telemetry = record { service_name = []; otlp_endpoint = [] };
  dynamic_dns = record {
    enabled = false;
    check_url = [];
    update_url = [];
    interval = pos 0;
    timeout = pos 0;
  };
  trusted_proxies = codes "10.0.0.1" ∷ [];
  cors_allowed_origins = [];
  max_header_bytes = pos 0;
}

-- A mux that takes every pattern once, and one that takes none.
abbrev pub host : Host (Unit {0})
host = record {
  std = std;
  new_breaker = λ r u. tt;
  registers = λ taken p. if elem p taken then false else true;
}

abbrev pub closed_host : Host (Unit {0})
closed_host = record { std = std; new_breaker = λ r u. tt; registers = λ taken p. false }

abbrev pub idle : Manager (Unit {0})
idle = record {
  current = none;
  redis_version = pos 0;
  environment = codes "test";
  allow_no_routes = false;
  rejected = 0;
  activated = 0;
  retired = [];
  workers = [];
}

-- Version 2 is stored as the text "two", and version 1 is active.
abbrev pub codec : Codec
codec = record { encode = λ g. codes "two"; decode = λ t. some config }

abbrev pub store : Store
store = record {
  strings = write active_config_key (some (codes "1")) (
      write (codes "vial-gateway:config:1") (some (codes "one"))
        (write (codes "vial-gateway:config:2") (some (codes "two")) (λ k. none)));
  hashes = λ k. none;
  audit = [];
  published = [];
}

abbrev pub fresh_store : Store
fresh_store = record { strings = λ k. none; hashes = λ k. none; audit = []; published = [] }

abbrev pub calls : Calls
calls = record {
  first = true;
  second = true;
  third = true;
  exec = committed;
  logged = true;
  now = codes "now";
  trim = λ entries. entries;
}

abbrev pub endpoint : Bool → Endpoint (Unit {0})
endpoint healthy = record { url = app_url; healthy = healthy; breaker = tt }

abbrev pub pool : ℕ → List (Endpoint (Unit {0})) → Pool (Unit {0})
pool next endpoints = record { name = codes "app"; endpoints = endpoints; next = next }
