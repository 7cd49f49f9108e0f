-- ===== src/Route.antt =====
-- A compiled route: normalizeRoute, routePatterns and compileRoute of cmd/gateway/app.go. `B` is the
-- state of a circuit breaker, and `new_breaker` the one that gobreaker makes for a route's settings.
use vial_gateway.Prelude.{
  ℕ, ◌*◌, ◌^◌, true, false, List, [], ◌∷◌, ◌++◌, Option, none, some, if◌then◌else◌, ◌==◌, ok, err,
  or_default, replicate,
}
use vial_gateway.Prelude.Int.{ℤ, pos, eq_ℤ, not_pos, pos_part}
use mathlib.Core.Option
use vial_gateway.Text.{Text, codes, is_empty, text_eq, trim_suffix, to_upper, to_lower}
use vial_gateway.Path.{slash}
use vial_gateway.Url.{Url}
use vial_gateway.Dict.{lookup, insert}
use vial_gateway.Hex.{hash_bytes}
use vial_gateway.Std.{Std, IpNet}
use vial_gateway.Scopes.{ScopeSet, scope_set}
use vial_gateway.Pool.{Pool, Endpoint}
use vial_gateway.Config.Types.{
  RouteConfig, GatewayConfig, AuthPolicy, RatePolicy, CachePolicy, CircuitBreakerConfig,
  StaticApiKey, second,
}
use vial_gateway.Config.Validate.{parse_http_url}

-- A zero duration takes the default.
abbrev or_duration : ℤ → ℕ → ℤ
or_duration d default = if eq_ℤ d (pos 0) then pos default else d

unfoldable pub normalize_breaker : CircuitBreakerConfig → CircuitBreakerConfig
normalize_breaker c = record {
  failures = if c.failures == 0 then 5 else c.failures;
  open_for = or_duration c.open_for (30 * second);
}

unfoldable pub normalize_route : RouteConfig → RouteConfig
normalize_route r = record r {
  timeout = or_duration r.timeout (15 * second);
  max_body_bytes = or_duration r.max_body_bytes (2 ^ 20);
  health_interval = or_duration r.health_interval (10 * second);
  circuit_breaker = normalize_breaker r.circuit_breaker;
  path_rewrite = if is_empty r.path_rewrite then r.path_prefix else r.path_rewrite;
}

module _ (std : Std) where
  -- The prefix without its last slash, or "/".
  unfoldable pub pattern_base : RouteConfig → Text
  pattern_base r =
      let base = trim_suffix r.path_prefix slash in if is_empty base then slash else base

  unfoldable pub host_patterns : Text → Text → List Text → List Text
  host_patterns method base [] = []
  host_patterns method base (host ∷ hosts) =
      let name = method ++ to_lower std.unicode host in
      let rest = host_patterns method base hosts in
      if text_eq base slash
      then (name ++ slash) ∷ rest
      else (name ++ base) ∷ ((name ++ (base ++ slash)) ∷ rest)

  -- The method in upper case and a space, or nothing for every method.
  unfoldable pub method_part : Text → Text
  method_part method = if is_empty method then method else to_upper std.unicode method ++ (32 ∷ [])

  unfoldable pub method_patterns : Text → List Text → List Text → List Text
  method_patterns base hosts [] = []
  method_patterns base hosts (method ∷ methods) =
      host_patterns (method_part method) base hosts ++ method_patterns base hosts methods

  unfoldable pub route_patterns : RouteConfig → List Text
  route_patterns r =
      method_patterns (pattern_base r) (or_default r.hosts ([] ∷ []))
        (or_default r.methods ([] ∷ []))

pub record Principal : Type 0 where
  pub id : Text
  pub scopes : ScopeSet

-- The keys by their digests; the JWKS of a JWT policy is the state of `Auth.Jwt`.
pub record CompiledAuth : Type 0 where
  pub policy : AuthPolicy
  pub keys : List (Text × Principal)

pub record CompiledRoute (B : Type 0) : Type 0 where
  pub config : RouteConfig
  pub pool : Pool B
  pub auth : Option CompiledAuth
  pub rate : Option RatePolicy
  pub cache : Option CachePolicy
  -- the capacity of the channel `sem`
  pub sem : Option ℕ
  pub trusted : List IpNet
  pub max_header : ℤ

-- [32]byte{}, which the digest stays where hashBytes fails
abbrev zero_digest : List ℕ
zero_digest = replicate 32 0

abbrev pub digest_of : Option (List ℕ) → List ℕ
digest_of none = zero_digest
digest_of (some decoded) = decoded

-- The loop over policy.Keys.
unfoldable pub add_keys : List (Text × Principal) → List StaticApiKey → List (Text × Principal)
add_keys keys [] = keys
add_keys keys (key ∷ rest) =
    let identity : Principal = record { id = key.name; scopes = scope_set key.scopes } in
    add_keys (insert (digest_of (hash_bytes key.sha256)) identity keys) rest

abbrev empty_auth : AuthPolicy
empty_auth = record { type = []; keys = []; issuer = []; jwks_url = []; audiences = [] }

-- gateway.AuthPolicies[name], the zero policy where it is missing
abbrev pub or_zero {ℓ} : {A : Type ℓ} → A → Option A → A
or_zero zero none = zero
or_zero zero (some a) = a

unfoldable pub compile_auth : GatewayConfig → RouteConfig → Option CompiledAuth
unfolding add_keys
compile_auth g r =
    let policy = or_zero empty_auth (lookup r.auth_policy g.auth_policies) in
    if is_empty r.auth_policy
    then none
    else some (record { policy = policy; keys = add_keys [] policy.keys })

abbrev zero_rate : RatePolicy
zero_rate = record { requests = pos 0; burst = pos 0; window = pos 0 }

abbrev zero_cache : CachePolicy
zero_cache = record {
  ttl = pos 0;
  max_body_bytes = pos 0;
  per_principal = false;
  vary_headers = [];
}

module _ {B : Type 0} (std : Std) (new_breaker : RouteConfig → Url → B) where
  -- The loop over route.Upstreams. The parser's error is dropped; `none` is the panic on its nil URL.
  unfoldable pub endpoints_of : RouteConfig → List Text → Option (List (Endpoint B))
  endpoints_of r [] = some []
  endpoints_of r (raw ∷ rest) =
      let later = endpoints_of r rest in
      elim (parse_http_url std (r.name ++ codes " upstream") raw) [
        | err e ↦ none
        | ok url ↦
            Option.map
              (λ es. record { url = url; healthy = true; breaker = new_breaker r url } ∷ es) later
      ]

  unfoldable pub compile_route : RouteConfig → GatewayConfig → List IpNet → Option (CompiledRoute B)
  unfolding compile_auth endpoints_of normalize_route
  compile_route route g trusted =
      let r = normalize_route route in
      Option.map
        (λ es. record {
          config = r;
          pool = record { name = r.name; endpoints = es; next = 0 };
          auth = compile_auth g r;
          rate =
              if is_empty r.rate_policy
              then none
              else some (or_zero zero_rate (lookup r.rate_policy g.rate_policies));
          cache =
              if is_empty r.cache_policy
              then none
              else some (or_zero zero_cache (lookup r.cache_policy g.cache_policies));
          sem = if not_pos r.concurrency then none else some (pos_part r.concurrency);
          trusted = trusted;
          max_header = g.max_header_bytes;
        })
        (endpoints_of r r.upstreams)
