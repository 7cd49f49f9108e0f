-- ===== src/Examples/Serving.antt =====
-- Configurations: validated, compiled, activated.
use vial_gateway.Prelude.{◌≡◌, refl, true, false, ok, err, map, Option, none, some, []}
use vial_gateway.Text.{codes}
use vial_gateway.Config.Routes.{
  validate_gateway, check_route, check_routes, claim_methods, claim_hosts, route_key, check_shape,
  check_policies,
}
use vial_gateway.Config.Valid.{validate_gateway-Distinct}
use vial_gateway.Config.Claims.{Distinct, all_keys}
use vial_gateway.Config.Validate.{
  check_cors, check_proxy, validate_dynamic_dns, validate_auth_policy, parse_http_url, check_key,
  operations, json_empty,
}
use vial_gateway.Hex.{hash_bytes}
use vial_gateway.Text.{text_eq, has_prefix, trim_suffix, has_suffix, to_upper, to_lower, trim_space}
use vial_gateway.Dict.{lookup, insert}
use vial_gateway.Manager.{
  compile, compile_routes, register, activate, validate, panicked, ready, Snapshot,
}
use vial_gateway.Manager.Compile.{Refused, compile_of_accepted}
use vial_gateway.Manager.Swap.{IsServing}
use vial_gateway.Trust.{parse_trusted_proxies}
use vial_gateway.Route.{
  compile_route, endpoints_of, route_patterns, method_patterns, host_patterns, method_part,
  pattern_base,
}
use vial_gateway.Pool.{has_healthy}
use vial_gateway.Examples.Setup.{std, config, host, closed_host, idle}

config_accepted : validate_gateway std (codes "test") false config ≡ ok tt
unfolding validate_gateway check_route check_routes claim_methods claim_hosts route_key check_shape
    check_policies check_cors check_proxy validate_dynamic_dns validate_auth_policy parse_http_url
    check_key operations json_empty hash_bytes text_eq has_prefix trim_suffix has_suffix to_upper
    to_lower trim_space lookup insert
config_accepted = refl

validate_gateway-Distinct_example :
    Distinct (map (λ r. r.name) config.routes) × Distinct (all_keys std config.routes)
validate_gateway-Distinct_example =
    validate_gateway-Distinct std (codes "test") false config config_accepted

closed_fails : compile closed_host (codes "test") false config ≡ err panicked
unfolding compile compile_routes register parse_trusted_proxies compile_route endpoints_of
    route_patterns method_patterns host_patterns method_part pattern_base validate_gateway
    check_route check_routes claim_methods claim_hosts route_key check_shape check_policies
    check_cors check_proxy validate_dynamic_dns validate_auth_policy parse_http_url check_key
    operations json_empty hash_bytes text_eq has_prefix trim_suffix has_suffix to_upper to_lower
    trim_space lookup insert
closed_fails = refl

compile_of_accepted_example : Refused closed_host config.routes
compile_of_accepted_example =
    compile_of_accepted closed_host (codes "test") false config panicked config_accepted
      closed_fails

pub activates :
    (validate host idle config ≡ ok tt) × (ready host (activate host idle config).0 ≡ true)
unfolding activate validate ready has_healthy compile compile_routes register parse_trusted_proxies
    compile_route endpoints_of route_patterns method_patterns host_patterns method_part pattern_base
    validate_gateway check_route check_routes claim_methods claim_hosts route_key check_shape
    check_policies check_cors check_proxy validate_dynamic_dns validate_auth_policy parse_http_url
    check_key operations json_empty hash_bytes text_eq has_prefix trim_suffix has_suffix to_upper
    to_lower trim_space lookup insert
activates = (refl, refl)

abbrev or_empty_snapshot : Option (Snapshot (Unit {0})) → Snapshot (Unit {0})
or_empty_snapshot none = record { config = config; routes = []; patterns = [] }
or_empty_snapshot (some s) = s

-- The snapshot of the configuration.
abbrev pub snapshot : Snapshot (Unit {0})
snapshot = or_empty_snapshot (activate host idle config).0.current

pub activated : (activate host idle config).0.current ≡ some snapshot
unfolding activate validate ready has_healthy compile compile_routes register parse_trusted_proxies
    compile_route endpoints_of route_patterns method_patterns host_patterns method_part pattern_base
    validate_gateway check_route check_routes claim_methods claim_hosts route_key check_shape
    check_policies check_cors check_proxy validate_dynamic_dns validate_auth_policy parse_http_url
    check_key operations json_empty hash_bytes text_eq has_prefix trim_suffix has_suffix to_upper
    to_lower trim_space lookup insert
activated = refl

pub idle-IsServing : IsServing host idle
idle-IsServing s e = cc
