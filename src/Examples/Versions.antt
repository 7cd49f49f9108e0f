-- ===== src/Examples/Versions.antt =====
-- Configuration versions: created, activated and deleted.
use vial_gateway.Prelude.{◌≡◌, refl, true, ◌⊎◌}
use vial_gateway.Prelude.Int.{ℤ}
use vial_gateway.Text.{
  codes, text_eq, has_prefix, trim_suffix, has_suffix, to_upper, to_lower, trim_space,
}
use vial_gateway.Number.{format_int, parse_int}
use vial_gateway.Dict.{lookup, insert}
use vial_gateway.Hex.{hash_bytes}
use vial_gateway.Config.Types.{GatewayConfig}
use vial_gateway.Config.Routes.{
  validate_gateway, check_route, check_routes, claim_methods, claim_hosts, route_key, check_shape,
  check_policies,
}
use vial_gateway.Config.Validate.{
  check_cors, check_proxy, validate_dynamic_dns, validate_auth_policy, parse_http_url, check_key,
  operations, json_empty,
}
use vial_gateway.Trust.{parse_trusted_proxies}
use vial_gateway.Route.{
  compile_route, endpoints_of, route_patterns, method_patterns, host_patterns, method_part,
  pattern_base,
}
use vial_gateway.Manager.{activate, validate, compile, compile_routes, register}
use vial_gateway.Store.{config_key, put, log}
use vial_gateway.Control.{
  version_of, trim_quotes, drop_quotes, activate_tx, validate_gateway_config, commit_config,
  activate_config,
}
use vial_gateway.Control.Activation.{
  is_json, Refused, Activated, Read, activate_config_all_or_nothing, no_first_activation,
}
use vial_gateway.Control.Sound.{IsSound}
use vial_gateway.Examples.Setup.{host, idle, codec, store, fresh_store, calls}

-- Version 2 is stored and 1 is active: with If-Match "1" the activation of 2 succeeds.
pub activation_answers :
    is_json
      (activate_config host codec calls
        (codes "ci")
        (codes "config.activate")
        (codes "2")
        (codes "1")
        store
        store
        idle).2
    ≡ true
unfolding activate_config commit_config activate_tx validate_gateway_config version_of trim_quotes
    drop_quotes parse_int config_key format_int put log activate validate compile compile_routes
    register parse_trusted_proxies compile_route endpoints_of route_patterns method_patterns
    host_patterns method_part pattern_base validate_gateway check_route check_routes claim_methods
    claim_hosts route_key check_shape check_policies check_cors check_proxy validate_dynamic_dns
    validate_auth_policy parse_http_url check_key operations json_empty hash_bytes text_eq
    has_prefix trim_suffix has_suffix to_upper to_lower trim_space lookup insert
activation_answers = refl

activate_config_all_or_nothing_example :
    let r =
      activate_config host codec calls
        (codes "ci")
        (codes "config.activate")
        (codes "2")
        (codes "1")
        store
        store
        idle in
    Refused host codec store idle r
    ⊎ ((version : ℤ) × (g : GatewayConfig) × Read host codec (codes "2") (codes "1") store version g
        × Activated host codec version (trim_quotes (codes "1")) g store idle r)
activate_config_all_or_nothing_example =
    activate_config_all_or_nothing host codec calls (codes "ci") (codes "config.activate")
      (codes "2") (codes "1") store store idle

no_first_activation_example : Refused host codec fresh_store idle (
    activate_config host codec calls
      (codes "ci")
      (codes "config.activate")
      (codes "2")
      (codes "0")
      fresh_store
      fresh_store
      idle)
no_first_activation_example =
    no_first_activation host codec calls (codes "ci") (codes "config.activate") (codes "2")
      (codes "0") fresh_store fresh_store idle refl

pub store-IsSound : IsSound store
unfolding config_key format_int text_eq
store-IsSound t e = (1, cc e, codes "one", refl)
