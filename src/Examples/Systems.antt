-- ===== src/Examples/Systems.antt =====
-- Two gateways on one store, and the application's configuration.
use vial_gateway.Prelude.{ℕ, ◌≡◌, refl, false, [], some, ok, if◌then◌else◌, arith}
use vial_gateway.Prelude.Int.{pos}
use vial_gateway.Text.{
  codes, text_eq, has_prefix, trim_suffix, has_suffix, to_upper, to_lower, trim_space,
}
use vial_gateway.Dict.{lookup, insert}
use vial_gateway.Hex.{hash_bytes}
use vial_gateway.Std.{Std}
use vial_gateway.Number.{parse_int, format_int}
use vial_gateway.Scopes.{scope_set, add_scopes}
use vial_gateway.Config.Types.{ApplicationConfig}
use vial_gateway.Config.Routes.{
  validate_gateway, check_route, check_routes, claim_methods, claim_hosts, route_key, check_shape,
  check_policies,
}
use vial_gateway.Config.Validate.{
  check_cors, check_proxy, validate_dynamic_dns, validate_auth_policy, parse_http_url, check_key,
  operations, json_empty,
}
use vial_gateway.Store.{config_key}
use vial_gateway.Control.{version_of, activate_config}
use vial_gateway.Control.Boot.{load}
use vial_gateway.Control.Catchup.{Follows, activation_reaches}
use vial_gateway.System.{
  World, Setting, Step, activates, loads, Reach, here, next, with_manager, activated_at,
}
use vial_gateway.Application.{
  validate_application, check_admin, check_external_url, check_prometheus_url, check_redis_url,
}
use vial_gateway.Application.Secure.{IsSecure, validate_application-IsSecure}
use vial_gateway.Examples.Setup.{std, app_url, config, host, codec, store, idle, calls}
use vial_gateway.Examples.Serving
use vial_gateway.Examples.Versions.{activation_answers}
use vial_gateway.Examples.Exchanges.{deps}
use vial_gateway.Examples.Sessions.{admin, sessions}

abbrev setting : Setting (Unit {0}) ℕ
setting = record { host = host; configs = codec; sessions = sessions; deps = deps; admin = admin }

abbrev begin : World (Unit {0})
begin = record { store = store; gateways = λ i. idle }

-- Gateway 0 activates version 2, and gateway 1 loads it.
abbrev switched : World (Unit {0})
switched = activated_at setting begin 0 (
    activate_config host codec calls (codes "ci") (codes "config.activate") (codes "2") (codes "1")
      store store idle)

abbrev followed : World (Unit {0})
followed =
    with_manager setting switched 1 (load host codec calls switched.store (switched.gateways 1))

abbrev first : Step setting begin switched
first = activates begin 0 calls (codes "ci") (codes "config.activate") (codes "2") (codes "1") store

abbrev run : Reach setting begin followed
run = next (next here first) (loads switched 1 calls)

version_two : version_of (codes "2") ≡ some (pos 2)
unfolding version_of parse_int
version_two = refl

activation_reaches_example :
    Follows host codec (pos 2) config idle (load host codec calls switched.store idle)
unfolding config_key text_eq format_int
activation_reaches_example =
    activation_reaches host codec calls calls (codes "ci") (codes "config.activate") (codes "2")
      (codes "1") store store idle idle 2 (codes "two") config activation_answers version_two
      (omega arith) refl refl Serving.activates.0 refl refl refl

-- The configuration of the examples in production, with a control plane under https.
abbrev pub secure_std : Std
secure_std = record std {
  urls = record std.urls {
    parse = λ t. some (record app_url {
      scheme = if has_prefix t (codes "redis:") then codes "redis" else codes "https";
    });
  };
}

abbrev pub application : ApplicationConfig
application = record {
  environment = codes "production";
  redis_url = codes "redis://r";
  dynamic_dns_bearer_token = [];
  control_only = false;
  admin = admin;
  tls = record { cert_file = []; key_file = [] };
  gateway = config;
}

application_accepted : validate_application secure_std application ≡ ok tt
unfolding validate_application check_admin check_external_url check_prometheus_url check_redis_url
    scope_set add_scopes validate_gateway check_route check_routes claim_methods claim_hosts
    route_key check_shape check_policies check_cors check_proxy validate_dynamic_dns
    validate_auth_policy parse_http_url check_key operations json_empty hash_bytes text_eq
    has_prefix trim_suffix has_suffix to_upper to_lower trim_space lookup insert
application_accepted = refl

validate_application-IsSecure_example : IsSecure secure_std admin
validate_application-IsSecure_example =
    validate_application-IsSecure secure_std application application_accepted refl refl
