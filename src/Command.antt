-- ===== src/Command.antt =====
-- The process: newApp and Close of cmd/gateway, and run, configureTelemetry and the loop over signals of
-- cmd/gateway/main.go, with what else swaps the configuration of a running gateway: the loads of watch
-- and the activations over the API. What reads files and the environment, opens sockets and exports traces is
-- `Process`; metrics are left out.
pub mod Startup
pub mod Signals
pub mod Drift
use vial_gateway.Prelude.{
  ℕ, Bool, true, false, not, List, [], ◌∷◌, Option, none, some, ◌&&◌, if◌then◌else◌, Result, ok,
  err, ◌>>=◌, ◌>>◌, refuse_if,
}
use vial_gateway.Prelude.Int.{pos}
use vial_gateway.Text.{Text, codes, is_empty}
use vial_gateway.Config.Types.{ApplicationConfig, TelemetryConfig, TlsConfig, GatewayConfig}
use vial_gateway.Config.Validate.{ConfigError}
use vial_gateway.Manager.{Host, Manager, CompileError, activate, retire}
use vial_gateway.Store.{Store}
use vial_gateway.Control.{Codec, Calls, activate_config}
use vial_gateway.Control.Boot.{load}
use vial_gateway.Application.{Running, validate_application, certificate_of, reload_gateway}

pub record Process (B C : Type 0) : Type 0 where
  pub host : Host B
  pub configs : Codec
  pub load_certificate : Text → Text → Option C
  -- whether redis.ParseURL takes a URL, and whether otlptracehttp.New gives an exporter for one
  pub parses_redis : Text → Bool
  pub exports : Text → Bool
  -- whether net.Listen succeeds
  pub listens : Bool
  -- the error of Serve, where it has one and the context is not cancelled
  pub serve_fails : Bool

pub data AppError : Type 0 where
  invalid : ConfigError → AppError
  bad_redis : AppError
  refused : CompileError → AppError
  -- newControlPlane without Redis
  control_without_redis : AppError

-- What run holds that its deferred calls close.
pub data Resource : Type 0 where
  telemetry app listener : Resource

pub data RunError : Type 0 where
  not_loaded no_telemetry not_listening no_certificate not_serving : RunError
  not_valid : ConfigError → RunError
  not_configured : AppError → RunError

-- gatewayApp; `control` says whether it has a control plane
pub record App (B : Type 0) : Type 0 where
  pub manager : Manager B
  pub redis : Bool
  pub control : Bool

abbrev pub new_manager : {B : Type 0} → ApplicationConfig → Manager B
new_manager c = record {
  current = none;
  redis_version = pos 0;
  environment = c.environment;
  allow_no_routes = c.control_only;
  rejected = 0;
  activated = 0;
  retired = [];
  workers = [];
}

-- configureTelemetry: `none` is an error, and else the service whose traces are exported, if any
unfoldable pub configure_telemetry : (Text → Bool) → TelemetryConfig → Option (Option Text)
configure_telemetry exports t =
    if is_empty t.otlp_endpoint
    then some none
    else if not (exports t.otlp_endpoint)
    then none
    else some (some (if is_empty t.service_name then codes "vial-gateway" else t.service_name))

-- What comes while a gateway runs: SIGHUP, with what config.Load gives; a load of the goroutine that
-- Start begins; an activation over the API; another signal.
pub data Event : Type 0 where
  hangup : Option ApplicationConfig → Event
  watched : Calls → Store → Event
  activation : Calls → (actor action path_value if_match : Text) → (seen : Store) → Store → Event
  terminate : Event

module _ {B C : Type 0} (w : Process B C) where
  abbrev pub app_valid : Result ConfigError (Unit {0}) → Result AppError (Unit {0})
  app_valid (ok u) = ok u
  app_valid (err e) = err (invalid e)

  abbrev pub activated : Manager B × Result CompileError (Unit {0}) → Result AppError (Manager B)
  activated (m, ok u) = ok m
  activated (m, err e) = err (refused e)

  -- newApp
  unfoldable pub new_app : ApplicationConfig → Result AppError (App B)
  new_app c = do
    app_valid (validate_application w.host.std c)
    refuse_if (not (is_empty c.redis_url) && not (w.parses_redis c.redis_url)) bad_redis
    m ← activated (activate w.host (new_manager c) c.gateway)
    refuse_if (c.admin.enabled && is_empty c.redis_url) control_without_redis
    ok (record { manager = m; redis = not (is_empty c.redis_url); control = c.admin.enabled })

  -- Close: the snapshot whose context is cancelled
  unfoldable pub close : App B → Manager B
  close a = record a.manager { retired = retire w.host a.manager.current a.manager.retired }

  abbrev pub at_start : ApplicationConfig → App B → Result (RunError × List Resource) (Running B C)
  at_start c a = elim (certificate_of w.host w.load_certificate c.tls) [
    | err e ↦ err (no_certificate, listener ∷ app ∷ telemetry ∷ [])
    | ok certificate ↦ ok (record { manager = a.manager; certificate = certificate })
  ]

  -- run up to Start: what runs, or the error with what the deferred calls close, in their order
  unfoldable pub start_up :
      Option ApplicationConfig → Result (RunError × List Resource) (Running B C)
  start_up none = err (not_loaded, [])
  start_up (some c) = elim (validate_application w.host.std c) [
    | err e ↦ err (not_valid e, [])
    | ok u ↦ elim (configure_telemetry w.exports c.gateway.telemetry) [
      | none ↦ err (no_telemetry, [])
      | some service ↦ elim (new_app c) [
        | err e ↦ err (not_configured e, telemetry ∷ [])
        | ok a ↦ if not w.listens then err (not_listening, app ∷ telemetry ∷ []) else at_start c a
      ]
    ]
  ]

  abbrev pub with_manager : Running B C → Manager B → Running B C
  with_manager s m = record s { manager = m }

  -- The loop over signals, between what the other goroutines do: what runs after them, and whether the
  -- context is cancelled.
  unfoldable pub handle_signals : List Event → Running B C → Running B C × Bool
  handle_signals [] s = (s, false)
  handle_signals (terminate ∷ rest) s = (s, true)
  handle_signals (hangup none ∷ rest) s = handle_signals rest s
  handle_signals (hangup (some c) ∷ rest) s =
      handle_signals rest (reload_gateway w.host w.load_certificate c s).0
  handle_signals (watched c store ∷ rest) s =
      handle_signals rest (with_manager s (load w.host w.configs c store s.manager))
  handle_signals (activation c actor action path_value if_match seen store ∷ rest) s =
      handle_signals rest (
        with_manager s
          (activate_config w.host w.configs c actor action path_value if_match seen store
            s.manager).1)

  -- run, with what comes while it serves: what ran last, and the error with what was closed
  unfoldable pub run :
      Option ApplicationConfig → List Event → Option (Running B C) × Option RunError × List Resource
  run loaded events = elim (start_up loaded) [
    | err (e, closed) ↦ (none, some e, closed)
    | ok s ↦ (
      some (handle_signals events s).0,
      if not (handle_signals events s).1 && w.serve_fails then some not_serving else none,
      listener ∷ app ∷ telemetry ∷ [],
    )
  ]
