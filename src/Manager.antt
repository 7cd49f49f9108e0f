-- ===== src/Manager.antt =====
-- The router manager: routerManager's compile, Activate, Validate, readiness and the poll of watch,
-- of cmd/gateway/app.go and control.go. A snapshot is swapped whole; its ServeMux is the list of
-- patterns registered on it, and `registers` says whether Handle takes one more without a panic.
pub mod Compile
pub mod Swap
pub mod Dispatch
pub mod Routing
use vial_gateway.Prelude.{
  ℕ, suc, ◌+◌, Bool, true, false, not, List, [], ◌∷◌, ◌++◌, Option, none, some, if◌then◌else◌,
  Result, ok, err, ◌>>=◌, ◌>>◌, all,
}
use vial_gateway.Prelude.Int.{ℤ, pos, eq_ℤ}
use vial_gateway.Text.{Text}
use vial_gateway.Url.{Url}
use vial_gateway.Std.{Std, IpNet}
use vial_gateway.Trust.{parse_trusted_proxies}
use vial_gateway.Pool.{Pool, has_healthy}
use vial_gateway.Config.Types.{RouteConfig, GatewayConfig, DynamicDnsConfig}
use vial_gateway.Config.Validate.{ConfigError}
use vial_gateway.Config.Routes.{validate_gateway}
use vial_gateway.Route.{CompiledRoute, compile_route, route_patterns}

pub data CompileError : Type 0 where
  invalid : ConfigError → CompileError
  bad_proxies : CompileError
  -- recovered: "route conflict: %v"
  panicked : CompileError

-- What package net/http, gobreaker and the process bring to the manager.
pub record Host (B : Type 0) : Type 0 where
  pub std : Std
  pub new_breaker : RouteConfig → Url → B
  pub registers : List Text → Text → Bool

pub record Snapshot (B : Type 0) : Type 0 where
  pub config : GatewayConfig
  pub routes : List (CompiledRoute B)
  pub patterns : List Text

pub record Manager (B : Type 0) : Type 0 where
  pub current : Option (Snapshot B)
  pub redis_version : ℤ
  pub environment : Text
  pub allow_no_routes : Bool
  -- vial_gateway_reloads_total, by result
  pub rejected : ℕ
  pub activated : ℕ
  -- the snapshots whose context was cancelled, and the Dynamic DNS workers started
  pub retired : List (Snapshot B)
  pub workers : List DynamicDnsConfig

module _ {B : Type 0} (host : Host B) where
  -- snapshot.mux.Handle for each pattern
  unfoldable pub register : List Text → List Text → Result CompileError (List Text)
  register taken [] = ok taken
  register taken (p ∷ ps) =
      let rest = register (p ∷ taken) ps in if host.registers taken p then rest else err panicked

  abbrev pub or_panic {ℓ} : {A : Type ℓ} → Option A → Result CompileError A
  or_panic none = err panicked
  or_panic (some a) = ok a

  -- The loop over configuration.Routes.
  unfoldable pub compile_routes :
      GatewayConfig
      → List IpNet
      → List RouteConfig
      → List Text
      → Result CompileError (List (CompiledRoute B) × List Text)
  compile_routes g trusted [] taken = ok ([], taken)
  compile_routes g trusted (route ∷ routes) taken = do
    compiled ← or_panic (compile_route host.std host.new_breaker route g trusted)
    taken' ← register taken (route_patterns host.std route)
    rest ← compile_routes g trusted routes taken'
    ok (compiled ∷ rest.0, rest.1)

  abbrev pub proxies_of : Option (List IpNet) → Result CompileError (List IpNet)
  proxies_of none = err bad_proxies
  proxies_of (some ns) = ok ns

  abbrev pub valid_or : Result ConfigError (Unit {0}) → Result CompileError (Unit {0})
  valid_or (ok a) = ok a
  valid_or (err e) = err (invalid e)

  unfoldable pub compile : Text → Bool → GatewayConfig → Result CompileError (Snapshot B)
  compile environment allow g = do
    valid_or (validate_gateway host.std environment allow g)
    trusted ← proxies_of (parse_trusted_proxies host.std g.trusted_proxies)
    built ← compile_routes g trusted g.routes []
    ok (record { config = g; routes = built.0; patterns = built.1 })

  abbrev pub with_worker : GatewayConfig → List DynamicDnsConfig → List DynamicDnsConfig
  with_worker g ws = if g.dynamic_dns.enabled then g.dynamic_dns ∷ ws else ws

  abbrev pub retire : Option (Snapshot B) → List (Snapshot B) → List (Snapshot B)
  retire none rs = rs
  retire (some s) rs = s ∷ rs

  abbrev pub install :
      Manager B
      → GatewayConfig
      → Result CompileError (Snapshot B)
      → Manager B × Result CompileError (Unit {0})
  install m g (err e) = (record m { rejected = m.rejected + 1 }, err e)
  install m g (ok s) = (
    record m {
      current = some s;
      retired = retire m.current m.retired;
      workers = with_worker g m.workers;
      activated = m.activated + 1;
    },
    ok tt,
  )

  -- Activate
  unfoldable pub activate : Manager B → GatewayConfig → Manager B × Result CompileError (Unit {0})
  activate m g = install m g (compile m.environment m.allow_no_routes g)

  abbrev pub compiled_or : Result CompileError (Snapshot B) → Result CompileError (Unit {0})
  compiled_or (ok s) = ok tt
  compiled_or (err e) = err e

  -- Validate: compile, and cancel the snapshot
  unfoldable pub validate : Manager B → GatewayConfig → Result CompileError (Unit {0})
  validate m g = compiled_or (compile m.environment m.allow_no_routes g)

  -- readiness: the name of the first pool with no healthy endpoint is in its error
  unfoldable pub ready : Manager B → Bool
  ready m = elim m.current [ none ↦ false | some s ↦ all (λ r. has_healthy r.pool) s.routes ]
