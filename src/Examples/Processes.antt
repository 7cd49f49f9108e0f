-- ===== src/Examples/Processes.antt =====
-- The process, its console and the health checks on a small configuration.
use vial_gateway.Prelude.{
  ℕ, ◌≡◌, refl, true, false, List, [], ◌∷◌, Option, none, some, ok, map, length, ap, suc, subst,
  ◌∙◌, ◌⊎◌, inl, arith, if◌then◌else◌,
}
use vial_gateway.Text.{Text, codes, text_eq, cut}
use vial_gateway.Dict.{lookup}
use vial_gateway.Config.Types.{ApplicationConfig, GatewayConfig}
use vial_gateway.Pool.{Pool, Endpoint, pick}
use vial_gateway.Pool.Health.{Probe, check_all, FoundUp, pick_of_checks}
use vial_gateway.Route.{CompiledRoute}
use vial_gateway.Manager.{Manager, Snapshot, compile, activate, ready}
use vial_gateway.Manager.Swap.{IsServing, activate-IsServing}
use vial_gateway.Manager.Dispatch.{Found, found, missing}
use vial_gateway.Manager.Routing.{with_pools}
use vial_gateway.Control.Watch.{tick, closed, watch, watch_converges}
use vial_gateway.Number.{parse_int, parse_nat, format_int}
use vial_gateway.Store.{config_key}
use vial_gateway.Prelude.Int.{pos}
use vial_gateway.Prelude.{◌++◌}
use vial_gateway.Application.{Running}
use vial_gateway.Command.{Process, Event, hangup, watched, terminate, RunError, run}
use vial_gateway.Command.Signals.{Loads, Brings, Runs, run_cases}
use vial_gateway.Session.{Visit}
use vial_gateway.Console.{dispatch, entries, css}
use vial_gateway.Console.Mediation.{FitsMethod, MayReach, dispatch_mediates}
use vial_gateway.Console.Status.{Status, status}
use vial_gateway.Console.Counts.{IsCounted, compile-length, status_cases}
use vial_gateway.Examples.Setup.{
  std, config, host, idle, calls, codec, store, fresh_store, pool, endpoint,
}
use vial_gateway.Examples.Serving.{idle-IsServing, snapshot, activated, activates}
use vial_gateway.Examples.Sessions.{admin, sessions, returning}
use vial_gateway.Examples.Systems.{application, secure_std}

-- The first endpoint is checked twice, the last time in vain.
abbrev checks : List (ℕ × (Text → Probe))
checks =
    (0, λ url. some (204, true)) ∷ (1, λ url. some (302, true)) ∷ (0, λ url. some (500, true)) ∷ []

abbrev pair : Pool (Unit {0})
pair = pool 7 (endpoint true ∷ endpoint false ∷ [])

pick_of_checks_example :
    let picked = (pick (check_all std (codes "/up") checks pair)).1 in
    ((i : ℕ) → picked ≡ some i → FoundUp std (codes "/up") checks pair i)
    × ((i : ℕ) → FoundUp std (codes "/up") checks pair i → (k : ℕ) × (picked ≡ some k))
pick_of_checks_example = pick_of_checks std (codes "/up") checks pair (omega arith)

abbrev process : Process (Unit {0}) ℕ
process = record {
  host = record host { std = secure_std };
  configs = codec;
  load_certificate = λ cert key. some 1;
  parses_redis = λ url. true;
  exports = λ url. true;
  listens = true;
  serve_fails = false;
}

abbrev signals : List Event
signals = hangup none ∷ watched calls store ∷ hangup (some application) ∷ terminate ∷ []

run_cases_example :
    let r = run process (some application) signals in
    ((r.0 ≡ none) × ((e : RunError) × (r.1 ≡ some e)))
    ⊎ ((s : Running (Unit {0}) ℕ) × (r.0 ≡ some s)
        × (b : ApplicationConfig) × (g : GatewayConfig) × ((some application ≡ some b)
            ⊎ Loads b signals)
        × ((g ≡ b.gateway) ⊎ Brings process g signals)
        × Runs process b g s)
run_cases_example = run_cases process (some application) signals

-- A mux that knows the assets only.
abbrev assets : List Text → Visit → Option Text
assets patterns v =
    if text_eq v.method (codes "GET") then some (codes "GET /admin/assets/app.css") else none

assets-FitsMethod : FitsMethod assets returning
unfolding text_eq cut
assets-FitsMethod patterns pattern h =
    let same : codes "GET /admin/assets/app.css" ≡ pattern = cc in inl (rw (← same) refl)

dispatch_mediates_example : MayReach std sessions admin calls store returning css none
unfolding dispatch entries lookup text_eq
dispatch_mediates_example =
    dispatch_mediates std sessions admin assets calls store returning css none assets-FitsMethod
      refl

abbrev serving : Manager (Unit {0})
serving = (activate host idle config).0

serving-IsServing : IsServing host serving
serving-IsServing = activate-IsServing host idle config idle-IsServing

-- A mux that finds the first pattern.
abbrev first_pattern : List Text → Unit {0} → Found
first_pattern [] q = missing
first_pattern (p ∷ ps) q = found p

-- The pools after a health check that found nothing well.
abbrev sick_pools : ℕ → Pool (Unit {0})
sick_pools i = pool 0 []

abbrev after_checks : Manager (Unit {0})
after_checks = record serving {
  current = some (record snapshot { routes = with_pools host sick_pools snapshot.routes });
}

-- The subscription ends, and a tick finds version 1.
watch_converges_example :
    let n =
      watch host codec calls fresh_store
        ((closed ∷ []) ++ tick calls store ∷ (tick calls store ∷ []))
        idle in
    (n.redis_version ≡ pos 1)
    × (s : Snapshot (Unit {0})) × (compile host idle.environment idle.allow_no_routes config ≡ ok s)
    × (n.current ≡ some s)
unfolding text_eq parse_int parse_nat config_key format_int
watch_converges_example =
    watch_converges host codec calls calls fresh_store store (closed ∷ []) (tick calls store ∷ [])
      idle (pos 1) (codes "1") (codes "one") config (λ e. cc) (λ bytes h. refl) (tt, tt) (tt, tt)
      refl refl refl refl refl refl activates.0
      ((λ t up named. let same : codes "1" ≡ t = cc in rw (← same) refl), tt)

-- The snapshot after a health check that found no endpoint well.
abbrev unwell : Endpoint (Unit {0}) → Endpoint (Unit {0})
unwell e = record e { healthy = false }

abbrev sick_pool : CompiledRoute (Unit {0}) → CompiledRoute (Unit {0})
sick_pool c = record c { pool = record c.pool { endpoints = map unwell c.pool.endpoints } }

abbrev sick : Manager (Unit {0})
sick = record serving {
  current = some (record snapshot { routes = map sick_pool snapshot.routes });
}

sick_pool-length : (cs : List (CompiledRoute (Unit {0}))) → length (map sick_pool cs) ≡ length cs
sick_pool-length [] = refl
sick_pool-length (c ∷ cs) = ap (λ n. suc n) (sick_pool-length cs)

sick_paired :
    (s : Snapshot (Unit {0})) → sick.current ≡ some s → length s.routes ≡ length s.config.routes
sick_paired s h =
    let same : record snapshot { routes = map sick_pool snapshot.routes } ≡ s = cc in
    subst (λ t. length t.routes ≡ length t.config.routes) same
      (sick_pool-length snapshot.routes
        ∙ compile-length host (λ u. codes "closed") serving.environment serving.allow_no_routes
            snapshot.config snapshot (serving-IsServing snapshot activated))

status_cases_example :
    let r = status std (λ u. codes "closed") [] sick in
    ((r ≡ none) × (ready host sick ≡ false))
    ⊎ ((s : Snapshot (Unit {0})) × (body : Status) × (sick.current ≡ some s)
        × (r ≡ some body)
        × IsCounted host (λ u. codes "closed") sick s body)
status_cases_example = status_cases host (λ u. codes "closed") [] sick sick_paired
