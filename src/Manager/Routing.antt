-- ===== src/Manager/Routing.antt =====
-- The patterns of a snapshot and its routes: compile and ServeHTTP of the manager, cmd/gateway/app.go.
use vial_gateway.Prelude.{ℕ, suc, ◌≡◌, true, false, List, [], ◌∷◌, some, ok, get_elem?, ◌⊎◌}
use vial_gateway.Text.{Text, elem}
use vial_gateway.Std.{IpNet}
use vial_gateway.Config.Types.{RouteConfig, GatewayConfig}
use vial_gateway.Trust.{parse_trusted_proxies}
use vial_gateway.Route.{CompiledRoute, compile_route, route_patterns}
use vial_gateway.Manager.{Host, Snapshot, Manager, compile_routes, register, proxies_of}
use vial_gateway.Pool.{Pool}
use vial_gateway.Header.{Header}
use vial_gateway.Answer.{cors}
use vial_gateway.Manager.Dispatch.{
  Routed, Found, found, redirect, missing, redirected, preflight, root, unmatched, routed,
  route_for,
}

module _ {B : Type 0} (host : Host B) where
  -- The compiled routes with other pools, such as health checks and picks leave.
  abbrev pub with_pools : (ℕ → Pool B) → List (CompiledRoute B) → List (CompiledRoute B)
  with_pools pools [] = []
  with_pools pools (c ∷ cs) = record c { pool = pools 0 } ∷ with_pools (λ i. pools (suc i)) cs

  -- Where a pattern stands: in exactly one of the routes, the handler compiled from it.
  abbrev pub OnlyAt :
      GatewayConfig → List IpNet → Text → List RouteConfig → List (CompiledRoute B) → Type 0
  OnlyAt g trusted p routes compiled =
      (i : ℕ) × (r : RouteConfig) × (c : CompiledRoute B) × (get_elem? routes i ≡ some r)
      × (get_elem? compiled i ≡ some c)
      × (compile_route host.std host.new_breaker r g trusted ≡ some c)
      × (elem p (route_patterns host.std r) ≡ true)
      × ((pools : ℕ → Pool B)
          → route_for host p routes (with_pools pools compiled)
            ≡ some (record c { pool = pools i }))
      × ((j : ℕ) (r' : RouteConfig)
          → get_elem? routes j ≡ some r'
          → elem p (route_patterns host.std r') ≡ true
          → j ≡ i)

  -- The steps of the loop over the routes, where it succeeds.
  abbrev Compiled :
      GatewayConfig
      → List IpNet
      → RouteConfig
      → List RouteConfig
      → List Text
      → List (CompiledRoute B) × List Text
      → Type 0
  Compiled g trusted r routes taken built =
      (c : CompiledRoute B) × (taken' : List Text) × (rest : List (CompiledRoute B) × List Text)
      × (compile_route host.std host.new_breaker r g trusted ≡ some c)
      × (register host taken (route_patterns host.std r) ≡ ok taken')
      × (compile_routes host g trusted routes taken' ≡ ok rest)
      × (built ≡ (c ∷ rest.0, rest.1))

  -- What the mux of the routes answers, with a header of the writer.
  abbrev pub Inner :
      {Q : Type 0}
      → (List Text → Q → Found)
      → Q
      → GatewayConfig
      → Snapshot B
      → (ℕ → Pool B)
      → Header
      → Routed B
      → Type 0
  Inner mux q g s pools h r =
      ((mux s.patterns q ≡ missing) × (r ≡ unmatched))
      ⊎ ((to : Text) × (mux s.patterns q ≡ redirect to) × (r ≡ redirected to))
      ⊎ ((p : Text) × (mux s.patterns q ≡ found p)
          × (trusted : List IpNet) × (proxies_of host
                (parse_trusted_proxies host.std g.trusted_proxies)
              ≡ ok trusted)
          × (only : OnlyAt g trusted p g.routes s.routes) × (r
              ≡ routed h (record only.2 { pool = pools only.0 })))

  -- What the mux around corsHandler answers.
  abbrev pub Outer :
      {Q : Type 0}
      → (List Text → Q → Found)
      → Text
      → Text
      → Q
      → GatewayConfig
      → Snapshot B
      → (ℕ → Pool B)
      → List Text
      → Routed B
      → Type 0
  Outer mux origin method q g s pools [] r = Inner mux q g s pools [] r
  Outer mux origin method q g s pools (o ∷ os) r =
      let answered = cors (o ∷ os) origin method [] in
      ((mux (root host) q ≡ missing) × (r ≡ unmatched))
      ⊎ ((to : Text) × (mux (root host) q ≡ redirect to) × (r ≡ redirected to))
      ⊎ ((answered.1 ≡ true) × (r ≡ preflight answered.0))
      ⊎ ((answered.1 ≡ false) × Inner mux q g s pools answered.0 r)
