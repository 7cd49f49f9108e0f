-- ===== src/Console/Tally.antt =====
-- The loops of status of cmd/gateway/admin_ui.go, against counts of what they show.
use vial_gateway.Prelude.{
  ℕ, suc, ◌+◌, ◌≤◌, ◌≡◌, refl, Bool, List, [], ◌∷◌, ◌++◌, map, length, all, any, ltb, if◌then◌else◌,
  arith, ap, sym, ◌∙◌, subst, append-nil, append_assoc,
}
use vial_gateway.Text.{Text}
use vial_gateway.Std.{Std}
use vial_gateway.Config.Types.{RouteConfig}
use vial_gateway.Pool.{Endpoint, has_healthy}
use vial_gateway.Route.{CompiledRoute}
use vial_gateway.Console.Status.{
  RouteStatus, Tally, shown_endpoint, tally_pool, fresh, with_route, tally_routes,
}

module _ {B : Type 0} (std : Std) (breaker_state : B → Text) where
  -- How many endpoints are healthy, counted one by one.
  abbrev pub count_up : List (Endpoint B) → ℕ
  count_up [] = 0
  count_up (e ∷ es) = (if e.healthy then 1 else 0) + count_up es

  -- What a route shows of its pool.
  abbrev shows : RouteConfig → List (Endpoint B) → RouteStatus
  shows route es = record (fresh std breaker_state route) {
    upstreams = map (shown_endpoint std breaker_state) es;
    healthy = count_up es;
  }

  abbrev pub shown_routes : List RouteConfig → List (CompiledRoute B) → List RouteStatus
  shown_routes [] compiled = []
  shown_routes (route ∷ routes) [] = fresh std breaker_state route ∷ shown_routes routes []
  shown_routes (route ∷ routes) (c ∷ compiled) =
      shows route c.pool.endpoints ∷ shown_routes routes compiled

  tally_pool-shows :
      (es : List (Endpoint B)) (state : RouteStatus) (healthy total : ℕ)
      → tally_pool std breaker_state es state healthy total ≡ (
        record state {
          upstreams = state.upstreams ++ map (shown_endpoint std breaker_state) es;
          healthy = state.healthy + count_up es;
        },
        healthy + count_up es,
        total + length es,
      )
  unfolding tally_pool
  tally_pool-shows [] state healthy total = rw (append-nil state.upstreams) (ground arith)
  tally_pool-shows (e ∷ es) state healthy total =
      let up : ℕ = if e.healthy then 1 else 0 in
      let rest =
        tally_pool-shows es
          (record state {
            upstreams = state.upstreams ++ (shown_endpoint std breaker_state e ∷ []);
            healthy = state.healthy + up;
          })
          (healthy + up) (total + 1) in
      let joined =
        append_assoc state.upstreams (shown_endpoint std breaker_state e ∷ [])
          (map (shown_endpoint std breaker_state) es) in
      ground arith

  abbrev pub sum_healthy : List RouteStatus → ℕ
  sum_healthy [] = 0
  sum_healthy (r ∷ rs) = r.healthy + sum_healthy rs

  abbrev pub sum_upstreams : List RouteStatus → ℕ
  sum_upstreams [] = 0
  sum_upstreams (r ∷ rs) = length r.upstreams + sum_upstreams rs

  length-map :
      (es : List (Endpoint B)) → length (map (shown_endpoint std breaker_state) es) ≡ length es
  length-map [] = refl
  length-map (e ∷ es) = ap (λ n. suc n) (length-map es)

  -- The tally after the routes that are left.
  abbrev pub Adds : Tally → List RouteStatus → Tally → Type 0
  Adds t rs u =
      (u.routes ≡ t.routes ++ rs)
      × (u.healthy ≡ t.healthy + sum_healthy rs)
      × (u.total ≡ t.total + sum_upstreams rs)

  next-Adds :
      (t u : Tally) (state : RouteStatus) (rs : List RouteStatus)
      → Adds
          (with_route std breaker_state t
            (state, t.healthy + state.healthy, t.total + length state.upstreams))
          rs
          u
      → Adds t (state ∷ rs) u
  next-Adds t u state rs (routes, healthy, total) =
      (routes ∙ append_assoc t.routes (state ∷ []) rs, omega (arith, healthy), omega (arith, total))

  pub tally_routes-Adds :
      (routes : List RouteConfig) (compiled : List (CompiledRoute B)) (t : Tally)
      → Adds t (shown_routes routes compiled) (tally_routes std breaker_state routes compiled t)
  unfolding tally_routes
  tally_routes-Adds [] compiled t = (sym (append-nil t.routes), omega arith, omega arith)
  tally_routes-Adds (route ∷ routes) [] t =
      next-Adds t _ (fresh std breaker_state route) (shown_routes routes []) (
        subst
          (λ (p : ℕ × ℕ).
            Adds (with_route std breaker_state t (fresh std breaker_state route, p.0, p.1))
              (shown_routes routes [])
              (tally_routes std breaker_state routes [] (
                with_route std breaker_state t
                  (fresh std breaker_state route, t.healthy, t.total))))
          (ground arith)
          (tally_routes-Adds routes []
            (with_route std breaker_state t (fresh std breaker_state route, t.healthy, t.total))))
  tally_routes-Adds (route ∷ routes) (c ∷ compiled) t =
      let es = c.pool.endpoints in
      let state = shows route es in
      let counted : tally_pool std breaker_state es (fresh std breaker_state route) t.healthy
            t.total
          ≡ (state, t.healthy + state.healthy, t.total + length state.upstreams) =
        tally_pool-shows es (fresh std breaker_state route) t.healthy t.total
        ∙ ground (arith, length-map es) in
      next-Adds t _ state (shown_routes routes compiled) (
        subst
          (λ p.
            Adds
              (with_route std breaker_state t
                (state, t.healthy + state.healthy, t.total + length state.upstreams))
              (shown_routes routes compiled)
              (tally_routes std breaker_state routes compiled (with_route std breaker_state t p)))
          (sym counted)
          (tally_routes-Adds routes compiled (
            with_route std breaker_state t
              (state, t.healthy + state.healthy, t.total + length state.upstreams))))

  -- Whether a route shows a healthy upstream.
  abbrev pub shows_up : RouteStatus → Bool
  shows_up r = ltb 0 r.healthy

  count_up-any : (es : List (Endpoint B)) → ltb 0 (count_up es) ≡ any (λ e. e.healthy) es
  count_up-any [] = refl
  count_up-any (e ∷ es) = ground (arith, count_up-any es)

  pub shown_routes-ready :
      (routes : List RouteConfig) (compiled : List (CompiledRoute B))
      → length compiled ≡ length routes
      → all shows_up (shown_routes routes compiled) ≡ all (λ r. has_healthy r.pool) compiled
  unfolding has_healthy
  shown_routes-ready [] [] h = refl
  shown_routes-ready [] (c ∷ compiled) h = absurd (omega arith)
  shown_routes-ready (route ∷ routes) [] h = absurd (omega arith)
  shown_routes-ready (route ∷ routes) (c ∷ compiled) h =
      rw (count_up-any c.pool.endpoints, shown_routes-ready routes compiled (omega arith)) refl

  count_up-le : (es : List (Endpoint B)) → count_up es ≤ length es
  count_up-le [] = omega arith
  count_up-le (e ∷ es) = ground (arith, count_up-le es)

  pub sum_healthy-le :
      (routes : List RouteConfig) (compiled : List (CompiledRoute B))
      → sum_healthy (shown_routes routes compiled) ≤ sum_upstreams (shown_routes routes compiled)
  sum_healthy-le [] compiled = omega arith
  sum_healthy-le (route ∷ routes) [] = omega (arith, sum_healthy-le routes [])
  sum_healthy-le (route ∷ routes) (c ∷ compiled) = omega (
    arith,
    sum_healthy-le routes compiled,
    count_up-le c.pool.endpoints,
    length-map c.pool.endpoints,
  )
