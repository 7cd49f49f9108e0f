-- ===== src/Console/Counts.antt =====
-- What status of cmd/gateway/admin_ui.go counts, whatever the health of the endpoints.
use vial_gateway.Prelude.{
  ℕ, map, All, subst, if◌then◌else◌, suc, ◌≤◌, ◌≡◌, refl, Bool, false, List, [], ◌∷◌, none, some,
  length, all, arith, Option-cases, inl, inr, ◌⊎◌, ap, sym, ◌∙◌, ok, >>=-eq-ok, >>-eq-ok,
  ok-injective,
}
use vial_gateway.Text.{Text}
use vial_gateway.Std.{IpNet}
use vial_gateway.Config.Types.{RouteConfig, GatewayConfig}
use vial_gateway.Pool.{Endpoint}
use vial_gateway.Route.{CompiledRoute, compile_route, route_patterns}
use vial_gateway.Trust.{parse_trusted_proxies}
use vial_gateway.Config.Routes.{validate_gateway}
use vial_gateway.Manager.{
  Host, Snapshot, Manager, ready, compile, compile_routes, register, or_panic, valid_or, proxies_of,
}
use vial_gateway.Console.Status.{EndpointStatus, shown_endpoint, Status, nothing, status_of, status}
use vial_gateway.Console.Tally.{
  shown_routes, sum_healthy, sum_upstreams, tally_routes-Adds, shows_up, shown_routes-ready,
  sum_healthy-le, count_up,
}

abbrev pub count_flags : List EndpointStatus → ℕ
count_flags [] = 0
count_flags (e ∷ es) = if e.healthy then suc (count_flags es) else count_flags es

module _ {B : Type 0} (host : Host B) (breaker_state : B → Text) where
  -- The counts of a status, and what it says of readiness.
  pub record IsCounted (m : Manager B) (s : Snapshot B) (body : Status) : Type 0 where
    pub version : body.active_version ≡ s.config.version
    pub routes : body.route_count ≡ length s.config.routes
    pub healthy : body.healthy_upstreams ≡ sum_healthy host.std breaker_state body.routes
    pub total : body.total_upstreams ≡ sum_upstreams host.std breaker_state body.routes
    -- each route shows the endpoints of its compiled route, and counts those whose flag is set
    pub endpoints :
        map (λ r. r.upstreams) body.routes
        ≡ map (λ c. map (shown_endpoint host.std breaker_state) c.pool.endpoints) s.routes
    pub flags : All (λ r. r.healthy ≡ count_flags r.upstreams) body.routes
    pub within : body.healthy_upstreams ≤ body.total_upstreams
    pub readiness : ready host m ≡ all (shows_up host.std breaker_state) body.routes

  compile_routes-length :
      (g : GatewayConfig) (trusted : List IpNet) (routes : List RouteConfig) (taken : List Text)
      (built : List (CompiledRoute B) × List Text)
      → compile_routes host g trusted routes taken ≡ ok built
      → length built.0 ≡ length routes
  unfolding compile_routes
  compile_routes-length g trusted [] taken built h = ap (λ b. length b.0) (sym (ok-injective h))
  compile_routes-length g trusted (r ∷ routes) taken built h =
      let (c, _, h₁) =
        >>=-eq-ok (or_panic host (compile_route host.std host.new_breaker r g trusted)) _ h in
      let (taken', _, h₂) = >>=-eq-ok (register host taken (route_patterns host.std r)) _ h₁ in
      let (rest, later, h₃) = >>=-eq-ok (compile_routes host g trusted routes taken') _ h₂ in
      ap (λ b. length b.0) (sym (ok-injective h₃))
      ∙ ap (λ n. suc n) (compile_routes-length g trusted routes taken' rest later)

  pub compile-length :
      (environment : Text) (allow : Bool) (g : GatewayConfig) (s : Snapshot B)
      → compile host environment allow g ≡ ok s
      → length s.routes ≡ length g.routes
  unfolding compile
  compile-length environment allow g s h =
      let (_, h₁) = >>-eq-ok (valid_or host (validate_gateway host.std environment allow g)) _ h in
      let (trusted, _, h₂) =
        >>=-eq-ok (proxies_of host (parse_trusted_proxies host.std g.trusted_proxies)) _ h₁ in
      let (built, made, last) = >>=-eq-ok (compile_routes host g trusted g.routes []) _ h₂ in
      ap (λ t. length t.routes) (sym (ok-injective last))
      ∙ compile_routes-length g trusted g.routes [] built made

  length-shown :
      (routes : List RouteConfig) (compiled : List (CompiledRoute B))
      → length (shown_routes host.std breaker_state routes compiled) ≡ length routes
  length-shown [] compiled = refl
  length-shown (r ∷ routes) [] = ap (λ n. suc n) (length-shown routes [])
  length-shown (r ∷ routes) (c ∷ compiled) = ap (λ n. suc n) (length-shown routes compiled)

  count_up-flags :
      (es : List (Endpoint B))
      → count_up host.std breaker_state es
        ≡ count_flags (map (shown_endpoint host.std breaker_state) es)
  count_up-flags [] = refl
  count_up-flags (e ∷ es) = ground (arith, count_up-flags es)

  shown-flags :
      (routes : List RouteConfig) (compiled : List (CompiledRoute B))
      → All
          (λ r. r.healthy ≡ count_flags r.upstreams)
          (shown_routes host.std breaker_state routes compiled)
  shown-flags [] compiled = tt
  shown-flags (r ∷ routes) [] = (refl, shown-flags routes [])
  shown-flags (r ∷ routes) (c ∷ compiled) =
      (count_up-flags c.pool.endpoints, shown-flags routes compiled)

  shown-endpoints :
      (routes : List RouteConfig) (compiled : List (CompiledRoute B))
      → length compiled ≡ length routes
      → map (λ r. r.upstreams) (shown_routes host.std breaker_state routes compiled)
        ≡ map (λ c. map (shown_endpoint host.std breaker_state) c.pool.endpoints) compiled
  shown-endpoints [] [] h = refl
  shown-endpoints [] (c ∷ compiled) h = absurd (omega arith)
  shown-endpoints (r ∷ routes) [] h = absurd (omega arith)
  shown-endpoints (r ∷ routes) (c ∷ compiled) h =
      ap (λ rest. map (shown_endpoint host.std breaker_state) c.pool.endpoints ∷ rest)
        (shown-endpoints routes compiled (omega arith))

  -- Where the snapshot that serves has as many compiled routes as its configuration has routes, whatever
  -- the health checks found, the status shows its version and as many routes; each route shows the
  -- endpoints of its compiled route and counts as healthy those whose flag is set, the totals are the
  -- sums over the routes, and the gateway is ready exactly if every route that is shown has a healthy
  -- upstream. Without a snapshot there is no status, and the gateway is not ready.
  pub status_cases :
      (bearer : Text) (m : Manager B)
      → ((s : Snapshot B) → m.current ≡ some s → length s.routes ≡ length s.config.routes)
      → let r = status host.std breaker_state bearer m in
        ((r ≡ none) × (ready host m ≡ false))
        ⊎ ((s : Snapshot B) × (body : Status) × (m.current ≡ some s)
            × (r ≡ some body)
            × IsCounted m s body)
  unfolding status ready
  status_cases bearer m paired = elim (Option-cases m.current) [
    | inl away ↦ inl (rw (away, status) refl, rw (away, ready) refl)
    | inr (s, there) ↦
        let rs = shown_routes host.std breaker_state s.config.routes s.routes in
        let same = paired s there in
        let (routes, healthy, total) =
          tally_routes-Adds host.std breaker_state s.config.routes s.routes
            (nothing host.std breaker_state) in
        let le = sum_healthy-le host.std breaker_state s.config.routes s.routes in
        inr (
          s,
          status_of host.std breaker_state bearer s,
          there,
          rw (there, status) refl,
          record {
            version = refl;
            routes = ap length routes ∙ length-shown s.config.routes s.routes;
            healthy =
                (let summed = ap (sum_healthy host.std breaker_state) routes in
                  omega (arith, healthy, summed));
            total =
                (let summed = ap (sum_upstreams host.std breaker_state) routes in
                  omega (arith, total, summed));
            endpoints =
                ap (map (λ r. r.upstreams)) routes ∙ shown-endpoints s.config.routes s.routes same;
            flags =
                subst (All (λ r. r.healthy ≡ count_flags r.upstreams)) (sym routes)
                  (shown-flags s.config.routes s.routes);
            within = omega (arith, healthy, total, le);
            readiness =
                rw (there, ready)
                  (sym (shown_routes-ready host.std breaker_state s.config.routes s.routes same)
                    ∙ ap (all (shows_up host.std breaker_state)) (sym routes));
          },
        )
  ]
