-- ===== src/Manager/Compile.antt =====
-- What a compiled snapshot is made of.
use vial_gateway.Prelude.{
  ℕ, Result, suc, ◌+◌, ◌≤◌, get_elem?, ◌⊎◌, sym, ◌∙◌, subst, ok-injective, ◌≡◌, refl, Bool, true,
  false, List, [], ◌∷◌, ◌++◌, Option, some, ok, err, arith, All, >>=-eq-err, Option-cases, inl, inr,
  Bool-cases, ap,
}
use mathlib.Core.Option
use vial_gateway.Text.{Text, codes, elem, text_eq}
use vial_gateway.Text.Equality.{text_eq_iff, text_eq_refl}
use vial_gateway.Std.{IpNet}
use vial_gateway.Pool.{Endpoint}
use vial_gateway.Config.Types.{RouteConfig, GatewayConfig}
use vial_gateway.Config.Validate.{check_proxy}
use vial_gateway.Trust.{host_net, parse_trusted_proxies}
use vial_gateway.Config.Routes.{validate_gateway}
use vial_gateway.Config.Accepted.{validate_gateway-Passed}
use vial_gateway.Config.Valid.{ParsesAs, validate_gateway-upstreams}
use vial_gateway.Route.{CompiledRoute, compile_route, endpoints_of, normalize_route, route_patterns}
use vial_gateway.Manager.{
  Host, CompileError, compile, compile_routes, register, or_panic, valid_or, proxies_of,
}

mapped {ℓ κ} :
    {A : Type ℓ} {B : Type κ} (f : A → B) (o : Option A) (a : A)
    → o ≡ some a
    → (b : B) × (Option.map f o ≡ some b)
mapped f o a e = (f a, rw e)

module _ {B : Type 0} (host : Host B) where
  -- With URLs that parse, the loop over the upstreams does not panic.
  endpoints-total :
      (r : RouteConfig) (raws : List Text)
      → All (ParsesAs host.std (r.name ++ codes " upstream")) raws
      → (es : List (Endpoint B)) × (endpoints_of host.std host.new_breaker r raws ≡ some es)
  unfolding endpoints_of
  endpoints-total r [] h = ([], refl)
  endpoints-total r (raw ∷ raws) ((u, parsed, _), h) =
      let (es, e) = endpoints-total r raws h in
      (
        record { url = u; healthy = true; breaker = host.new_breaker r u } ∷ es,
        rw (parsed, endpoints_of) (rw e),
      )

  -- The compilation of a route whose upstreams parse does not panic.
  pub compile_route-total :
      (r : RouteConfig) (g : GatewayConfig) (trusted : List IpNet)
      → All (ParsesAs host.std (r.name ++ codes " upstream")) r.upstreams
      → (c : CompiledRoute B) × (compile_route host.std host.new_breaker r g trusted ≡ some c)
  unfolding compile_route
  compile_route-total r g trusted h =
      let (es, e) = endpoints-total (normalize_route r) r.upstreams h in mapped _ _ es e

  proxies-total :
      (values : List Text)
      → All (λ t. check_proxy host.std t ≡ ok tt) values
      → (ns : List IpNet) × (parse_trusted_proxies host.std values ≡ some ns)
  unfolding parse_trusted_proxies check_proxy
  proxies-total [] h = ([], refl)
  proxies-total (v ∷ vs) (p, h) =
      let (ns, e) = proxies-total vs h in
      elim (Option-cases (host.std.nets.parse_ip v)) [
        | inr (ip, found) ↦ (host_net host.std ip ∷ ns, rw (found, parse_trusted_proxies) (rw e))
        | inl no_ip ↦ elim (Option-cases (host.std.nets.parse_cidr v)) [
          | inr (n, found) ↦ (n ∷ ns, rw (no_ip, parse_trusted_proxies) (rw (found, e)))
          | inl no_cidr ↦ absurd (ground arith)
        ]
      ]

  -- One of the patterns of the routes up to a place.
  abbrev pub Before : List RouteConfig → ℕ → Text → Type 0
  Before routes i p =
      (j : ℕ) × (r : RouteConfig) × (j ≤ i)
      × (get_elem? routes j ≡ some r)
      × (elem p (route_patterns host.std r) ≡ true)

  -- A pattern of a route that the mux refuses beside patterns of that route and the ones before it.
  abbrev pub Refused : List RouteConfig → Type 0
  Refused routes =
      (i : ℕ) × (r : RouteConfig) × (get_elem? routes i ≡ some r)
      × (p : Text) × (elem p (route_patterns host.std r) ≡ true)
      × (taken : List Text) × ((x : Text) → elem x taken ≡ true → Before routes i x)
      × (host.registers taken p ≡ false)

  -- The patterns of the route at a place, some of which are registered.
  register-cases :
      (routes : List RouteConfig) (i : ℕ) (r : RouteConfig) (taken ps : List Text)
      → get_elem? routes i ≡ some r
      → ((x : Text) → elem x ps ≡ true → elem x (route_patterns host.std r) ≡ true)
      → ((x : Text) → elem x taken ≡ true → Before routes i x)
      → Refused routes
        ⊎ ((taken' : List Text) × (register host taken ps ≡ ok taken')
            × ((x : Text) → elem x taken' ≡ true → Before routes i x))
  unfolding register
  register-cases routes i r taken [] at own before = inr (taken, refl, before)
  register-cases routes i r taken (p ∷ ps) at own before =
      let here : elem p (route_patterns host.std r) ≡ true = own p (rw (text_eq_refl p) refl) in
      elim (Bool-cases (host.registers taken p)) [
        | inr refused ↦ inl (i, r, at, p, here, taken, before, refused)
        | inl fits ↦
            rw (fits, register)
              (register-cases routes i r (p ∷ taken) ps at (λ x e. own x (ground arith))
                (λ x e. elim (Bool-cases (text_eq p x)) [
                  | inr other ↦ before x (ground arith)
                  | inl same ↦
                      let met : p ≡ x = (text_eq_iff p x).0 same in
                      (
                        i,
                        r,
                        omega arith,
                        at,
                        subst (λ z. elem z (route_patterns host.std r) ≡ true) met here,
                      )
                ]))
      ]

  later :
      (routes : List RouteConfig) (i : ℕ) (x : Text) → Before routes i x → Before routes (suc i) x
  later routes i x (j, r, le, at, holds) = (j, r, omega (arith, le), at, holds)

  not_both {ℓ} :
      {A : Type ℓ} (r : Result CompileError A) (e : CompileError) (a : A) → r ≡ err e → r ≡ ok a → ⊥
  not_both (ok b) e a h k = cc
  not_both (err d) e a h k = cc

  -- The steps of the loop over the routes, where it fails.
  compile_routes-fails :
      (g : GatewayConfig) (trusted : List IpNet) (r : RouteConfig) (rs : List RouteConfig)
      (taken : List Text) (e : CompileError)
      → All (ParsesAs host.std (r.name ++ codes " upstream")) r.upstreams
      → compile_routes host g trusted (r ∷ rs) taken ≡ err e
      → (register host taken (route_patterns host.std r) ≡ err e)
        ⊎ ((taken' : List Text) × (register host taken (route_patterns host.std r) ≡ ok taken')
            × (compile_routes host g trusted rs taken' ≡ err e))
  unfolding compile_routes
  compile_routes-fails g trusted r rs taken e p h =
      let (c, compiled) = compile_route-total r g trusted p in
      elim (>>=-eq-err (or_panic host (compile_route host.std host.new_breaker r g trusted)) _ h) [
        | inl panics ↦ cc (panics, ap (or_panic host) compiled)
        | inr (_, _, h₁) ↦
            elim (>>=-eq-err (register host taken (route_patterns host.std r)) _ h₁) [
              | inl refused ↦ inl refused
              | inr (taken', registered, h₂) ↦
                  elim (>>=-eq-err (compile_routes host g trusted rs taken') _ h₂) [
                    | inl failed ↦ inr (taken', registered, failed)
                    | inr (_, _, impossible) ↦ cc
                  ]
            ]
      ]

  compile_routes-Refused :
      (g : GatewayConfig) (trusted : List IpNet) (all_routes : List RouteConfig) (i : ℕ)
      (routes : List RouteConfig) (taken : List Text) (e : CompileError)
      → ((k : ℕ) → get_elem? all_routes (i + k) ≡ get_elem? routes k)
      → ((x : Text) → elem x taken ≡ true → Before all_routes i x)
      → All (λ r. All (ParsesAs host.std (r.name ++ codes " upstream")) r.upstreams) routes
      → compile_routes host g trusted routes taken ≡ err e
      → Refused all_routes
  unfolding compile_routes
  compile_routes-Refused g trusted all_routes i [] taken e suffix before parses h = cc
  compile_routes-Refused g trusted all_routes i (r ∷ rs) taken e suffix before (p, parses) h =
      let here : i ≡ i + 0 = omega arith in
      let at : get_elem? all_routes i ≡ some r = ap (get_elem? all_routes) here ∙ suffix 0 in
      elim (register-cases all_routes i r taken (route_patterns host.std r) at (λ x own. own)
        before) [
          | inl refused ↦ refused
          | inr (taken', registered, before') ↦
              elim (compile_routes-fails g trusted r rs taken e p h) [
                | inl refused ↦ absurd (
                    not_both (register host taken (route_patterns host.std r)) e taken' refused
                      registered)
                | inr (taken'', again, failed) ↦
                    let same : taken' ≡ taken'' = ok-injective (sym registered ∙ again) in
                    compile_routes-Refused g trusted all_routes (suc i) rs taken'' e
                      (λ k.
                        let next : suc i + k ≡ i + suc k = omega arith in
                        ap (get_elem? all_routes) next ∙ suffix (suc k))
                      (λ x own. later all_routes i x (before' x (ap (elem x) same ∙ own))) parses
                      failed
              ]
        ]

  -- An accepted configuration is compiled without a panic in the loop over the upstreams and without
  -- an error from the trusted proxies: if no snapshot comes of it, the mux refused a pattern of one of
  -- its routes, beside nothing but patterns of that route and of the routes before it.
  pub compile_of_accepted :
      (environment : Text) (allow : Bool) (g : GatewayConfig) (e : CompileError)
      → validate_gateway host.std environment allow g ≡ ok tt
      → compile host environment allow g ≡ err e
      → Refused g.routes
  unfolding compile
  compile_of_accepted environment allow g e accepted h =
      let parses = validate_gateway-upstreams host.std environment allow g accepted in
      let (ns, found) =
        proxies-total g.trusted_proxies
          (validate_gateway-Passed host.std g environment allow accepted).proxies in
      elim (>>=-eq-err (valid_or host (validate_gateway host.std environment allow g)) _ h) [
        | inl invalid ↦ cc (invalid, ap (valid_or host) accepted)
        | inr (_, _, h₁) ↦
            elim (>>=-eq-err (proxies_of host (parse_trusted_proxies host.std g.trusted_proxies)) _
              h₁) [
                | inl bad ↦ cc (bad, ap (proxies_of host) found)
                | inr (trusted, _, h₂) ↦
                    elim (>>=-eq-err (compile_routes host g trusted g.routes []) _ h₂) [
                      | inl failed ↦
                          compile_routes-Refused g trusted g.routes 0 g.routes [] e
                            (λ k.
                              let same : 0 + k ≡ k = omega arith in ap (get_elem? g.routes) same)
                            (λ x own. absurd (cc own)) parses failed
                      | inr (_, _, impossible) ↦ cc
                    ]
              ]
      ]
