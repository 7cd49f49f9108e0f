-- ===== src/Config/Accepted.antt =====
-- What every route and policy of an accepted configuration passed: the parts of a successful run of
-- GatewayConfig.Validate in cmd/gateway/config.go.
use vial_gateway.Prelude.{
  ◌≡◌, refl, ◌≢◌, Bool, false, not, ◌&&◌, List, [], ◌∷◌, map, Result, ok, err, >>-eq-ok, >>=-eq-ok,
  ok-injective, refuse_if, refuse_if-eq-ok, or-false, All, each, each-All, sym, subst,
}
use vial_gateway.Prelude.Int.{pos, eq_ℤ, not_pos}
use vial_gateway.Text.{Text, text_eq, elem}
use vial_gateway.Text.Equality.{text_eq_iff}
use vial_gateway.Std.{Std}
use vial_gateway.Config.Types.{RouteConfig, GatewayConfig}
use vial_gateway.Config.Validate.{
  ConfigError, checked, validate_auth_policy, validate_dynamic_dns, check_cors, check_proxy,
  check_rate_policy, check_cache_policy, is_nil,
}
use vial_gateway.Config.Routes.{
  Seen, check_shape, check_policies, check_route, check_routes, nothing_seen, validate_gateway,
}
use vial_gateway.Config.Claims.{
  Distinct, Claims, Claims-none, Claims-append, keys_of, all_keys, check_route-Accepted,
}

fresh-apart :
    (k : Text) (rs : List RouteConfig)
    → All (λ r. text_eq k r.name ≡ false) rs
    → All (λ u. u ≢ k) (map (λ r. r.name) rs)
fresh-apart k [] h = tt
fresh-apart k (r ∷ rs) (p, h) = (λ e. cc (p, (text_eq_iff k r.name).1 (sym e)), fresh-apart k rs h)

module _ (std : Std) (g : GatewayConfig) where
  -- What a list of accepted routes has, from what was seen before to what is seen after.
  pub record Routes (rs : List RouteConfig) (seen u : Seen) : Type 0 where
    pub fresh : All (λ r. elem r.name seen.names ≡ false) rs
    pub names : Distinct (map (λ r. r.name) rs)
    pub keys : Claims seen.routes u.routes (all_keys std rs)
    pub shapes : All (λ r. check_shape std r ≡ ok tt) rs
    pub policies : All (λ r. check_policies g r ≡ ok tt) rs

  fresh-names :
      (k : Text) (names : List Text) (rs : List RouteConfig)
      → All (λ r. elem r.name (k ∷ names) ≡ false) rs
      → All (λ r. text_eq k r.name ≡ false) rs × All (λ r. elem r.name names ≡ false) rs
  fresh-names k names [] h = (tt, tt)
  fresh-names k names (r ∷ rs) (p, h) =
      let (apart, old) = or-false (text_eq k r.name) (elem r.name names) p in
      let (rest, olds) = fresh-names k names rs h in ((apart, rest), (old, olds))

  check_routes-Routes :
      (rs : List RouteConfig) (seen u : Seen) → check_routes std g rs seen ≡ ok u → Routes rs seen u
  unfolding check_routes
  check_routes-Routes [] seen u h = subst (Routes [] seen) (ok-injective h) (record {
    fresh = tt;
    names = tt;
    keys = Claims-none seen.routes;
    shapes = tt;
    policies = tt;
  })
  check_routes-Routes (r ∷ rs) seen u h =
      let (mid, first, later) =
        >>=-eq-ok (check_route std g r seen) (λ s. check_routes std g rs s) h in
      let a = check_route-Accepted std g r seen mid first in
      let rest = check_routes-Routes rs mid u later in
      let (apart, olds) =
        fresh-names r.name seen.names rs
          (subst (λ names. All (λ q. elem q.name names ≡ false) rs) a.names rest.fresh) in
      record {
        fresh = (a.fresh, olds);
        names = (fresh-apart r.name rs apart, rest.names);
        keys = Claims-append _ _ _ (keys_of std r) (all_keys std rs) a.claims rest.keys;
        shapes = (a.shape, rest.shapes);
        policies = (a.policies, rest.policies);
      }

  -- The checks that an accepted configuration has passed.
  pub record Passed (environment : Text) (allow : Bool) : Type 0 where
    pub schema : not (eq_ℤ g.schema_version (pos 1)) ≡ false
    pub version : not_pos g.version ≡ false
    pub some_route : (is_nil g.routes && not allow) ≡ false
    pub cors : All (λ origin. check_cors environment origin ≡ ok tt) g.cors_allowed_origins
    pub proxies : All (λ trusted. check_proxy std trusted ≡ ok tt) g.trusted_proxies
    pub dns : validate_dynamic_dns std environment g.dynamic_dns ≡ ok tt
    pub auths : All (λ e. validate_auth_policy std e.0 e.1 ≡ ok tt) g.auth_policies
    pub rates : All (λ e. check_rate_policy e ≡ ok tt) g.rate_policies
    pub caches : All (λ e. check_cache_policy e ≡ ok tt) g.cache_policies
    pub last_seen : Seen
    pub routes : Routes g.routes nothing_seen last_seen

  checked-ok : (m : Result ConfigError Seen) → checked m ≡ ok tt → (u : Seen) × (m ≡ ok u)
  checked-ok (ok u) h = (u, refl)
  checked-ok (err e) h = cc

  pub validate_gateway-Passed :
      (environment : Text) (allow : Bool)
      → validate_gateway std environment allow g ≡ ok tt
      → Passed environment allow
  unfolding validate_gateway
  validate_gateway-Passed environment allow h =
      let (schema, h₁) = >>-eq-ok (refuse_if _ _) _ h in
      let (version, h₂) = >>-eq-ok (refuse_if _ _) _ h₁ in
      let (some_route, h₃) = >>-eq-ok (refuse_if _ _) _ h₂ in
      let (_, h₄) = >>-eq-ok (refuse_if _ _) _ h₃ in
      let (cors, h₅) = >>-eq-ok (each (check_cors environment) g.cors_allowed_origins) _ h₄ in
      let (proxies, h₆) = >>-eq-ok (each (check_proxy std) g.trusted_proxies) _ h₅ in
      let (dns, h₇) = >>-eq-ok (validate_dynamic_dns std environment g.dynamic_dns) _ h₆ in
      let (auths, h₈) =
        >>-eq-ok (each (λ e. validate_auth_policy std e.0 e.1) g.auth_policies) _ h₇ in
      let (rates, h₉) = >>-eq-ok (each check_rate_policy g.rate_policies) _ h₈ in
      let (caches, last) = >>-eq-ok (each check_cache_policy g.cache_policies) _ h₉ in
      let (u, found) = checked-ok (check_routes std g g.routes nothing_seen) last in
      record {
        schema = refuse_if-eq-ok _ _ schema;
        version = refuse_if-eq-ok _ _ version;
        some_route = refuse_if-eq-ok _ _ some_route;
        cors = each-All _ _ cors;
        proxies = each-All _ _ proxies;
        dns = dns;
        auths = each-All _ _ auths;
        rates = each-All _ _ rates;
        caches = each-All _ _ caches;
        last_seen = u;
        routes = check_routes-Routes g.routes nothing_seen u found;
      }
