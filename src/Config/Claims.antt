-- ===== src/Config/Claims.antt =====
-- The keys by which the validation of cmd/gateway/config.go tells routes apart: each route claims
-- one for every method and host, and no key is claimed twice.
use vial_gateway.Prelude.{
  ◌≡◌, refl, ◌≢◌, Bool, true, false, not, List, [], ◌∷◌, ◌++◌, map, Result, ok, >>-eq-ok, >>=-eq-ok,
  ok-injective, refuse_if-eq-ok, or-false, arith, All, All-append, or_default, ap, subst,
}
use vial_gateway.Text.{Text, is_empty, to_upper, elem}
use vial_gateway.Text.Equality.{text_eq_iff}
use vial_gateway.Dict.{lookup, insert, or_empty, lookup-insert}
use vial_gateway.Std.{Std}
use vial_gateway.Config.Types.{RouteConfig, GatewayConfig}
use vial_gateway.Config.Validate.{ConfigError, star}
use vial_gateway.Config.Routes.{
  Seen, route_key, claim_hosts, claim_methods, check_shape, check_policies, check_route,
}

-- No entry comes twice.
abbrev pub Distinct : List Text → Type 0
Distinct [] = Unit {0}
Distinct (t ∷ ts) = All (λ u. u ≢ t) ts × Distinct ts

abbrev pub held : List (Text × Text) → Text → Bool
held seen k = not (is_empty (or_empty (lookup k seen)))

-- `seen` grows to `seen'` by the keys `ks`, which were free before.
pub record Claims (seen seen' : List (Text × Text)) (ks : List Text) : Type 0 where
  pub free : All (λ k. held seen k ≡ false) ks
  pub distinct : Distinct ks
  pub kept : (k : Text) → held seen k ≡ true → held seen' k ≡ true
  pub taken : All (λ k. held seen' k ≡ true) ks

All-free :
    (s t : List (Text × Text)) (ls : List Text)
    → ((k : Text) → held s k ≡ true → held t k ≡ true)
    → All (λ k. held t k ≡ false) ls
    → All (λ k. held s k ≡ false) ls
All-free s t [] kept h = tt
All-free s t (l ∷ ls) kept (p, h) = (ground (arith, kept l), All-free s t ls kept h)

All-kept :
    (t u : List (Text × Text)) (ks : List Text)
    → ((k : Text) → held t k ≡ true → held u k ≡ true)
    → All (λ k. held t k ≡ true) ks
    → All (λ k. held u k ≡ true) ks
All-kept t u [] kept h = tt
All-kept t u (k ∷ ks) kept (p, h) = (kept k p, All-kept t u ks kept h)

apart :
    (t : List (Text × Text)) (k : Text) (ls : List Text)
    → held t k ≡ true
    → All (λ l. held t l ≡ false) ls
    → All (λ l. l ≢ k) ls
apart t k [] h free = tt
apart t k (l ∷ ls) h (p, free) = (λ e. cc (h, p, ap (held t) e), apart t k ls h free)

Distinct-append :
    (t : List (Text × Text)) (ks ls : List Text)
    → All (λ k. held t k ≡ true) ks
    → All (λ l. held t l ≡ false) ls
    → Distinct ks
    → Distinct ls
    → Distinct (ks ++ ls)
Distinct-append t [] ls taken free dk dl = dl
Distinct-append t (k ∷ ks) ls (h, taken) free (out, dk) dl = (
  All-append (λ l. l ≢ k) ks ls out (apart t k ls h free),
  Distinct-append t ks ls taken free dk dl,
)

pub Claims-none : (s : List (Text × Text)) → Claims s s []
Claims-none s = record { free = tt; distinct = tt; kept = λ k h. h; taken = tt }

pub Claims-append :
    (s t u : List (Text × Text)) (ks ls : List Text)
    → Claims s t ks
    → Claims t u ls
    → Claims s u (ks ++ ls)
Claims-append s t u ks ls a b = record {
  free = All-append (λ k. held s k ≡ false) ks ls a.free (All-free s t ls a.kept b.free);
  distinct = Distinct-append t ks ls a.taken b.free a.distinct b.distinct;
  kept = λ k h. b.kept k (a.kept k h);
  taken = All-append (λ k. held u k ≡ true) ks ls (All-kept t u ks b.kept a.taken) b.taken;
}

Claims-insert :
    (s : List (Text × Text)) (key name : Text)
    → is_empty name ≡ false
    → held s key ≡ false
    → Claims s (insert key name s) (key ∷ [])
Claims-insert s key name named free = record {
  free = (free, tt);
  distinct = (tt, tt);
  kept = λ k h. ground (arith, lookup-insert key k name s);
  taken = (ground (arith, lookup-insert key key name s, text_eq_iff key key), tt);
}

Claims-nil :
    (s u : List (Text × Text))
    → ◌≡◌ {A = Result ConfigError (List (Text × Text))} (ok s) (ok u)
    → Claims s u []
Claims-nil s u e = let same : s ≡ u = cc in subst (λ t. Claims s t []) same (Claims-none s)

module _ (std : Std) where
  abbrev pub host_keys : RouteConfig → Text → List Text → List Text
  host_keys r method hosts = map (λ host. route_key std method host r.path_prefix) hosts

  -- The keys of a route.
  abbrev pub method_keys : RouteConfig → List Text → List Text
  method_keys r [] = []
  method_keys r (m ∷ ms) =
      host_keys r (to_upper std.unicode m) (or_default r.hosts (star ∷ [])) ++ method_keys r ms

  abbrev pub keys_of : RouteConfig → List Text
  keys_of r = method_keys r (or_default r.methods (star ∷ []))

  abbrev pub all_keys : List RouteConfig → List Text
  all_keys [] = []
  all_keys (r ∷ rs) = keys_of r ++ all_keys rs

  claim_hosts-Claims :
      (r : RouteConfig) (method : Text) (hosts : List Text) (s u : List (Text × Text))
      → is_empty r.name ≡ false
      → claim_hosts std r method hosts s ≡ ok u
      → Claims s u (host_keys r method hosts)
  unfolding claim_hosts
  claim_hosts-Claims r method [] s u named h = Claims-nil s u h
  claim_hosts-Claims r method (host ∷ hosts) s u named h =
      let key = route_key std method host r.path_prefix in
      let (free, later) = >>-eq-ok _ _ h in
      Claims-append s (insert key r.name s) u (key ∷ []) (host_keys r method hosts)
        (Claims-insert s key r.name named (refuse_if-eq-ok _ _ free))
        (claim_hosts-Claims r method hosts (insert key r.name s) u named later)

  claim_methods-Claims :
      (r : RouteConfig) (methods : List Text) (s u : List (Text × Text))
      → is_empty r.name ≡ false
      → claim_methods std r methods s ≡ ok u
      → Claims s u (method_keys r methods)
  unfolding claim_methods
  claim_methods-Claims r [] s u named h = Claims-nil s u h
  claim_methods-Claims r (m ∷ ms) s u named h =
      let (_, rest) = >>-eq-ok _ _ h in
      let (t, hosts, later) = >>=-eq-ok _ _ rest in
      Claims-append s t u _ _
        (claim_hosts-Claims r (to_upper std.unicode m) (or_default r.hosts (star ∷ [])) s t named
          hosts)
        (claim_methods-Claims r ms t u named later)

  -- What the acceptance of one route means.
  pub record Accepted (g : GatewayConfig) (r : RouteConfig) (seen u : Seen) : Type 0 where
    pub named : is_empty r.name ≡ false
    pub fresh : elem r.name seen.names ≡ false
    pub shape : check_shape std r ≡ ok tt
    pub policies : check_policies g r ≡ ok tt
    pub claims : Claims seen.routes u.routes (keys_of r)
    pub names : u.names ≡ r.name ∷ seen.names

  pub check_route-Accepted :
      (g : GatewayConfig) (r : RouteConfig) (seen u : Seen)
      → check_route std g r seen ≡ ok u
      → Accepted g r seen u
  unfolding check_route
  check_route-Accepted g r seen u h =
      let (name_ok, h₁) = >>-eq-ok _ _ h in
      let (named, fresh) = or-false _ _ (refuse_if-eq-ok _ _ name_ok) in
      let (shape, h₂) = >>-eq-ok (check_shape std r) _ h₁ in
      let (policies, h₃) = >>-eq-ok (check_policies g r) _ h₂ in
      let (routes, claimed, last) =
        >>=-eq-ok (claim_methods std r (or_default r.methods (star ∷ [])) seen.routes)
          (λ t. ok (record { names = r.name ∷ seen.names; routes = t })) h₃ in
      let claims = claim_methods-Claims r _ seen.routes routes named claimed in
      subst (Accepted g r seen) (ok-injective last) (record {
        named = named;
        fresh = fresh;
        shape = shape;
        policies = policies;
        claims = claims;
        names = refl;
      })
