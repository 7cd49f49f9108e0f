-- ===== src/Serve/Principals.antt =====
-- What a request leaves of the cache: the entries of other principals.
use vial_gateway.Prelude.{
  ◌<◌, ◌≡◌, refl, ◌≢◌, Bool, true, ◌++◌, Option, none, some, Result, ok, err, arith, All,
  Option-cases, inl, inr, sym, ◌∙◌,
}
use vial_gateway.Text.{Text}
use vial_gateway.Config.Types.{CachePolicy}
use vial_gateway.Route.{Principal, CompiledRoute}
use vial_gateway.RateLimit.Request.{Link}
use vial_gateway.Store.{Store}
use vial_gateway.Cache.{Asked, CachedResponse, key_parts, key_text, key_of, cache_key, cache_prefix}
use vial_gateway.Cache.Keys.{IsPlain, key_of-Alike}
use vial_gateway.Cache.Entries.{store_cached-other}
use vial_gateway.Forward.{Response, ForwardError}
use vial_gateway.Serve.{admitted}
use vial_gateway.Serve.Exchange.{
  Request, Deps, Site, asked_of, stored, conclude, hit, respond, serve_http,
}
use vial_gateway.Serve.Isolation.{guards, Verdict-cases}

module _ {B W : Type 0} (deps : Deps W) where
  stored-other :
      (route : CompiledRoute B) (answered : Bool) (key : Option Text) (page : Option CachedResponse)
      (s : Store) (other : Text)
      → ((k : Text) → key ≡ some k → k ≢ other)
      → (stored deps route answered key page s).strings other ≡ s.strings other
  stored-other route answered key page s other apart = elim (Option-cases route.cache) [
    | inl uncached ↦ rw uncached refl
    | inr (policy, cached) ↦ rw cached (go policy route answered key page s other apart)
  ]
    where
      go :
          (policy : CachePolicy) (route : CompiledRoute B) (answered : Bool) (key : Option Text)
          (page : Option CachedResponse) (s : Store) (other : Text)
          → ((k : Text) → key ≡ some k → k ≢ other)
          → (stored deps (record route { cache = some policy }) answered key page s).strings other
            ≡ s.strings other
      go policy route answered none page s other apart = refl
      go policy route answered (some k) none s other apart = refl
      go policy route answered (some k) (some r) s other apart =
          store_cached-other deps.std deps.responses deps.whole policy answered k other r s
            (apart k refl)

  conclude-other :
      (route : CompiledRoute B) (answered : Bool) (key : Option Text) (method : Text)
      (result : Result ForwardError Response) (s : Store) (other : Text)
      → ((k : Text) → key ≡ some k → k ≢ other)
      → (conclude deps route answered key method result s).0.strings other ≡ s.strings other
  unfolding conclude
  conclude-other route answered key method (err e) s other apart = refl
  conclude-other route answered key method (ok r) s other apart =
      stored-other route answered key _ s other apart

  respond-other :
      (route : CompiledRoute B) (link : Link) (answered : Bool) (q : Request) (p : Principal)
      (s : Site B W) (other : Text)
      → ((k : Text) → cache_key deps.std route link (asked_of q) p.id ≡ some k → k ≢ other)
      → (respond deps route link answered q p s).0.store.strings other ≡ s.store.strings other
  unfolding respond
  respond-other route link answered q p s other apart =
      elim (Option-cases
        (hit deps link (cache_key deps.std route link (asked_of q) p.id) q s.store)) [
          | inl miss ↦
              rw (miss, respond) (conclude-other route answered _ q.method _ s.store other apart)
          | inr (page, found) ↦ rw (found, respond) refl
        ]

  key-key_of :
      (route : CompiledRoute B) (link : Link) (a : Asked) (id k : Text) (policy : CachePolicy)
      → route.cache ≡ some policy
      → cache_key deps.std route link a id ≡ some k
      → k ≡ key_of deps.std route.config.name policy a id
  unfolding cache_key
  key-key_of route link a id k policy cached e = ground arith

  -- A request leaves every key of the store that is no key of the cache for it.
  pub serve_http-other :
      (route : CompiledRoute B) (link : Link) (answered : Bool) (q : Request) (s : Site B W)
      (other : Text)
      → ((id k : Text) → cache_key deps.std route link (asked_of q) id ≡ some k → k ≢ other)
      → (serve_http deps route link answered q s).0.store.strings other ≡ s.store.strings other
  unfolding serve_http
  serve_http-other route link answered q s other apart =
      elim (Verdict-cases (guards deps route link q s).1) [
        | inl (status, code, e) ↦ rw (e, serve_http) refl
        | inr (p, e) ↦
            rw (e, serve_http)
              (respond-other route link answered q p
                (record s { gate = (guards deps route link q s).0 }) other (apart p.id))
      ]

  pub cache_key-prefixed :
      (route : CompiledRoute B) (link : Link) (a : Asked) (id k : Text)
      → cache_key deps.std route link a id ≡ some k
      → (rest : Text) × (k ≡ cache_prefix ++ rest)
  unfolding cache_key key_of
  cache_key-prefixed route link a id k e = elim (Option-cases route.cache) [
    | inl uncached ↦ absurd (ground arith)
    | inr (policy, cached) ↦ (_, key-key_of route link a id k policy cached e)
  ]

  -- On a route that caches by principal, a request of one principal leaves what the cache holds for
  -- every request of another: with parts of the keys that hold no NUL, and digests that do not collide.
  pub serve_http_isolates :
      (route : CompiledRoute B) (link : Link) (answered : Bool) (q : Request) (s : Site B W)
      (p : Principal) (policy : CachePolicy) (a : Asked) (id : Text)
      → ((t : Text) → All (λ b. b < 256) (deps.std.sha256 t))
      → (deps.std.sha256 (key_text route.config.name policy (asked_of q) p.id)
            ≡ deps.std.sha256 (key_text route.config.name policy a id)
          → key_text route.config.name policy (asked_of q) p.id
            ≡ key_text route.config.name policy a id)
      → route.cache ≡ some policy
      → policy.per_principal ≡ true
      → (guards deps route link q s).1 ≡ admitted p
      → p.id ≢ id
      → All IsPlain (key_parts route.config.name policy (asked_of q) p.id)
      → All IsPlain (key_parts route.config.name policy a id)
      → let key = key_of deps.std route.config.name policy a id in
        (serve_http deps route link answered q s).0.store.strings key ≡ s.store.strings key
  unfolding serve_http
  serve_http_isolates route link answered q s p policy a id small collides cached by_principal
        passed apart plain plain' =
      rw (passed, serve_http)
        (respond-other route link answered q p (record s { gate = (guards deps route link q s).0 })
          (key_of deps.std route.config.name policy a id)
          (λ k made same. apart (
            (key_of-Alike deps.std small route.config.name policy (asked_of q) a p.id id plain
                plain' collides
                (sym (key-key_of route link (asked_of q) p.id k policy cached made)
                  ∙ same)).principal
              by_principal)))
