-- ===== src/System/Cached.antt =====
-- The steps that write keys of the cache: requests to the routes, and invalidations.
use vial_gateway.Prelude.{
  ◌≡◌, refl, ◌≢◌, Bool, List, ◌++◌, Option, sym, ◌∙◌, subst, arith, Bool-cases, true, false, inl,
  inr,
}
use vial_gateway.Prelude.Int.{pos}
use vial_gateway.Text.{Text, elem}
use vial_gateway.Route.{CompiledRoute}
use vial_gateway.RateLimit.Request.{Link}
use vial_gateway.Store.{Store, config_key, active_config_key}
use vial_gateway.Store.Register.{view, Moves, stays}
use vial_gateway.Control.{Calls}
use vial_gateway.Cache.{cache_prefix}
use vial_gateway.Cache.Invalidate.{
  ScanPage, all_keys, pattern_of, invalidate_cache, invalidate_cache-other,
}
use vial_gateway.Serve.Exchange.{Deps, Request, Site, asked_of, serve_http}
use vial_gateway.Serve.Principals.{serve_http-other, cache_key-prefixed}
use vial_gateway.System.Versioned.{Turns}
use vial_gateway.System.Elsewhere.{view-same, differ, Apart}

cache-Apart : (rest : Text) → Apart (cache_prefix ++ rest)
unfolding config_key
cache-Apart rest = (
  λ n. differ 14 _ _ b'a' b'o' refl refl (λ e. omega arith),
  differ 14 _ _ b'a' b'o' refl refl (λ e. omega arith),
)

pub invalidate_cache-Turns :
    (scan : Text → List (Option ScanPage)) (c : Calls) (actor : Text) (body : Option Text)
    (s : Store)
    → ((route k : Text)
        → elem k (all_keys (scan (pattern_of route))) ≡ true
        → (rest : Text) × (k ≡ cache_prefix ++ rest))
    → Turns s (invalidate_cache scan c actor body s).0
invalidate_cache-Turns scan c actor body s cached =
    subst (Moves (view s.strings))
      (sym (
        view-same s.strings (invalidate_cache scan c actor body s).0.strings
          (λ n. invalidate_cache-other scan c actor body s (config_key (pos n)) (λ route.
            not_listed route (config_key (pos n)) (λ rest e. (cache-Apart rest).0 n (sym e))))
          (invalidate_cache-other scan c actor body s active_config_key (λ route.
            not_listed route active_config_key (λ rest e. (cache-Apart rest).1 (sym e))))))
      (stays (view s.strings))
  where
    not_listed :
        (route k : Text)
        → ((rest : Text) → k ≢ cache_prefix ++ rest)
        → elem k (all_keys (scan (pattern_of route))) ≡ false
    not_listed route k apart = elim (Bool-cases (elem k (all_keys (scan (pattern_of route))))) [
      | inr absent ↦ absent
      | inl there ↦ let (rest, e) = cached route k there in absurd (apart rest e)
    ]

module _ {B W : Type 0} (deps : Deps W) where
  pub serve_http-Turns :
      (route : CompiledRoute B) (link : Link) (answered : Bool) (q : Request) (site : Site B W)
      → Turns site.store (serve_http deps route link answered q site).0.store
  serve_http-Turns route link answered q site =
      subst (Moves (view site.store.strings))
        (sym (
          view-same site.store.strings (serve_http deps route link answered q site).0.store.strings
            (λ n.
              serve_http-other deps route link answered q site (config_key (pos n)) (λ id k made e.
                let (rest, named) = cache_key-prefixed deps route link (asked_of q) id k made in
                (cache-Apart rest).0 n (sym named ∙ e)))
            (serve_http-other deps route link answered q site active_config_key (λ id k made e.
              let (rest, named) = cache_key-prefixed deps route link (asked_of q) id k made in
              (cache-Apart rest).1 (sym named ∙ e)))))
        (stays (view site.store.strings))
