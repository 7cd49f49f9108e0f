-- ===== src/Serve/Answers.antt =====
-- Every request to a route is answered.
use vial_gateway.Prelude.{
  ℕ, suc, zero, ◌≡◌, refl, ◌≢◌, Bool, true, false, List, Option, none, some, Result, ok, err, arith,
  Option-cases, Bool-cases, ◌<◌, ◌+◌, ◌^◌, not, ◌&&◌, Result-cases, inl, inr, ap, ◌∙◌,
}
use vial_gateway.Prelude.Int.{pos, pos_part, wrap_i64-small}
use vial_gateway.Text.{Text}
use vial_gateway.Url.{Url}
use vial_gateway.Std.{Std, IpNet}
use vial_gateway.Config.Types.{RouteConfig}
use vial_gateway.Transform.{ObjectCodec}
use vial_gateway.Route.{CompiledRoute, Principal}
use vial_gateway.Pool.{pick}
use vial_gateway.RateLimit.Request.{Link}
use vial_gateway.Store.{Store}
use vial_gateway.Forward.{
  is_idempotent, ForwardError, body_too_large, invalid_json, no_healthy_upstream, upstream_status,
  transport_failed, nothing, Stream, Incoming, Outgoing, Response, Upstream, Sending, Outcome,
  attempts_of, tried_once, url_at, execute, try_upstreams, forward, prepare_body, clone_request,
}
use vial_gateway.Forward.Attempts.{settled-either}
use vial_gateway.Cache.{cache_key}
use vial_gateway.Answer.{Answer, fault}
use vial_gateway.Serve.Isolation.{Verdict-cases, guards}
use vial_gateway.Serve.Exchange.{
  Request, Deps, Site, Served, answer, fault_of, conclude, hit, respond, serve_http, asked_of,
  incoming_of,
}

IsAnswered : Served → Type 0
IsAnswered served = (a : Answer) × (served ≡ answer a)

fault_of-IsAnswered : (e : ForwardError) → e ≢ nothing → IsAnswered (fault_of e)
unfolding fault_of IsAnswered
fault_of-IsAnswered body_too_large h = (_, refl)
fault_of-IsAnswered invalid_json h = (_, refl)
fault_of-IsAnswered (transport_failed true) h = (_, refl)
fault_of-IsAnswered (transport_failed false) h = (_, refl)
fault_of-IsAnswered no_healthy_upstream h = (_, refl)
fault_of-IsAnswered upstream_status h = (_, refl)
fault_of-IsAnswered nothing h = absurd (h refl)

-- An outcome that is not the pair of a nil response and a nil error.
abbrev IsSome : {B W : Type 0} → Outcome B W → Type 0
IsSome o = o.1 ≢ err nothing

prepare_body-ne-nothing :
    (codec : ObjectCodec) (r : RouteConfig) (body : Option Stream)
    → prepare_body codec r body ≢ err nothing
unfolding prepare_body
prepare_body-ne-nothing codec r none h = cc
prepare_body-ne-nothing codec r (some sent) h = ground arith

attempts-pos :
    (r : RouteConfig) (method : Text) (n : ℕ)
    → r.retries ≡ pos n
    → n + 1 < 2 ^ 63
    → attempts_of r method ≢ 0
unfolding attempts_of
attempts-pos r method n h small e = elim (Bool-cases (is_idempotent method && not r.streaming)) [
  | inr once ↦ cc (rw once at e)
  | inl often ↦ omega (arith, ap pos_part (wrap_i64-small n small), rw (often, h) at e)
]

module _ {B W : Type 0} (up : Upstream W) where
  tries-IsSome :
      (make : Url → Outgoing) (left : ℕ) (last : ForwardError) (s : Sending B W)
      → (left ≡ 0 → last ≢ nothing)
      → IsSome (try_upstreams up make left last s)
  unfolding try_upstreams
  tries-IsSome make zero last s h = λ e. h refl (cc)
  tries-IsSome make (suc left) last s h = elim (Option-cases (pick s.pool).1) [
    | inl missed ↦ rw (missed, try_upstreams) (λ e. cc)
    | inr (i, found) ↦
        let e = execute up s.world i (make (url_at s.pool i)) in
        let s' = tried_once up s (pick s.pool).0 i e in
        rw (found, try_upstreams)
          (settled-either up (λ o. IsSome o) left e.1 s' _ _ (λ r q. cc)
            (tries-IsSome make left upstream_status s' (λ z q. cc))
            (λ over. tries-IsSome make left (transport_failed over) s' (λ z q. cc)))
  ]

  forward-IsSome :
      (std : Std) (codec : ObjectCodec) (r : RouteConfig) (trusted : List IpNet) (q : Incoming)
      (s : Sending B W)
      → (n : ℕ) → r.retries ≡ pos n
      → n + 1 < 2 ^ 63
      → IsSome (forward up std codec r trusted q s)
  unfolding forward
  forward-IsSome std codec r trusted q s n h small =
      elim (Result-cases (prepare_body codec r q.body)) [
        | inr (e, bad) ↦
            rw (bad, forward)
              (λ f.
                prepare_body-ne-nothing codec r q.body
                  (bad ∙ (let same : e ≡ nothing = cc in ap err same)))
        | inl (body, good) ↦
            rw (good, forward)
              (tries-IsSome (clone_request std r trusted q body) (attempts_of r q.method) nothing s
                (λ z. absurd (attempts-pos r q.method n h small z)))
      ]

module _ {B W : Type 0} (deps : Deps W) where
  conclude-IsAnswered :
      (route : CompiledRoute B) (cached : Bool) (key : Option Text) (method : Text)
      (result : Result ForwardError Response) (s : Store)
      → result ≢ err nothing
      → IsAnswered (conclude deps route cached key method result s).1
  unfolding conclude IsAnswered
  conclude-IsAnswered route cached key method (err e) s h =
      fault_of-IsAnswered e (λ q. h (ap err q))
  conclude-IsAnswered route cached key method (ok r) s h = (_, refl)

  respond-IsAnswered :
      (route : CompiledRoute B) (link : Link) (cached : Bool) (q : Request) (p : Principal)
      (s : Site B W)
      → (n : ℕ) → route.config.retries ≡ pos n
      → n + 1 < 2 ^ 63
      → IsAnswered (respond deps route link cached q p s).1
  unfolding respond IsAnswered
  respond-IsAnswered route link cached q p s n h small =
      elim (Option-cases
        (hit deps link (cache_key deps.std route link (asked_of q) p.id) q s.store)) [
          | inr (page, found) ↦ rw (found, respond) (_, refl)
          | inl miss ↦
              rw (miss, respond)
                (conclude-IsAnswered route cached _ q.method _ s.store (
                  forward-IsSome deps.upstream deps.std deps.objects route.config route.trusted
                    (incoming_of q) s.sending n h small))
        ]

  -- Every request to a route with n retries, where n + 1 is less than 2 ^ 63, is answered: the handler
  -- never gets a response that is nil.
  pub serve_http-answers :
      (route : CompiledRoute B) (link : Link) (cached : Bool) (q : Request) (s : Site B W)
      → (n : ℕ) → route.config.retries ≡ pos n
      → n + 1 < 2 ^ 63
      → (a : Answer) × ((serve_http deps route link cached q s).1 ≡ answer a)
  unfolding serve_http IsAnswered
  serve_http-answers route link cached q s n h small =
      elim (Verdict-cases (guards deps route link q s).1) [
        | inl (status, code, e) ↦ rw (e, serve_http) (fault status code, refl)
        | inr (p, e) ↦
            rw (e, serve_http)
              (respond-IsAnswered route link cached q p
                (record s { gate = (guards deps route link q s).0 }) n h small)
      ]
