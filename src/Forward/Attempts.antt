-- ===== src/Forward/Attempts.antt =====
-- How often a request is sent, and to whom.
use vial_gateway.Prelude.{
  ℕ, any, zero, suc, ◌+◌, ◌≤◌, ◌≡◌, refl, Bool, true, false, List, [], some, arith, leb, ok,
  ok-injective, length, get_elem?, All, Result-cases, Option-cases, Bool-cases, inl, inr, ap, sym,
  ◌∙◌, ◌⊎◌, ◌∷◌,
}
use vial_gateway.Prelude.Int.{pos, pos_part, ◌+ℤ◌, wrap_i64}
use vial_gateway.Text.{Text, codes, text_eq}
use native.Mathlib.Nat.{mod-le}
use Prim.Native.Nat.{◌^◌}
use vial_gateway.Pool.{Pool, Endpoint, pick, is_up}
use vial_gateway.Pool.Pick.{pick_only_healthy}
use vial_gateway.Config.Types.{RouteConfig}
use vial_gateway.Transform.{ObjectCodec}
use vial_gateway.Url.{Url}
use vial_gateway.Std.{Std, IpNet}
use vial_gateway.Forward.{
  ForwardError, Response, Upstream, Attempt, answered, rejected, failed, judge, execute, Sending,
  settled, nothing, tried_once, try_upstreams, attempts_of, forward, prepare_body, upstream_status,
  transport_failed, is_idempotent, Reply, replied, broken, Outgoing, Incoming, Outcome,
  clone_request, url_at,
}

judge-answered : (o : Reply) (r : Response) → judge o ≡ answered r → leb 500 r.status ≡ false
unfolding judge
judge-answered (broken over) r h = cc
judge-answered (replied t) r h = elim (Bool-cases (leb 500 t.status)) [
  | inl big ↦ absurd (ground arith)
  | inr small ↦ ground arith
]

abbrev pub retried : List Text
retried = codes "GET" ∷ codes "HEAD" ∷ codes "PUT" ∷ codes "DELETE" ∷ codes "OPTIONS" ∷ []

wrapped-le : (n : ℕ) → pos_part (wrap_i64 (pos 1 +ℤ pos n)) ≤ 1 + n
unfolding wrap_i64 ◌+ℤ◌
wrapped-le n = ground (arith, mod-le (pos_part (pos 1 +ℤ pos n) + 2 ^ 64) (2 ^ 64))

attempts-cases :
    (r : RouteConfig) (method : Text) (n : ℕ)
    → r.retries ≡ pos n
    → (attempts_of r method ≤ 1)
      ⊎ ((any (λ m. text_eq method m) retried ≡ true)
          × (r.streaming ≡ false)
          × (attempts_of r method ≤ 1 + n))
unfolding attempts_of is_idempotent
attempts-cases r method n h =
    let le = wrapped-le n in
    elim (Bool-cases (is_idempotent method)) [
      | inr other ↦ inl (ground arith)
      | inl method_ ↦ elim (Bool-cases r.streaming) [
        | inl streams ↦ inl (ground arith)
        | inr waits ↦ inr (ground arith, waits, rw h (ground arith))
      ]
    ]

module _ {W : Type 0} (up : Upstream W) where
  execute-answered :
      (w : W) (i : ℕ) (out : Outgoing) (r : Response)
      → (execute up w i out).1 ≡ answered r
      → leb 500 r.status ≡ false
  unfolding execute
  execute-answered w i out r h = elim (Bool-cases (up.lets_through w i)) [
    | inr shut ↦ cc (rw shut at h)
    | inl open_ ↦ judge-answered (up.round_trip w i out).1 r (rw open_ at h)
  ]

module _ {B W : Type 0} (up : Upstream W) where
  -- The state after an attempt at the endpoint `i`.
  abbrev tried_at : (Url → Outgoing) → Sending B W → ℕ → W × Attempt
  tried_at make s i = execute up s.world i (make (url_at s.pool i))

  abbrev after : (Url → Outgoing) → Sending B W → ℕ → Sending B W
  after make s i = tried_once up s (pick s.pool).0 i (tried_at make s i)

  pub settled-either {κ} :
      (P : Outcome B W → Type κ) (left : ℕ) (a : Attempt) (s : Sending B W) (x : Outcome B W)
      (y : Bool → Outcome B W)
      → ((r : Response) → P (s, ok r))
      → P x
      → ((over : Bool) → P (y over))
      → P (settled left a s x y)
  settled-either P left (answered r) s x y p q t = p r
  settled-either P zero (rejected r) s x y p q t = p r
  settled-either P (suc left) (rejected r) s x y p q t = q
  settled-either P left (failed over) s x y p q t = t over

  tries-le :
      (make : Url → Outgoing) (left : ℕ) (last : ForwardError) (s : Sending B W)
      → length (try_upstreams up make left last s).0.tried ≤ left + length s.tried
  unfolding try_upstreams
  tries-le make zero last s = omega arith
  tries-le make (suc left) last s = elim (Option-cases (pick s.pool).1) [
    | inl missed ↦ rw (missed, try_upstreams) (omega arith)
    | inr (i, found) ↦
        rw (found, try_upstreams)
          (settled-either (λ o. length o.0.tried ≤ suc left + length s.tried) left
            (tried_at make s i).1 (after make s i) _ _ (λ r. omega arith)
            (omega (arith, tries-le make left upstream_status (after make s i)))
            (λ over. omega (arith, tries-le make left (transport_failed over) (after make s i))))
  ]

  tries-le-attempts :
      (std : Std) (codec : ObjectCodec) (r : RouteConfig) (trusted : List IpNet) (q : Incoming)
      (s : Sending B W)
      → length (forward up std codec r trusted q s).0.tried
        ≤ attempts_of r q.method + length s.tried
  unfolding forward
  tries-le-attempts std codec r trusted q s = elim (Result-cases (prepare_body codec r q.body)) [
    | inr (e, bad) ↦ rw (bad, forward) (omega arith)
    | inl (bytes, good) ↦
        rw (good, forward)
          (tries-le (clone_request std r trusted q bytes) (attempts_of r q.method) nothing s)
  ]

  -- On a route with n retries a request is sent at most once, or its method is GET, HEAD, PUT, DELETE
  -- or OPTIONS, the route does not stream, and it is sent at most n + 1 times.
  pub forward-tries-le :
      (std : Std) (codec : ObjectCodec) (r : RouteConfig) (trusted : List IpNet) (q : Incoming)
      (s : Sending B W) (n : ℕ)
      → r.retries ≡ pos n
      → (length (forward up std codec r trusted q s).0.tried ≤ 1 + length s.tried)
        ⊎ ((any (λ m. text_eq q.method m) retried ≡ true)
            × (r.streaming ≡ false)
            × (length (forward up std codec r trusted q s).0.tried ≤ 1 + n + length s.tried))
  forward-tries-le std codec r trusted q s n h =
      let most = tries-le-attempts std codec r trusted q s in
      elim (attempts-cases r q.method n h) [
        | inl once ↦ inl (omega (arith, most, once))
        | inr (method, settled_, le) ↦ inr (method, settled_, omega (arith, most, le))
      ]

  pick-endpoints : (pool : Pool B) → (pick pool).0.endpoints ≡ pool.endpoints
  unfolding pick
  pick-endpoints pool = refl

  abbrev AllUp : List (Endpoint B) → List (ℕ × Bool) → Type 0
  AllUp es tried = All (λ t. is_up (get_elem? es t.0) ≡ true) tried

  picked-up :
      (pool : Pool B) (es : List (Endpoint B)) (i : ℕ)
      → pool.endpoints ≡ es
      → (pick pool).1 ≡ some i
      → is_up (get_elem? es i) ≡ true
  picked-up pool es i same found =
      let (e, at, healthy) = pick_only_healthy pool i found in
      ap (λ t. is_up (get_elem? t i)) (sym same) ∙ (ap is_up at ∙ healthy)

  tries-AllUp :
      (make : Url → Outgoing) (left : ℕ) (last : ForwardError) (s : Sending B W)
      (es : List (Endpoint B))
      → s.pool.endpoints ≡ es
      → AllUp es s.tried
      → AllUp es (try_upstreams up make left last s).0.tried
  unfolding try_upstreams
  tries-AllUp make zero last s es same h = h
  tries-AllUp make (suc left) last s es same h = elim (Option-cases (pick s.pool).1) [
    | inl missed ↦ rw (missed, try_upstreams) h
    | inr (i, found) ↦
        let now : AllUp es (after make s i).tried = (picked-up s.pool es i same found, h) in
        let kept : (after make s i).pool.endpoints ≡ es = pick-endpoints s.pool ∙ same in
        rw (found, try_upstreams)
          (settled-either (λ o. AllUp es o.0.tried) left (tried_at make s i).1 (after make s i) _ _
            (λ r. now) (tries-AllUp make left upstream_status (after make s i) es kept now)
            (λ over. tries-AllUp make left (transport_failed over) (after make s i) es kept now))
  ]

  -- A request is sent to endpoints of the route's pool only, and to healthy ones.
  pub forward-AllUp :
      (std : Std) (codec : ObjectCodec) (r : RouteConfig) (trusted : List IpNet) (q : Incoming)
      (s : Sending B W)
      → s.tried ≡ []
      → All
          (λ t. is_up (get_elem? s.pool.endpoints t.0) ≡ true)
          (forward up std codec r trusted q s).0.tried
  unfolding forward
  forward-AllUp std codec r trusted q s fresh = elim (Result-cases (prepare_body codec r q.body)) [
    | inr (e, bad) ↦ rw (bad, forward) (rw fresh tt)
    | inl (bytes, good) ↦
        rw (good, forward)
          (tries-AllUp (clone_request std r trusted q bytes) (attempts_of r q.method) nothing s
            s.pool.endpoints refl (rw fresh tt))
  ]

  -- The length that the log of attempts has, where the result is a response of status 500 or more.
  abbrev LastOf : Outcome B W → Response → ℕ → Type 0
  LastOf o r n = o.1 ≡ ok r → leb 500 r.status ≡ true → length o.0.tried ≡ n

  settled-last :
      (left : ℕ) (a : Attempt) (s : Sending B W) (x : Outcome B W) (y : Bool → Outcome B W)
      (r : Response)
      → ((t : Response) → a ≡ answered t → leb 500 t.status ≡ false)
      → LastOf x r (left + length s.tried)
      → ((over : Bool) → LastOf (y over) r (left + length s.tried))
      → LastOf (settled left a s x y) r (left + length s.tried)
  settled-last left (answered t) s x y r small p q =
      λ h big. absurd (cc (small t refl, big, ok-injective h))
  settled-last zero (rejected t) s x y r small p q = λ h big. omega arith
  settled-last (suc left) (rejected t) s x y r small p q = p
  settled-last left (failed over) s x y r small p q = q over

  tries-LastOf :
      (make : Url → Outgoing) (left : ℕ) (last : ForwardError) (s : Sending B W) (r : Response)
      → LastOf (try_upstreams up make left last s) r (left + length s.tried)
  unfolding try_upstreams
  tries-LastOf make zero last s r = λ h big. cc
  tries-LastOf make (suc left) last s r = elim (Option-cases (pick s.pool).1) [
    | inl missed ↦ rw (missed, try_upstreams) (λ h big. cc)
    | inr (i, found) ↦
        rw (found, try_upstreams)
          (λ h big.
            settled-last left (tried_at make s i).1 (after make s i) _ _ r
              (execute-answered up s.world i (make (url_at s.pool i)))
              (tries-LastOf make left upstream_status (after make s i) r)
              (λ over. tries-LastOf make left (transport_failed over) (after make s i) r) h big
            ∙ omega arith)
  ]

  -- A response of status 500 or more is passed on only if every attempt was made.
  pub server_error_is_last :
      (std : Std) (codec : ObjectCodec) (r : RouteConfig) (trusted : List IpNet) (q : Incoming)
      (s : Sending B W) (response : Response)
      → (forward up std codec r trusted q s).1 ≡ ok response
      → leb 500 response.status ≡ true
      → length (forward up std codec r trusted q s).0.tried
        ≡ attempts_of r q.method + length s.tried
  unfolding forward
  server_error_is_last std codec r trusted q s response =
      elim (Result-cases (prepare_body codec r q.body)) [
        | inr (e, bad) ↦ rw (bad, forward) (λ h big. cc)
        | inl (bytes, good) ↦
            rw (good, forward)
              (tries-LastOf (clone_request std r trusted q bytes) (attempts_of r q.method) nothing s
                response)
      ]
