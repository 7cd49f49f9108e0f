-- ===== src/RateLimit/Script.antt =====
-- What the token bucket lets through.
use vial_gateway.Prelude.{
  ℕ, suc, ◌+◌, ◌-◌, ◌*◌, ◌≤◌, ◌≡◌, refl, Bool, true, false, Option, none, some, arith, List, [],
  ◌∷◌, leb, leb→le, sym, ◌∙◌, ap, if◌then◌else◌, Bool-cases, inl, inr,
}
use vial_gateway.Prelude.Int.{pos, sub_ℕ_of_le, scale-pos, +ℤ-pos, min_ℤ-pos, +ℤ-sub}
use Prim.Native.Nat.{min}
use native.Mathlib.Nat.{le_trans, mul-add, mul-le-mul_left, mul-le-mul_right}
use vial_gateway.RateLimit.{Bucket, live, refill, take_token, token_bucket}

abbrev pub one_if : Bool → ℕ
one_if true = 1
one_if false = 0

two_windows :
    (capacity requests window d : ℕ)
    → capacity ≤ 2 * requests
    → window * 2 ≤ d
    → capacity * window ≤ requests * d
two_windows capacity requests window d small long =
    le_trans (mul-le-mul_right window small)
      (le_trans (omega arith) (mul-le-mul_left requests long))

module _ (capacity requests window : ℕ) where
  -- The clock does not run backwards: the bucket was last written at `u`, and holds no debt.
  refill-pos :
      (ms k u x : ℕ)
      → u ≤ ms
      → refill capacity requests window ms
          (some (record { tokens = pos k; updated = u; expires = x }))
        ≡ pos (min (capacity * window) (k + requests * (ms - u)))
  unfolding refill
  refill-pos ms k u x h =
      rw (sub_ℕ_of_le ms u h, scale-pos requests (ms - u), +ℤ-pos k (requests * (ms - u)))
        (min_ℤ-pos (capacity * window) (k + requests * (ms - u)))

  take_token-pos :
      (ms t : ℕ)
      → take_token capacity requests window ms (pos t) ≡ (
          if leb window t
          then (record { tokens = pos (t - window); updated = ms; expires = ms + window * 2 }, true)
          else (record { tokens = pos t; updated = ms; expires = ms + window * 2 }, false))
  unfolding take_token
  take_token-pos ms t = ground (arith, +ℤ-sub t window)

  live-expired : (ms : ℕ) (b : Bucket) → leb b.expires ms ≡ true → live ms (some b) ≡ none
  unfolding live
  live-expired ms b h = rw h

  live-kept : (ms : ℕ) (b : Bucket) → leb b.expires ms ≡ false → live ms (some b) ≡ some b
  unfolding live
  live-kept ms b h = rw h

  refill-none : (ms : ℕ) → refill capacity requests window ms none ≡ pos (capacity * window)
  unfolding refill
  refill-none ms = refl

  -- What the refill of a live or expired key is at most, if the bucket holds at most two windows.
  refill-live :
      (ms k u : ℕ)
      → u ≤ ms
      → capacity ≤ 2 * requests
      → (t : ℕ) × (refill capacity requests window ms
            (live ms (some (record { tokens = pos k; updated = u; expires = u + window * 2 })))
          ≡ pos t)
        × (t ≤ capacity * window)
        × (t ≤ k + requests * (ms - u))
  refill-live ms k u h small = elim (Bool-cases (leb (u + window * 2) ms)) [
    | inl gone ↦ (
      capacity * window,
      rw (live-expired ms (record { tokens = pos k; updated = u; expires = u + window * 2 }) gone)
          (refill-none ms),
      omega arith,
      le_trans (two_windows capacity requests window (ms - u) small (ground arith)) (omega arith),
    )
    | inr kept ↦ (
      min (capacity * window) (k + requests * (ms - u)),
      rw (live-kept ms (record { tokens = pos k; updated = u; expires = u + window * 2 }) kept)
          (refill-pos ms k u (u + window * 2) h),
      omega arith,
      omega arith,
    )
  ]

-- The number of requests that one key is granted at the given times.
unfoldable pub granted : (capacity requests window : ℕ) → List ℕ → Option Bucket → ℕ
unfolding token_bucket
granted capacity requests window [] key = 0
granted capacity requests window (ms ∷ times) key =
    let (key', allowed) = token_bucket capacity requests window ms key in
    one_if allowed + granted capacity requests window times key'

-- Times that do not fall, from `t` on, and the last of them.
abbrev pub Ordered : ℕ → List ℕ → Type 0
Ordered t [] = Unit {0}
Ordered t (ms ∷ times) = (t ≤ ms) × Ordered ms times

abbrev pub last : ℕ → List ℕ → ℕ
last t [] = t
last t (ms ∷ times) = last ms times

last-ge : (t : ℕ) (times : List ℕ) → Ordered t times → t ≤ last t times
last-ge t [] o = omega arith
last-ge t (ms ∷ times) (h, o) = omega (arith, last-ge ms times o)

split_time :
    (requests u ms : ℕ) (times : List ℕ)
    → u ≤ ms
    → Ordered ms times
    → requests * (ms - u) + requests * (last ms times - ms) ≡ requests * (last ms times - u)
split_time requests u ms times h o =
    sym (mul-add requests (ms - u) (last ms times - ms))
    ∙ ap (λ t. requests * t) (omega (arith, last-ge ms times o))

module _ (capacity requests w : ℕ) (small : capacity ≤ 2 * requests) where
  abbrev window : ℕ
  window = suc w

  abbrev written : ℕ → ℕ → Bucket
  written k u = record { tokens = pos k; updated = u; expires = u + window * 2 }

  granted-enough :
      (ms t : ℕ) (times : List ℕ) (key : Option Bucket)
      → refill capacity requests window ms (live ms key) ≡ pos t
      → leb window t ≡ true
      → granted capacity requests window (ms ∷ times) key
        ≡ 1 + granted capacity requests window times (some (written (t - window) ms))
  unfolding granted
  granted-enough ms t times key e enough =
      rw (e, take_token-pos capacity requests window ms t) (rw enough)

  granted-short :
      (ms t : ℕ) (times : List ℕ) (key : Option Bucket)
      → refill capacity requests window ms (live ms key) ≡ pos t
      → leb window t ≡ false
      → granted capacity requests window (ms ∷ times) key
        ≡ granted capacity requests window times (some (written t ms))
  unfolding granted
  granted-short ms t times key e short =
      rw (e, take_token-pos capacity requests window ms t) (rw short (omega arith))

  granted_from :
      (k u : ℕ) (times : List ℕ)
      → Ordered u times
      → window * granted capacity requests window times (some (written k u))
        ≤ k + requests * (last u times - u)
  granted_from k u [] o = unfold granted in omega arith
  granted_from k u (ms ∷ times) (h, o) =
      let (t, e, cap, most) = refill-live capacity requests window ms k u h small in
      elim (Bool-cases (leb window t)) [
        | inl enough ↦ rw (granted-enough ms t times _ e enough) (
            omega (
              arith,
              granted_from (t - window) ms times o,
              split_time requests u ms times h o,
              leb→le window t enough,
            ))
        | inr short ↦
            rw (granted-short ms t times _ e short)
              (omega (arith, granted_from t ms times o, split_time requests u ms times h o))
      ]

  -- With a capacity of at most two windows' requests, over any times that do not fall, a key that
  -- held nothing is granted no more than its capacity and the tokens that the elapsed time brings.
  pub granted-le :
      (ms : ℕ) (times : List ℕ)
      → Ordered ms times
      → window * granted capacity requests window (ms ∷ times) none
        ≤ capacity * window + requests * (last ms times - ms)
  granted-le ms times o = elim (Bool-cases (leb window (capacity * window))) [
    | inl enough ↦ rw (granted-enough ms (capacity * window) times none (fresh ms) enough) (
        omega (
          arith,
          granted_from (capacity * window - window) ms times o,
          leb→le window (capacity * window) enough,
        ))
    | inr short ↦
        rw (granted-short ms (capacity * window) times none (fresh ms) short)
          (granted_from (capacity * window) ms times o)
  ]
    where
      fresh : (ms : ℕ) → refill capacity requests window ms (live ms none) ≡ pos (capacity * window)
      fresh ms = unfold live refill in refl
