-- ===== src/Pool/Pick.antt =====
-- Which endpoint a pick finds.
use native.Mathlib.Nat.{
  mod-lt, mod-eq_of_lt, mod-add-mod, add-mod_right, add-zero, add-suc, suc-add,
}
use native.Mathlib.Decide.{dec_le}
use vial_gateway.Prelude.{
  ℕ, zero, suc, ◌+◌, ◌-◌, ◌%◌, ◌<◌, ◌≤◌, ◌≡◌, refl, true, false, List, [], ◌∷◌, Option, none, some,
  length, get_elem?, arith, Bool-cases, inl, inr, any, sym, ◌∙◌, ap, ◌≢◌, Option-cases,
}
use vial_gateway.Pool.{Pool, Endpoint, u64_mod, u64_max, is_up, scan, pick, has_healthy}

-- Every index is met within one turn.
pub turn : (s c i : ℕ) → i < c → (o : ℕ) × (o < c) × ((s + o) % c ≡ i)
turn s c i h = elim (dec_le (s % c) i) [
  | yes p ↦ (
    i - s % c,
    omega arith,
    sym (mod-add-mod s c (i - s % c)) ∙ (ap (λ t. t % c) (omega arith) ∙ mod-eq_of_lt h),
  )
  | no p ↦ (
    i + c - s % c,
    omega (arith, mod-lt s {m = c} (omega arith)),
    sym (mod-add-mod s c (i + c - s % c))
        ∙ (ap (λ t. t % c) (omega (arith, mod-lt s {m = c} (omega arith)))
            ∙ (add-mod_right i c ∙ mod-eq_of_lt h)),
  )
]

pub start_of_next : (n : ℕ) → n < u64_mod → ((n + 1) % u64_mod + u64_max) % u64_mod ≡ n
start_of_next n h = omega arith

module _ {B : Type 0} where
  scan-is_up :
      (es : List (Endpoint B)) (start offset rounds i : ℕ)
      → scan es start offset rounds ≡ some i
      → is_up (get_elem? es i) ≡ true
  unfolding scan
  scan-is_up es start offset zero i h = cc
  scan-is_up es start offset (suc rounds) i h =
      ground (arith, scan-is_up es start (suc offset) rounds i)

  scan-none :
      (es : List (Endpoint B)) (start offset rounds k : ℕ)
      → scan es start offset rounds ≡ none
      → k < rounds
      → is_up (get_elem? es (((start + (offset + k)) % u64_mod) % length es)) ≡ false
  unfolding scan
  scan-none es start offset zero k h lt = elim lt [ ]
  scan-none es start offset (suc rounds) zero h lt = rw add-zero (ground arith)
  scan-none es start offset (suc rounds) (suc k) h lt =
      rw (add-suc, ← suc-add)
        (scan-none es start (suc offset) rounds k (ground arith) (omega arith))

  is_up-endpoint :
      (o : Option (Endpoint B))
      → is_up o ≡ true
      → (e : Endpoint B) × (o ≡ some e) × (e.healthy ≡ true)
  is_up-endpoint none h = cc
  is_up-endpoint (some e) h = (e, refl, h)

  pub pick-scan :
      (pool : Pool B)
      → pool.next < u64_mod
      → (pick pool).1 ≡ scan pool.endpoints pool.next 0 (length pool.endpoints)
  unfolding pick
  pick-scan pool h =
      ap (λ t. scan pool.endpoints t 0 (length pool.endpoints)) (start_of_next pool.next h)

  -- Whatever the counter holds, the endpoint picked is one of the pool's, and is healthy.
  pub pick_only_healthy :
      (pool : Pool B) (i : ℕ)
      → (pick pool).1 ≡ some i
      → (e : Endpoint B) × (get_elem? pool.endpoints i ≡ some e) × (e.healthy ≡ true)
  unfolding pick
  pick_only_healthy pool i h =
      is_up-endpoint _ (scan-is_up pool.endpoints _ 0 (length pool.endpoints) i h)

  pub any_of_elem :
      (es : List (Endpoint B)) (i : ℕ)
      → is_up (get_elem? es i) ≡ true
      → any (λ e. e.healthy) es ≡ true
  any_of_elem [] i h = cc
  any_of_elem (e ∷ es) zero h = ground arith
  any_of_elem (e ∷ es) (suc i) h = ground (arith, any_of_elem es i)

  elem_of_any :
      (es : List (Endpoint B))
      → any (λ e. e.healthy) es ≡ true
      → (i : ℕ) × (i < length es) × (is_up (get_elem? es i) ≡ true)
  elem_of_any [] h = cc
  elem_of_any (e ∷ es) h = elim (Bool-cases e.healthy) [
    | inl up ↦ (0, omega arith, up)
    | inr down ↦ let (i, lt, up) = elem_of_any es (ground arith) in (suc i, omega arith, up)
  ]

  scan_misses_none :
      (es : List (Endpoint B)) (start i : ℕ)
      → start + length es ≤ u64_mod
      → i < length es
      → is_up (get_elem? es i) ≡ true
      → scan es start 0 (length es) ≢ none
  scan_misses_none es start i room lt up h =
      let (o, below, met) = turn start (length es) i lt in
      let down = scan-none es start 0 (length es) o h below in
      let index : ((start + (0 + o)) % u64_mod) % length es ≡ i =
        ap (λ t. t % length es) (◌∙◌ {A = ℕ} (mod-eq_of_lt (omega arith)) (omega arith)) ∙ met in
      cc (up, down, ap (λ t. is_up (get_elem? es t)) index)

  -- While the counter is a turn away from wrapping, a pool with a healthy endpoint picks one.
  pub pick_of_has_healthy :
      (pool : Pool B)
      → pool.next + length pool.endpoints ≤ u64_mod
      → has_healthy pool ≡ true
      → (i : ℕ) × (e : Endpoint B) × ((pick pool).1 ≡ some i)
        × (get_elem? pool.endpoints i ≡ some e)
        × (e.healthy ≡ true)
  unfolding has_healthy
  pick_of_has_healthy pool room h =
      let (k, lt, up) = elem_of_any pool.endpoints h in
      elim (Option-cases (pick pool).1) [
        | inl missed ↦ absurd (
            scan_misses_none pool.endpoints pool.next k room lt up
              (sym (pick-scan pool (omega arith)) ∙ missed))
        | inr (i, found) ↦
            let (e, at, healthy) = pick_only_healthy pool i found in (i, e, found, at, healthy)
      ]
