-- ===== src/Pool/RoundRobin.antt =====
-- The order in which the endpoints of a pool are picked, and what a wrap of the counter does.
use native.Mathlib.Nat.{mod-lt, mod-eq_of_lt, add-zero}
use vial_gateway.Prelude.{
  ℕ, zero, suc, ◌+◌, ◌%◌, ◌<◌, ◌≤◌, ◌≡◌, refl, true, false, List, [], ◌∷◌, Option, none, some,
  length, get_elem?, arith, ◌∙◌, ap,
}
use vial_gateway.Pool.{Pool, Endpoint, u64_mod, u64_max, is_up, scan, pick, has_healthy}
use vial_gateway.Pool.Pick.{pick-scan}

module _ {B : Type 0} where
  -- The picks of `n` requests, one after another.
  unfoldable pub picks : ℕ → Pool B → List (Option ℕ)
  picks zero pool = []
  picks (suc n) pool = (pick pool).1 ∷ picks n (pick pool).0

  abbrev pub AllHealthy : Pool B → Type 0
  AllHealthy pool = (i : ℕ) → i < length pool.endpoints → is_up (get_elem? pool.endpoints i) ≡ true

  scan-first :
      (es : List (Endpoint B)) (start rounds : ℕ)
      → is_up (get_elem? es ((start % u64_mod) % length es)) ≡ true
      → 0 < rounds
      → scan es start 0 rounds ≡ some ((start % u64_mod) % length es)
  unfolding scan
  scan-first es start zero up h = elim h [ ]
  scan-first es start (suc rounds) up h = rw add-zero (rw up)

  pick-first :
      (pool : Pool B)
      → AllHealthy pool
      → 0 < length pool.endpoints
      → pool.next < u64_mod
      → (pick pool).1 ≡ some (pool.next % length pool.endpoints)
  pick-first pool healthy filled small =
      let same : pool.next % u64_mod ≡ pool.next = mod-eq_of_lt small in
      pick-scan pool small
      ∙ (scan-first pool.endpoints pool.next (length pool.endpoints)
            (healthy _ (mod-lt (pool.next % u64_mod) filled)) filled
          ∙ ap (λ t. some (t % length pool.endpoints)) same)

  -- With every endpoint healthy, the k-th of `n` picks in a row is that of index (next + k) % count.
  pub picks_rotate :
      (n k : ℕ) (pool : Pool B)
      → AllHealthy pool
      → 0 < length pool.endpoints
      → pool.next + n ≤ u64_mod
      → k < n
      → get_elem? (picks n pool) k ≡ some (some ((pool.next + k) % length pool.endpoints))
  unfolding picks pick
  picks_rotate zero k pool healthy filled room lt = elim lt [ ]
  picks_rotate (suc n) zero pool healthy filled room lt =
      rw add-zero (ap some (pick-first pool healthy filled (omega arith)))
  picks_rotate (suc n) (suc k) pool healthy filled room lt =
      picks_rotate n k (pick pool).0 healthy filled (omega arith) (omega arith)
      ∙ ap (λ t. some (some (t % length pool.endpoints))) (omega arith)

  -- At the wrap of the counter a pool of three misses its last endpoint, though it is healthy.
  pub pick_misses_at_wrap :
      (pool : Pool B) (a b c : Endpoint B)
      → pool.endpoints ≡ a ∷ b ∷ c ∷ []
      → pool.next ≡ u64_max
      → a.healthy ≡ false
      → b.healthy ≡ false
      → c.healthy ≡ true
      → (has_healthy pool ≡ true) × ((pick pool).1 ≡ none)
  unfolding has_healthy pick scan
  pick_misses_at_wrap pool a b c es at_wrap ha hb hc =
      rw (es, at_wrap) (rw (ha, hb, hc) (refl, refl))
