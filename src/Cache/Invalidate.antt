-- ===== src/Cache/Invalidate.antt =====
-- invalidateCache of cmd/gateway/control.go: the keys that a SCAN gives are unlinked, page by page.
use vial_gateway.Prelude.{
  ℕ, ◌+◌, ◌≡◌, refl, Bool, true, false, not, ◌&&◌, ◌||◌, List, [], ◌∷◌, ◌++◌, Option, none, some,
  if◌then◌else◌, arith, Option-cases, Bool-cases, inl, inr, ap, or-false, sym, ◌∙◌,
}
use vial_gateway.Prelude.Int.{pos}
use vial_gateway.Text.{Text, codes, is_empty, elem}
use vial_gateway.Number.{format_int}
use vial_gateway.Config.Types.{number}
use vial_gateway.Config.Validate.{is_nil}
use vial_gateway.Store.{Store, delete, log}
use vial_gateway.Control.{Calls, Response, fault, json, unavailable, audited}
use vial_gateway.Control.Activation.{is_json}
use vial_gateway.Cache.{cache_prefix}

-- The keys of a page, and whether the UNLINK of them is answered.
pub record ScanPage : Type 0 where
  pub keys : List Text
  pub unlinked : Bool

abbrev pub pattern_of : Text → Text
pattern_of route =
    if is_empty route then cache_prefix ++ codes "*" else cache_prefix ++ (route ++ codes ":*")

abbrev pub one_if_there : Option Text → ℕ
one_if_there none = 0
one_if_there (some value) = 1

-- UNLINK, with its count
unfoldable pub unlink : List Text → Store → Store × ℕ
unlink [] s = (s, 0)
unlink (key ∷ keys) s =
    let (t, n) = unlink keys (delete key s) in (t, one_if_there (s.strings key) + n)

abbrev pub plus : ℕ → Option ℕ → Option ℕ
plus n none = none
plus n (some m) = some (n + m)

-- The loop over the pages; `none` is one that fails, and the count is none on an error.
unfoldable pub sweep : List (Option ScanPage) → Store → Store × Option ℕ
unfolding unlink
sweep [] s = (s, some 0)
sweep (none ∷ pages) s = (s, none)
sweep (some page ∷ pages) s =
    let (t, n) = unlink page.keys s in
    let (u, m) = sweep pages t in
    if not (is_nil page.keys) && not page.unlinked then (s, none) else (u, plus n m)

-- `scan` is what the SCAN of a pattern gives.
unfoldable pub invalidate_cache :
    (Text → List (Option ScanPage)) → Calls → Text → Option Text → Store → Store × Response
unfolding sweep
invalidate_cache scan c actor none s = (s, fault 400 (codes "invalid_json"))
invalidate_cache scan c actor (some route) s =
    let (t, deleted) = sweep (scan (pattern_of route)) s in
    elim deleted [
      | none ↦ (t, unavailable)
      | some n ↦ (
        audited c actor (codes "cache.invalidate") route t,
        json 200 ((codes "deleted", number (format_int (pos n))) ∷ []),
      )
    ]

abbrev pub all_keys : List (Option ScanPage) → List Text
all_keys [] = []
all_keys (none ∷ pages) = all_keys pages
all_keys (some page ∷ pages) = page.keys ++ all_keys pages

-- What unlinking leaves at a key: nothing, where it is listed.
unlink-strings :
    (keys : List Text) (s : Store) (k : Text)
    → (unlink keys s).0.strings k ≡ (if elem k keys then none else s.strings k)
unfolding unlink delete
unlink-strings [] s k = refl
unlink-strings (key ∷ keys) s k = unlink-strings keys (delete key s) k ∙ ground arith

elem-append : (k : Text) (xs ys : List Text) → elem k (xs ++ ys) ≡ (elem k xs || elem k ys)
elem-append k [] ys = refl
elem-append k (x ∷ xs) ys = ground (arith, elem-append k xs ys)

counted : (n : ℕ) (m : Option ℕ) (total : ℕ) → plus n m ≡ some total → (rest : ℕ) × (m ≡ some rest)
counted n none total h = cc
counted n (some m) total h = (m, refl)

listed :
    (a b : Bool) (v : Option Text)
    → (if b then none else (if a then none else v)) ≡ (if a || b then none else v)
listed a b v = ground arith

-- A sweep that meets no error removes the keys of its pages and keeps the others.
sweep-strings :
    (pages : List (Option ScanPage)) (s : Store) (n : ℕ) (k : Text)
    → (sweep pages s).1 ≡ some n
    → (sweep pages s).0.strings k ≡ (if elem k (all_keys pages) then none else s.strings k)
unfolding sweep
sweep-strings [] s n k h = refl
sweep-strings (none ∷ pages) s n k h = cc
sweep-strings (some page ∷ pages) s n k h =
    elim (Bool-cases (not (is_nil page.keys) && not page.unlinked)) [
      | inl lost ↦ absurd (ground arith)
      | inr done ↦
          let after = (unlink page.keys s).0 in
          let sum : plus (unlink page.keys s).1 (sweep pages after).1 ≡ some n = ground arith in
          let (rest, swept) = counted _ _ n sum in
          rw (done, sweep)
            (sweep-strings pages after rest k swept
              ∙ (ap (λ v. if elem k (all_keys pages) then none else v)
                    (unlink-strings page.keys s k)
                  ∙ (listed (elem k page.keys) (elem k (all_keys pages)) (s.strings k)
                      ∙ ap (λ b. if b then none else s.strings k)
                          (sym (elem-append k page.keys (all_keys pages))))))
    ]

kept :
    (c : Calls) (actor route : Text) (s : Store) (k : Text)
    → (audited c actor (codes "cache.invalidate") route s).strings k ≡ s.strings k
unfolding log
kept c actor route s k = ground arith

-- An invalidation that is answered with success has removed exactly the keys that the SCAN of its
-- pattern gave, and no other.
pub invalidate_cache-strings :
    (scan : Text → List (Option ScanPage)) (c : Calls) (actor route : Text) (s : Store) (k : Text)
    → is_json (invalidate_cache scan c actor (some route) s).1 ≡ true
    → (invalidate_cache scan c actor (some route) s).0.strings k
      ≡ (if elem k (all_keys (scan (pattern_of route))) then none else s.strings k)
unfolding invalidate_cache log
invalidate_cache-strings scan c actor route s k h =
    elim (Option-cases (sweep (scan (pattern_of route)) s).1) [
      | inl failed ↦ absurd (ground arith)
      | inr (n, swept) ↦
          rw (swept, invalidate_cache)
            (kept c actor route (sweep (scan (pattern_of route)) s).0 k
              ∙ sweep-strings (scan (pattern_of route)) s n k swept)
    ]

sweep-other :
    (pages : List (Option ScanPage)) (s : Store) (k : Text)
    → elem k (all_keys pages) ≡ false
    → (sweep pages s).0.strings k ≡ s.strings k
unfolding sweep
sweep-other [] s k h = refl
sweep-other (none ∷ pages) s k h = refl
sweep-other (some page ∷ pages) s k h =
    let (here, later) = or-false _ _ (sym (elem-append k page.keys (all_keys pages)) ∙ h) in
    elim (Bool-cases (not (is_nil page.keys) && not page.unlinked)) [
      | inl lost ↦ rw (lost, sweep) refl
      | inr done ↦
          rw (done, sweep)
            (sweep-other pages (unlink page.keys s).0 k later
              ∙ (unlink-strings page.keys s k ∙ ap (λ b. if b then none else s.strings k) here))
    ]

-- Whatever its answer, an invalidation keeps the keys that the SCAN did not give.
pub invalidate_cache-other :
    (scan : Text → List (Option ScanPage)) (c : Calls) (actor : Text) (body : Option Text)
    (s : Store) (k : Text)
    → ((route : Text) → elem k (all_keys (scan (pattern_of route))) ≡ false)
    → (invalidate_cache scan c actor body s).0.strings k ≡ s.strings k
unfolding invalidate_cache
invalidate_cache-other scan c actor none s k apart = refl
invalidate_cache-other scan c actor (some route) s k apart =
    elim (Option-cases (sweep (scan (pattern_of route)) s).1) [
      | inl failed ↦
          rw (failed, invalidate_cache) (sweep-other (scan (pattern_of route)) s k (apart route))
      | inr (n, swept) ↦
          rw (swept, invalidate_cache)
            (kept c actor route (sweep (scan (pattern_of route)) s).0 k
              ∙ sweep-other (scan (pattern_of route)) s k (apart route))
    ]
