-- ===== src/Control/Lists/Sorted.antt =====
-- The list of versions: all that are stored, the newest first.
use vial_gateway.Prelude.{
  ℕ, ◌^◌, ◌<◌, ◌≡◌, refl, true, false, List, [], ◌∷◌, some, arith, Bool-cases, Option-cases, inl,
  inr, ◌⊎◌, ap, ◌∙◌,
}
use vial_gateway.Prelude.Int.{ℤ, pos, leb_ℤ}
use vial_gateway.Text.{Text, trim_prefix}
use vial_gateway.Text.Affix.{trim_prefix-append}
use vial_gateway.Number.{format_int, parse_int}
use vial_gateway.Number.RoundTrip.{parse_int-format_int}
use vial_gateway.Store.{config_key, config_key_prefix}
use vial_gateway.Control.Lists.{versions_of, place, sorted}

-- Each version of a list at least as large as the next.
abbrev IsDescending : List ℤ → Type 0
IsDescending [] = Unit
IsDescending (v ∷ []) = Unit
IsDescending (v ∷ w ∷ ws) = (leb_ℤ w v ≡ true) × IsDescending (w ∷ ws)

abbrev Lists : ℤ → List ℤ → Type 0
Lists v [] = ⊥
Lists v (w ∷ ws) = (w ≡ v) ⊎ Lists v ws

leb-total : (v w : ℤ) → leb_ℤ w v ≡ false → leb_ℤ v w ≡ true
leb-total v w h = ground arith

place-IsDescending : (v : ℤ) (ws : List ℤ) → IsDescending ws → IsDescending (place v ws)
unfolding place
place-IsDescending v [] h = tt
place-IsDescending v (w ∷ []) h = elim (Bool-cases (leb_ℤ w v)) [
  | inl small ↦ rw small (small, tt)
  | inr large ↦ rw large (leb-total v w large, tt)
]
place-IsDescending v (w ∷ x ∷ ws) (first, h) =
    let rest : IsDescending (place v (x ∷ ws)) = place-IsDescending v (x ∷ ws) h in
    elim (Bool-cases (leb_ℤ w v)) [
      | inl small ↦ rw small (small, (first, h))
      | inr large ↦ elim (Bool-cases (leb_ℤ x v)) [
        | inl between ↦ rw (large, between) (leb-total v w large, (between, h))
        | inr larger ↦
            let rest' : IsDescending (x ∷ place v ws) = rw larger at rest in
            rw (large, larger) (first, rest')
      ]
    ]

place-Lists : (v u : ℤ) (ws : List ℤ) → (v ≡ u) ⊎ Lists u ws → Lists u (place v ws)
unfolding place
place-Lists v u [] h = h
place-Lists v u (w ∷ ws) (inl here) = elim (Bool-cases (leb_ℤ w v)) [
  | inl small ↦ rw small (inl here)
  | inr large ↦ rw large (inr (place-Lists v u ws (inl here)))
]
place-Lists v u (w ∷ ws) (inr (inl there)) = elim (Bool-cases (leb_ℤ w v)) [
  | inl small ↦ rw small (inr (inl there))
  | inr large ↦ rw large (inl there)
]
place-Lists v u (w ∷ ws) (inr (inr later)) = elim (Bool-cases (leb_ℤ w v)) [
  | inl small ↦ rw small (inr (inr later))
  | inr large ↦ rw large (inr (place-Lists v u ws (inr later)))
]

sorted-IsDescending : (vs : List ℤ) → IsDescending (sorted vs)
unfolding sorted
sorted-IsDescending [] = tt
sorted-IsDescending (v ∷ vs) = place-IsDescending v (sorted vs) (sorted-IsDescending vs)

sorted-Lists : (u : ℤ) (vs : List ℤ) → Lists u vs → Lists u (sorted vs)
unfolding sorted
sorted-Lists u [] x = elim x [ ]
sorted-Lists u (v ∷ vs) (inl here) = place-Lists v u (sorted vs) (inl here)
sorted-Lists u (v ∷ vs) (inr later) = place-Lists v u (sorted vs) (inr (sorted-Lists u vs later))

abbrev HasKey : Text → List Text → Type 0
HasKey k [] = ⊥
HasKey k (key ∷ keys) = (key ≡ k) ⊎ HasKey k keys

key-version :
    (n : ℕ)
    → n < 2 ^ 63
    → parse_int (trim_prefix (config_key (pos n)) config_key_prefix) ≡ some (pos n)
unfolding config_key
key-version n small =
    ap parse_int (trim_prefix-append config_key_prefix (format_int (pos n)))
    ∙ parse_int-format_int n small

versions_of-Lists :
    (n : ℕ) (keys : List Text)
    → n < 2 ^ 63
    → HasKey (config_key (pos n)) keys
    → Lists (pos n) (versions_of keys)
unfolding versions_of
versions_of-Lists n [] small x = elim x [ ]
versions_of-Lists n (key ∷ keys) small (inl here) =
    let parsed : parse_int (trim_prefix key config_key_prefix) ≡ some (pos n) =
      ap (λ k. parse_int (trim_prefix k config_key_prefix)) here ∙ key-version n small in
    rw (versions_of, parsed) (inl refl)
versions_of-Lists n (key ∷ keys) small (inr later) =
    let rest = versions_of-Lists n keys small later in
    elim (Option-cases (parse_int (trim_prefix key config_key_prefix))) [
      | inl other ↦ rw (versions_of, other) rest
      | inr (v, parsed) ↦ rw (versions_of, parsed) (inr rest)
    ]

-- The versions that the control plane lists come in descending order, and every version of an int64
-- whose key the SCAN gives is among them.
sorted-versions_of :
    (keys : List Text)
    → IsDescending (sorted (versions_of keys))
      × ((n : ℕ)
          → n < 2 ^ 63
          → HasKey (config_key (pos n)) keys
          → Lists (pos n) (sorted (versions_of keys)))
sorted-versions_of keys = (
  sorted-IsDescending (versions_of keys),
  λ n small found. sorted-Lists (pos n) (versions_of keys) (versions_of-Lists n keys small found),
)
