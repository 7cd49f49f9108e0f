-- ===== src/Dict.antt =====
-- Go maps with string keys, as association lists. The order of the entries is the order in which
-- a `range` loop meets them; Go leaves it open, and so do the theorems, which hold for any list.
use vial_gateway.Prelude.{
  ◌≡◌, refl, Bool, false, List, [], ◌∷◌, Option, none, some, arith, if◌then◌else◌,
}
use vial_gateway.Text.{Text, text_eq}
use vial_gateway.Text.Equality.{text_eq_iff}

module _ {ℓ} {V : Type ℓ} where
  -- m[key]
  unfoldable pub lookup : Text → List (Text × V) → Option V
  lookup key [] = none
  lookup key ((name, value) ∷ rest) = if text_eq name key then some value else lookup key rest

  -- m[key] = value
  unfoldable pub insert : Text → V → List (Text × V) → List (Text × V)
  insert key value [] = (key, value) ∷ []
  insert key value ((name, old) ∷ rest) =
      if text_eq name key then (key, value) ∷ rest else (name, old) ∷ insert key value rest

  -- delete(m, key)
  unfoldable pub remove : Text → List (Text × V) → List (Text × V)
  remove key [] = []
  remove key ((name, old) ∷ rest) =
      if text_eq name key then remove key rest else (name, old) ∷ remove key rest

  pub lookup-insert :
      (key name : Text) (value : V) (rest : List (Text × V))
      → lookup name (insert key value rest)
        ≡ (if text_eq key name then some value else lookup name rest)
  unfolding lookup insert
  lookup-insert key name value [] = refl
  lookup-insert key name value ((other, old) ∷ rest) = ground (
    arith,
    text_eq_iff key name,
    text_eq_iff other key,
    text_eq_iff other name,
    lookup-insert key name value rest,
  )

  pub lookup-remove :
      (key name : Text) (rest : List (Text × V))
      → lookup name (remove key rest) ≡ (if text_eq key name then none else lookup name rest)
  unfolding lookup remove
  lookup-remove key name [] = ground arith
  lookup-remove key name ((other, old) ∷ rest) = ground (
    arith,
    text_eq_iff key name,
    text_eq_iff other key,
    text_eq_iff other name,
    lookup-remove key name rest,
  )

-- m[k] of a map of strings, and of Booleans: the zero value where the key is missing.
abbrev pub or_empty : Option Text → Text
or_empty none = []
or_empty (some t) = t

abbrev pub or_false : Option Bool → Bool
or_false none = false
or_false (some b) = b
