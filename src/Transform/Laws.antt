-- ===== src/Transform/Laws.antt =====
-- What a transform makes of each member of an object.
use vial_gateway.Prelude.{
  ◌≡◌, refl, Bool, false, ◌||◌, List, [], ◌∷◌, Option, none, some, arith, if◌then◌else◌,
  Option-cases, inl, inr, ap, ◌∙◌,
}
use vial_gateway.Text.{Text, text_eq, elem}
use vial_gateway.Text.Equality.{text_eq_iff}
use vial_gateway.Dict.{lookup, insert, remove, lookup-insert, lookup-remove}
use vial_gateway.Config.Types.{Json, JsonTransform}
use vial_gateway.Transform.{Object, remove_members, rename_members, add_members, transform_object}

lookup-remove_members :
    (keys : List Text) (o : Object) (key : Text)
    → lookup key (remove_members keys o) ≡ (if elem key keys then none else lookup key o)
unfolding remove_members
lookup-remove_members [] o key = refl
lookup-remove_members (k ∷ keys) o key =
    ground (arith, lookup-remove_members keys (remove k o) key, lookup-remove k key o)

-- The value that the last entry of a key gives it.
abbrev pub last_of : Text → List (Text × Json) → Option Json → Option Json
last_of key [] before = before
last_of key ((k, value) ∷ members) before =
    last_of key members (if text_eq k key then some value else before)

lookup-add_members :
    (members : List (Text × Json)) (o : Object) (key : Text)
    → lookup key (add_members members o) ≡ last_of key members (lookup key o)
unfolding add_members
lookup-add_members [] o key = refl
lookup-add_members ((k, value) ∷ members) o key =
    lookup-add_members members (insert k value o) key
    ∙ ap (last_of key members) (lookup-insert k key value o)

-- Whether a key is the source or the target of a renaming.
abbrev pub renamed : Text → List (Text × Text) → Bool
renamed key [] = false
renamed key ((from, to) ∷ names) = (text_eq from key || text_eq to key) || renamed key names

lookup-rename_members :
    (names : List (Text × Text)) (o : Object) (key : Text)
    → renamed key names ≡ false
    → lookup key (rename_members names o) ≡ lookup key o
unfolding rename_members
lookup-rename_members [] o key h = refl
lookup-rename_members ((from, to) ∷ names) o key h =
    lookup-rename_members names _ key (ground arith)
    ∙ one from to o key (ground arith) (ground arith)
  where
    one :
        (from to : Text) (o : Object) (key : Text)
        → text_eq from key ≡ false
        → text_eq to key ≡ false
        → lookup key (elim (lookup from o) as (λ _. Object) [
          | none ↦ o
          | some value ↦ remove from (insert to value o)
        ])
          ≡ lookup key o
    one from to o key f t = elim (Option-cases (lookup from o)) [
      | inl missing ↦ rw missing refl
      | inr (value, found) ↦ rw found (
          lookup-remove from key (insert to value o)
          ∙ rw f (lookup-insert to key value o ∙ rw t refl))
    ]

-- A member that no renaming mentions is the one added, or else is gone if it was removed, or else is
-- as it was.
pub lookup-transform_object :
    (t : JsonTransform) (o : Object) (key : Text)
    → renamed key t.rename ≡ false
    → lookup key (transform_object t o)
      ≡ last_of key t.add (if elem key t.remove then none else lookup key o)
unfolding transform_object
lookup-transform_object t o key h =
    lookup-add_members t.add _ key
    ∙ ap (last_of key t.add)
        (lookup-rename_members t.rename _ key h ∙ lookup-remove_members t.remove o key)

renamed_object :
    (from to : Text) (o : Object) (value : Json) (key : Text)
    → lookup from o ≡ some value
    → lookup key (rename_members ((from, to) ∷ []) o)
      ≡ (if text_eq from key then none else if text_eq to key then some value else lookup key o)
unfolding rename_members
renamed_object from to o value key found =
    rw (rename_members, found)
      (lookup-remove from key (insert to value o)
        ∙ ap (λ v. if text_eq from key then none else v) (lookup-insert to key value o))

kept_object :
    (from to : Text) (o : Object) → lookup from o ≡ none → rename_members ((from, to) ∷ []) o ≡ o
unfolding rename_members
kept_object from to o missing = rw (rename_members, missing) refl

rename-two :
    (e f : Text × Text) (o : Object)
    → rename_members (e ∷ f ∷ []) o ≡ rename_members (f ∷ []) (rename_members (e ∷ []) o)
unfolding rename_members
rename-two e f o = refl

-- Two renamings where one's target is the other's source depend on their order, which is that of a
-- Go map: an object with the first source alone gets the last target, or it does not.
rename_order_matters :
    (a b c : Text) (o : Object) (value : Json)
    → text_eq a b ≡ false
    → text_eq b c ≡ false
    → lookup a o ≡ some value
    → lookup b o ≡ none
    → lookup c o ≡ none
    → (lookup c (rename_members ((a, b) ∷ (b, c) ∷ []) o) ≡ some value)
      × (lookup c (rename_members ((b, c) ∷ (a, b) ∷ []) o) ≡ none)
rename_order_matters a b c o value ab bc at_a at_b at_c =
    let middle = rename_members ((a, b) ∷ []) o in
    let first : lookup b middle ≡ some value =
      renamed_object a b o value b at_a ∙ rw (ab, (text_eq_iff b b).1 refl) refl in
    (
      ap (lookup c) (rename-two (a, b) (b, c) o)
          ∙ (renamed_object b c middle value c first ∙ rw (bc, (text_eq_iff c c).1 refl) refl),
      ap (lookup c) (rename-two (b, c) (a, b) o)
          ∙ (ap (λ x. lookup c (rename_members ((a, b) ∷ []) x)) (kept_object b c o at_b)
              ∙ (renamed_object a b o value c at_a ∙ ground (arith, at_c))),
    )
