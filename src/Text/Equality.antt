-- ===== src/Text/Equality.antt =====
-- The test `text_eq` decides equality, and `elem` membership.
use vial_gateway.Prelude.{
  ◌≡◌, refl, ◌≢◌, ◌↔◌, true, false, [], ◌∷◌, arith, Bool-cases, ◌⊎◌, inl, inr,
}
use vial_gateway.Text.{Text, text_eq, is_empty}

pub text_eq_refl : (s : Text) → text_eq s s ≡ true
unfolding text_eq
text_eq_refl [] = refl
text_eq_refl (a ∷ s) = ground (arith, text_eq_refl s)

pub eq_of_text_eq : (s t : Text) → text_eq s t ≡ true → s ≡ t
unfolding text_eq
eq_of_text_eq [] [] h = refl
eq_of_text_eq [] (b ∷ t) h = cc
eq_of_text_eq (a ∷ s) [] h = cc
eq_of_text_eq (a ∷ s) (b ∷ t) h = ground (arith, eq_of_text_eq s t)

pub text_eq_iff : (s t : Text) → (text_eq s t ≡ true) ↔ (s ≡ t)
text_eq_iff s t = (eq_of_text_eq s t, λ e. rw e (text_eq_refl t))

pub text_eq-cases :
    (s t : Text) → ((text_eq s t ≡ true) × (s ≡ t)) ⊎ ((text_eq s t ≡ false) × (s ≢ t))
text_eq-cases s t = elim (Bool-cases (text_eq s t)) [
  | inl same ↦ inl (same, eq_of_text_eq s t same)
  | inr other ↦ inr (other, λ e. cc (other, (text_eq_iff s t).1 e))
]

pub Text-discrete : Discrete Text
Text-discrete s t = elim (text_eq-cases s t) [ inl (_, e) ↦ yes e | inr (_, n) ↦ no n ]

pub is_empty-nil : (t : Text) → is_empty t ≡ true → t ≡ []
is_empty-nil [] h = refl
is_empty-nil (c ∷ t) h = cc

pub is_empty-ne-nil : (t : Text) → is_empty t ≡ false → t ≢ []
is_empty-ne-nil [] h e = cc
is_empty-ne-nil (c ∷ t) h e = ground arith

pub ne-nil-is_empty : (t : Text) → t ≢ [] → is_empty t ≡ false
ne-nil-is_empty [] h = absurd (h refl)
ne-nil-is_empty (c ∷ t) h = refl
