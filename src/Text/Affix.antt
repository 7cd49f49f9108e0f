-- ===== src/Text/Affix.antt =====
-- Prefixes and suffixes: what the trims of package strings give back.
use vial_gateway.Prelude.{
  ◌-◌, ◌≡◌, refl, true, false, [], ◌∷◌, ◌++◌, arith, length, take, drop, length-append, take-append,
  drop-append, take-append-drop, ap, ◌∙◌, sym, and-true,
}
use vial_gateway.Text.{Text, has_prefix, trim_prefix, has_suffix, trim_suffix}
use vial_gateway.Text.Equality.{text_eq_refl, eq_of_text_eq}

pub has_prefix-append : (p s : Text) → has_prefix (p ++ s) p ≡ true
unfolding has_prefix
has_prefix-append [] s = refl
has_prefix-append (a ∷ p) s = ground (arith, has_prefix-append p s)

pub has_prefix-split : (s p : Text) → has_prefix s p ≡ true → s ≡ p ++ drop (length p) s
unfolding has_prefix
has_prefix-split s [] h = refl
has_prefix-split [] (b ∷ p) h = cc
has_prefix-split (a ∷ s) (b ∷ p) h = ground (arith, has_prefix-split s p)

pub trim_prefix-append : (p s : Text) → trim_prefix (p ++ s) p ≡ s
unfolding trim_prefix
trim_prefix-append p s = rw (has_prefix-append p s) (drop-append p s)

pub trim_prefix-other : (s p : Text) → has_prefix s p ≡ false → trim_prefix s p ≡ s
unfolding trim_prefix
trim_prefix-other s p h = rw h

length-sub : (s p : Text) → length (s ++ p) - length p ≡ length s
length-sub s p = omega (arith, length-append s p)

pub has_suffix-append : (s p : Text) → has_suffix (s ++ p) p ≡ true
unfolding has_suffix
has_suffix-append s p =
    rw (length-sub s p, drop-append s p, text_eq_refl p) (ground (arith, length-append s p))

pub trim_suffix-append : (s p : Text) → trim_suffix (s ++ p) p ≡ s
unfolding trim_suffix
trim_suffix-append s p = rw (has_suffix-append s p, length-sub s p) (take-append s p)

pub trim_suffix-other : (s p : Text) → has_suffix s p ≡ false → trim_suffix s p ≡ s
unfolding trim_suffix
trim_suffix-other s p h = rw h

pub has_suffix-split : (s p : Text) → has_suffix s p ≡ true → s ≡ take (length s - length p) s ++ p
unfolding has_suffix
has_suffix-split s p h =
    let (_, same) = and-true _ _ h in
    sym (take-append-drop (length s - length p) s)
    ∙ ap (◌++◌ (take (length s - length p) s)) (eq_of_text_eq (drop (length s - length p) s) p same)
