-- ===== src/Text.antt =====
-- Go strings as lists of bytes, with the functions of the package strings that the gateway calls.
-- Case mapping and trimming are written out for ASCII; beyond it they are the fields of `Unicode`.
pub mod Equality
pub mod Affix
pub mod Split
use Prim.Native.Char.{code}
use Prim.Native.String.{String}
use vial_gateway.Prelude.{
  ℕ, ◌+◌, ◌-◌, Bool, true, false, not, ◌&&◌, ◌||◌, List, [], ◌∷◌, ◌++◌, map, Option, none, some,
  leb, ltb, ◌==◌, if◌then◌else◌, length, take, drop, all,
}
use mathlib.Core.List.{reverse}

abbrev pub Text : Type 0
Text = List ℕ

-- The bytes of an ASCII literal.
abbrev pub codes : String → Text
codes String.[] = []
codes (String.◌∷◌ c s) = code c ∷ codes s

-- s == t
unfoldable pub text_eq : Text → Text → Bool
text_eq [] [] = true
text_eq (a ∷ s) (b ∷ t) = a == b && text_eq s t
text_eq _ _ = false

-- s == ""
abbrev pub is_empty : Text → Bool
is_empty [] = true
is_empty (a ∷ s) = false

-- Whether a slice holds a string; also membership in a Go set of strings.
abbrev pub elem : Text → List Text → Bool
elem k [] = false
elem k (t ∷ ts) = text_eq t k || elem k ts

-- strings.HasPrefix(s, prefix)
unfoldable pub has_prefix : Text → Text → Bool
has_prefix s [] = true
has_prefix [] (b ∷ p) = false
has_prefix (a ∷ s) (b ∷ p) = a == b && has_prefix s p

-- strings.TrimPrefix
unfoldable pub trim_prefix : Text → Text → Text
unfolding has_prefix
trim_prefix s p = if has_prefix s p then drop (length p) s else s

-- strings.HasSuffix(s, suffix): len(s) >= len(suffix) && s[len(s)-len(suffix):] == suffix
unfoldable pub has_suffix : Text → Text → Bool
unfolding text_eq
has_suffix s p = leb (length p) (length s) && text_eq (drop (length s - length p) s) p

-- strings.TrimSuffix
unfoldable pub trim_suffix : Text → Text → Text
unfolding has_suffix
trim_suffix s p = if has_suffix s p then take (length s - length p) s else s

-- strings.Contains(s, sub)
unfoldable pub contains : Text → Text → Bool
unfolding has_prefix
contains [] sub = is_empty sub
contains (a ∷ s) sub = has_prefix (a ∷ s) sub || contains s sub

-- The first field of `split_on`, put in front.
abbrev pub glue : ℕ → List Text → List Text
glue a [] = (a ∷ []) ∷ []
glue a (t ∷ ts) = (a ∷ t) ∷ ts

-- strings.Split(s, sep) for a separator of one byte
unfoldable pub split_on : ℕ → Text → List Text
split_on sep [] = [] ∷ []
split_on sep (a ∷ s) = let rest = split_on sep s in if a == sep then [] ∷ rest else glue a rest

-- strings.Join(parts, sep)
unfoldable pub join : Text → List Text → Text
join sep [] = []
join sep (t ∷ []) = t
join sep (t ∷ u ∷ ts) = t ++ (sep ++ join sep (u ∷ ts))

-- strings.Cut(s, sep) for a separator of one byte; `none` where it does not occur
unfoldable pub cut : ℕ → Text → Option (Text × Text)
cut sep [] = none
cut sep (a ∷ s) =
    let rest : Option (Text × Text) = elim (cut sep s) [
      | none ↦ none
      | some (before, after) ↦ some (a ∷ before, after)
    ] in
    if a == sep then some ([], s) else rest

-- strings.ReplaceAll(s, old, new) for strings of one byte
unfoldable pub replace_byte : ℕ → ℕ → Text → Text
replace_byte old new s = map (λ c. if c == old then new else c) s

-- '\t', '\n', '\v', '\f', '\r', ' '
unfoldable pub is_space : ℕ → Bool
is_space c = c == 32 || (leb 9 c && leb c 13)

unfoldable pub drop_spaces : Text → Text
unfolding is_space
drop_spaces [] = []
drop_spaces (c ∷ s) = let rest = drop_spaces s in if is_space c then rest else c ∷ s

abbrev pub is_ascii : Text → Bool
is_ascii s = all (λ c. ltb c 128) s

unfoldable pub lower_byte : ℕ → ℕ
lower_byte c = if leb b'A' c && leb c b'Z' then c + 32 else c

unfoldable pub upper_byte : ℕ → ℕ
upper_byte c = if leb b'a' c && leb c b'z' then c - 32 else c

-- What Go's strings package does on text that is not ASCII, by the tables of package unicode.
pub record Unicode : Type 0 where
  pub lower : Text → Text
  pub upper : Text → Text
  pub trim : Text → Text
  pub fields : Text → List Text

-- strings.Fields, on ASCII text: the maximal runs of bytes that are no spaces
unfoldable pub ascii_fields : Text → Text → List Text
unfolding is_space
ascii_fields [] [] = []
ascii_fields (a ∷ word) [] = reverse (a ∷ word) ∷ []
ascii_fields word (c ∷ s) =
    let longer = ascii_fields (c ∷ word) s in
    let fresh = ascii_fields [] s in
    if is_space c then (if is_empty word then fresh else reverse word ∷ fresh) else longer

module _ (unicode : Unicode) where
  -- strings.ToLower, strings.ToUpper, strings.TrimSpace, strings.Fields
  unfoldable pub to_lower : Text → Text
  unfolding lower_byte
  to_lower s = if is_ascii s then map lower_byte s else unicode.lower s

  unfoldable pub to_upper : Text → Text
  unfolding upper_byte
  to_upper s = if is_ascii s then map upper_byte s else unicode.upper s

  unfoldable pub trim_space : Text → Text
  unfolding drop_spaces
  trim_space s =
      if is_ascii s then reverse (drop_spaces (reverse (drop_spaces s))) else unicode.trim s

  unfoldable pub fields : Text → List Text
  unfolding ascii_fields
  fields s = if is_ascii s then ascii_fields [] s else unicode.fields s

-- Tables for programs whose text is ASCII.
abbrev pub ascii_only : Unicode
ascii_only = record { lower = λ s. s; upper = λ s. s; trim = λ s. s; fields = λ s. s ∷ [] }
