-- ===== src/Number/RoundTrip.antt =====
-- Parsing what was formatted.
use vial_gateway.Prelude.{
  ℕ, zero, suc, ◌+◌, ◌-◌, ◌*◌, ◌/◌, ◌%◌, ◌^◌, ◌<◌, ◌≤◌, ◌≡◌, refl, ◌≢◌, false, [], ◌∷◌, Option,
  some, arith, Bool-cases, inl, inr, ltb, lt→ltb, ltb→lt, ap, sym, ◌∙◌, ◌==◌,
}
use vial_gateway.Prelude.Int.{pos}
use vial_gateway.Text.{Text}
use vial_gateway.Number.{digits, format_nat, format_int, value_from, parse_nat, parse_int}

value-digit :
    (acc d : ℕ) (rest : Text)
    → d < 10
    → value_from acc ((b'0' + d) ∷ rest) ≡ value_from (acc * 10 + d) rest
unfolding value_from
value-digit acc d rest h = let same : b'0' + d - b'0' ≡ d = omega arith in rw same (ground arith)

value-digits :
    (fuel n : ℕ) (rest : Text) → n < fuel → value_from 0 (digits fuel n rest) ≡ value_from n rest
unfolding digits
value-digits zero n rest h = elim h [ ]
value-digits (suc fuel) n rest h = elim (Bool-cases (ltb n 10)) [
  | inl last ↦
      rw last (value-digit 0 n rest (ltb→lt n 10 last) ∙ ap (λ t. value_from t rest) (omega arith))
  | inr more ↦ rw more (
      value-digits fuel (n / 10) ((b'0' + n % 10) ∷ rest) (ground arith)
      ∙ (value-digit (n / 10) (n % 10) rest (omega arith)
          ∙ ap (λ t. value_from t rest) (omega arith)))
]

-- The first byte is a digit.
digits-head :
    (fuel n : ℕ) (rest : Text)
    → n < fuel
    → (c : ℕ) × (s : Text) × (digits fuel n rest ≡ c ∷ s) × (b'0' ≤ c) × (c ≤ b'9')
unfolding digits
digits-head zero n rest h = elim h [ ]
digits-head (suc fuel) n rest h = elim (Bool-cases (ltb n 10)) [
  | inl last ↦ (b'0' + n, rest, rw last, omega arith, omega (arith, ltb→lt n 10 last))
  | inr more ↦
      let (c, s, e, low, high) =
        digits-head fuel (n / 10) ((b'0' + n % 10) ∷ rest) (ground arith) in
      (c, s, rw more e, low, high)
]

parse_nat-cons : (t : Text) → t ≢ [] → parse_nat t ≡ value_from 0 t
unfolding parse_nat
parse_nat-cons [] h = absurd (h refl)
parse_nat-cons (c ∷ s) h = refl

parse_nat-format_nat : (n : ℕ) → parse_nat (format_nat n) ≡ some n
unfolding format_nat
parse_nat-format_nat n =
    let (c, s, e, low, high) = digits-head (suc n) n [] (omega arith) in
    parse_nat-cons (digits (suc n) n []) (λ z. cc (z, e))
    ∙ (value-digits (suc n) n [] (omega arith) ∙ value-end n)
  where
    value-end : (k : ℕ) → value_from k [] ≡ some k
    value-end k = unfold value_from in refl

parse_int-digit :
    (c : ℕ) (s : Text) (n : ℕ)
    → b'0' ≤ c
    → c ≤ b'9'
    → n < 2 ^ 63
    → parse_nat (c ∷ s) ≡ some n
    → parse_int (c ∷ s) ≡ some (pos n)
unfolding parse_int
parse_int-digit c s n low high small e =
    let minus : (c == b'-') ≡ false = ground arith in
    let plus : (c == b'+') ≡ false = ground arith in
    rw (minus, plus, e) (rw (lt→ltb n (2 ^ 63) small))

-- A number that is no less than 0 and fits 64 bits comes back from its decimal text.
pub parse_int-format_int : (n : ℕ) → n < 2 ^ 63 → parse_int (format_int (pos n)) ≡ some (pos n)
unfolding format_int
parse_int-format_int n small =
    let (c, s, e, low, high) = head n in
    rw e (parse_int-digit c s n low high small (ap parse_nat (sym e) ∙ parse_nat-format_nat n))
  where
    head : (k : ℕ) → (c : ℕ) × (s : Text) × (format_nat k ≡ c ∷ s) × (b'0' ≤ c) × (c ≤ b'9')
    head k = unfold format_nat in digits-head (suc k) k [] (omega arith)

-- Decimal texts of different numbers differ.
pub format_int-injective : (m n : ℕ) → format_int (pos m) ≡ format_int (pos n) → m ≡ n
unfolding format_int
format_int-injective m n e =
    let both : ◌≡◌ {A = Option ℕ} (some m) (some n) =
      sym (parse_nat-format_nat m) ∙ (ap parse_nat e ∙ parse_nat-format_nat n) in
    cc both

-- The text of a number that is no less than 0 begins with a digit.
pub format_int-head :
    (n : ℕ) → (c : ℕ) × (s : Text) × (format_int (pos n) ≡ c ∷ s) × (b'0' ≤ c) × (c ≤ b'9')
unfolding format_int format_nat
format_int-head n = digits-head (suc n) n [] (omega arith)
