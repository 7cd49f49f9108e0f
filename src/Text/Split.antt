-- ===== src/Text/Split.antt =====
-- Splitting text at a byte.
use vial_gateway.Prelude.{ℕ, ◌≡◌, ◌≢◌, [], ◌∷◌, ◌++◌, arith, All}
use vial_gateway.Text.{Text, split_on}

-- The text up to the first separator is the first field.
pub split_on-append :
    (sep : ℕ) (s rest : Text)
    → All (λ c. c ≢ sep) s
    → split_on sep (s ++ (sep ∷ rest)) ≡ s ∷ split_on sep rest
unfolding split_on
split_on-append sep [] rest h = ground arith
split_on-append sep (c ∷ s) rest (other, h) = ground (arith, split_on-append sep s rest h)
