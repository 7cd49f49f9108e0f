-- ===== src/Hex.antt =====
-- Hexadecimal text: encoding/hex and hashBytes of cmd/gateway/config.go.
pub mod RoundTrip
use vial_gateway.Prelude.{
  ℕ, ◌+◌, ◌-◌, ◌*◌, ◌/◌, ◌%◌, Bool, ◌&&◌, List, [], ◌∷◌, Option, none, some, leb, ltb, ◌==◌,
  if◌then◌else◌, length,
}
use vial_gateway.Text.{Text}

-- The digit of a value below 16.
unfoldable pub hex_digit : ℕ → ℕ
hex_digit n = if ltb n 10 then b'0' + n else b'a' + (n - 10)

-- The value of a digit, in either case.
unfoldable pub hex_value : ℕ → Option ℕ
hex_value c =
    if leb b'0' c && leb c b'9'
    then some (c - b'0')
    else if leb b'a' c && leb c b'f'
    then some (c - b'a' + 10)
    else if leb b'A' c && leb c b'F'
    then some (c - b'A' + 10)
    else none

-- hex.EncodeToString
unfoldable pub hex_encode : List ℕ → Text
unfolding hex_digit
hex_encode [] = []
hex_encode (b ∷ bytes) = hex_digit (b / 16) ∷ (hex_digit (b % 16) ∷ hex_encode bytes)

infixl 5 ◌>>=◌
abbrev ◌>>=◌ {ℓ κ} : {A : Type ℓ} {B : Type κ} → Option A → (A → Option B) → Option B
none >>= k = none
some a >>= k = k a

-- hex.DecodeString; `none` is an error
unfoldable pub hex_decode : Text → Option (List ℕ)
unfolding hex_value
hex_decode [] = some []
hex_decode (c ∷ []) = none
hex_decode (c ∷ d ∷ s) = do
  high ← hex_value c
  low ← hex_value d
  rest ← hex_decode s
  some ((high * 16 + low) ∷ rest)

-- hashBytes: 32 bytes
unfoldable pub hash_bytes : Text → Option (List ℕ)
unfolding hex_decode
hash_bytes value = do
  decoded ← hex_decode value
  if length decoded == 32 then some decoded else none
