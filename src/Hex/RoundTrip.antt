-- ===== src/Hex/RoundTrip.antt =====
-- Decoding what was encoded.
use vial_gateway.Prelude.{
  ℕ, ◌/◌, ◌%◌, ◌<◌, ◌≡◌, refl, List, [], ◌∷◌, some, arith, Option, sym, ◌∙◌, length, All, ap,
}
use vial_gateway.Hex.{hex_digit, hex_value, hex_encode, hex_decode, hash_bytes}

value-digit : (n : ℕ) → n < 16 → hex_value (hex_digit n) ≡ some n
unfolding hex_value hex_digit
value-digit n h = ground arith

-- Bytes come back from their encoding.
pub decode-encode :
    (bytes : List ℕ) → All (λ b. b < 256) bytes → hex_decode (hex_encode bytes) ≡ some bytes
unfolding hex_decode hex_encode
decode-encode [] h = refl
decode-encode (b ∷ bytes) (small, h) =
    rw
      (
        value-digit (b / 16) (omega arith),
        value-digit (b % 16) (omega arith),
        decode-encode bytes h,
      )
      (ap (λ t. some (t ∷ bytes)) (omega arith))

some-eq : (a b : List ℕ) → ◌≡◌ {A = Option (List ℕ)} (some a) (some b) → a ≡ b
some-eq a b e = cc

-- Equal encodings are of equal bytes.
pub encode-injective :
    (a b : List ℕ)
    → All (λ x. x < 256) a
    → All (λ x. x < 256) b
    → hex_encode a ≡ hex_encode b
    → a ≡ b
encode-injective a b small small' e =
    some-eq a b (sym (decode-encode a small) ∙ (ap hex_decode e ∙ decode-encode b small'))

-- A digest of 32 bytes comes back from the text by which it is stored.
hash_bytes-encode :
    (digest : List ℕ)
    → All (λ b. b < 256) digest
    → length digest ≡ 32
    → hash_bytes (hex_encode digest) ≡ some digest
unfolding hash_bytes
hash_bytes-encode digest small long = rw (decode-encode digest small) (rw long)
