-- ===== src/Store/Writes.antt =====
-- What a write to one key of the store leaves of the others.
use vial_gateway.Prelude.{◌≡◌, refl, ◌≢◌, Option, Bool-cases, inl, inr}
use vial_gateway.Text.{Text, text_eq}
use vial_gateway.Text.Equality.{text_eq_iff}
use vial_gateway.Store.{write}

pub write-same : (key : Text) (v : Option Text) (f : Text → Option Text) → write key v f key ≡ v
write-same key v f = rw ((text_eq_iff key key).1 refl)

pub write-other :
    (key k : Text) (v : Option Text) (f : Text → Option Text) → key ≢ k → write key v f k ≡ f k
write-other key k v f apart = elim (Bool-cases (text_eq key k)) [
  | inl same ↦ absurd (apart ((text_eq_iff key k).0 same))
  | inr different ↦ rw different
]
