-- ===== src/Store/Keys.antt =====
-- The keys of different versions differ, and none of them is the key of the active version.
use vial_gateway.Prelude.{ℕ, ◌≡◌, ◌≢◌, [], ◌∷◌, ◌++◌, arith, sym, ◌∙◌}
use vial_gateway.Prelude.Int.{ℤ, pos}
use vial_gateway.Text.{Text, codes}
use vial_gateway.Number.{format_int}
use vial_gateway.Number.RoundTrip.{format_int-injective, format_int-head}
use vial_gateway.Store.{config_key, config_key_prefix, active_config_key}

pub append_cancel : (s u v : Text) → s ++ u ≡ s ++ v → u ≡ v
append_cancel [] u v e = e
append_cancel (a ∷ s) u v e = append_cancel s u v (cc)

pub config_key-format : (v w : ℤ) → config_key v ≡ config_key w → format_int v ≡ format_int w
unfolding config_key
config_key-format v w e = append_cancel config_key_prefix _ _ e

-- Two versions whose keys are equal are equal.
pub config_key-injective : (m n : ℕ) → config_key (pos m) ≡ config_key (pos n) → m ≡ n
config_key-injective m n e = format_int-injective m n (config_key-format (pos m) (pos n) e)

pub config_key-ne-active : (n : ℕ) → config_key (pos n) ≢ active_config_key
unfolding config_key
config_key-ne-active n e =
    let (c, s, head, low, high) = format_int-head n in
    let same : c ∷ s ≡ codes "active" =
      sym head ∙ append_cancel config_key_prefix (format_int (pos n)) (codes "active") e in
    let letter : c ≡ b'a' = cc same in omega arith
