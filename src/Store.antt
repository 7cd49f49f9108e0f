-- ===== src/Store.antt =====
-- What the gateways keep in Redis: configuration versions and the active one, API keys and sessions,
-- and the audit stream. Keys are as in cmd/gateway/control.go; a command either answers or fails.
pub mod Keys
pub mod Writes
pub mod Register
use vial_gateway.Prelude.{
  ℕ, Bool, true, false, List, [], ◌∷◌, ◌++◌, Option, none, some, if◌then◌else◌,
}
use vial_gateway.Prelude.Int.{ℤ}
use vial_gateway.Text.{Text, codes, text_eq}
use vial_gateway.Number.{format_int}

pub record AuditEntry : Type 0 where
  pub at : Text
  pub actor : Text
  pub action : Text
  pub target : Text

pub record Store : Type 0 where
  -- string values, and hashes
  pub strings : Text → Option Text
  pub hashes : Text → Option (List (Text × Text))
  -- newest first
  pub audit : List AuditEntry
  -- what was published on the activation topic, newest first
  pub published : List Text

abbrev pub config_key_prefix : Text
config_key_prefix = codes "vial-gateway:config:"

abbrev pub active_config_key : Text
active_config_key = codes "vial-gateway:config:active"

unfoldable pub config_key : ℤ → Text
config_key version = config_key_prefix ++ format_int version

module _ {ℓ} {V : Type ℓ} where
  abbrev pub write : Text → Option V → (Text → Option V) → Text → Option V
  write key v f k = if text_eq key k then v else f k

-- SET key value, DEL key, and SETNX key value with its answer
unfoldable pub put : Text → Text → Store → Store
put key value s = record s { strings = write key (some value) s.strings }

unfoldable pub delete : Text → Store → Store
delete key s = record s { strings = write key none s.strings }

unfoldable pub set_nx : Text → Text → Store → Store × Bool
unfolding put
set_nx key value s = elim (s.strings key) [ some old ↦ (s, false) | none ↦ (put key value s, true) ]

-- audit: XADD; where it fails the error is logged only. Redis trims the stream near 10000 entries.
unfoldable pub log : Bool → (List AuditEntry → List AuditEntry) → AuditEntry → Store → Store
log answered trim entry s = if answered then record s { audit = trim (entry ∷ s.audit) } else s
