-- ===== src/Control.antt =====
-- The configuration handlers of the control plane: validateConfig, createConfig, getConfig,
-- deleteConfig and activateConfig of cmd/gateway/control.go and admin_ui.go. Each is one function
-- from the store and the manager to those after the request, and the response.
pub mod Versions
pub mod Activation
pub mod Sound
pub mod Boot
pub mod Catchup
pub mod Watch
pub mod Lists
use vial_gateway.Prelude.{
  ℕ, Bool, true, false, not, ◌&&◌, ◌||◌, List, [], ◌∷◌, ◌++◌, Option, none, some, if◌then◌else◌,
  Result, ok, err, ◌>>=◌, ◌>>◌, refuse_if, ◌==◌,
}
use mathlib.Core.List.{reverse}
use vial_gateway.Prelude.Int.{ℤ, pos, not_pos}
use vial_gateway.Text.{Text, codes, text_eq, is_empty}
use vial_gateway.Number.{format_int, parse_int}
use vial_gateway.Dict.{or_empty}
use vial_gateway.Config.Types.{GatewayConfig, Json, number, boolean}
use vial_gateway.Config.Routes.{validate_gateway}
use vial_gateway.Manager.{Host, Manager, CompileError, activate, validate, valid_or}
use vial_gateway.Store.{Store, AuditEntry, config_key, active_config_key, put, delete, set_nx, log}

-- writeFault with its status and code, writeJSON with its status and members, and stored bytes.
pub data Response : Type 0 where
  fault : ℕ → Text → Response
  json : ℕ → List (Text × Json) → Response
  raw : Text → Response

-- encoding/json on a configuration: Marshal, and Unmarshal of what is stored.
pub record Codec : Type 0 where
  pub encode : GatewayConfig → Text
  pub decode : Text → Option GatewayConfig

-- How an EXEC ends: a watched key that changed fails it.
pub data Exec : Type 0 where
  committed conflicted lost : Exec

-- Which of a handler's Redis commands answer, in their order, and the time of the audit entry.
pub record Calls : Type 0 where
  pub first : Bool
  pub second : Bool
  pub third : Bool
  pub exec : Exec
  pub logged : Bool
  pub now : Text
  pub trim : List AuditEntry → List AuditEntry

abbrev entry : Calls → Text → Text → Text → AuditEntry
entry c actor action target = record { at = c.now; actor = actor; action = action; target = target }

abbrev pub audited : Calls → Text → Text → Text → Store → Store
audited c actor action target s = log c.logged c.trim (entry c actor action target) s

abbrev pub unavailable : Response
unavailable = fault 503 (codes "control_unavailable")

abbrev invalid_config : Response
invalid_config = fault 422 (codes "invalid_config")

abbrev invalid_version : Response
invalid_version = fault 400 (codes "invalid_version")

abbrev not_found : Response
not_found = fault 404 (codes "version_not_found")

abbrev version_json : ℤ → Text × Json
version_json v = (codes "version", number (format_int v))

-- strconv.ParseInt of the path's version; `none` where it fails or is below 1
unfoldable pub version_of : Text → Option ℤ
version_of path_value = elim (parse_int path_value) [
  | none ↦ none
  | some v ↦ if not_pos v then none else some v
]

-- strings.Trim(s, `"`)
unfoldable pub drop_quotes : Text → Text
drop_quotes [] = []
drop_quotes (c ∷ s) = let rest = drop_quotes s in if c == b'"' then rest else c ∷ s

unfoldable pub trim_quotes : Text → Text
trim_quotes s = reverse (drop_quotes (reverse (drop_quotes s)))

-- Why a transaction did not commit.
pub data TxError : Type 0 where
  config_active config_not_found version_conflict tx_failed redis_error : TxError

unfoldable pub finish : Exec → Store → Result TxError Store
finish committed s = ok s
finish conflicted s = err tx_failed
finish lost s = err redis_error

-- The transaction of deleteConfig, on the store that its EXEC meets.
unfoldable pub delete_tx : Calls → ℤ → Store → Result TxError Store
unfolding finish
delete_tx c version s = do
  refuse_if (not c.first) redis_error
  refuse_if (text_eq (or_empty (s.strings active_config_key)) (format_int version)) config_active
  refuse_if (not c.second) redis_error
  elim (s.strings (config_key version)) [
    | none ↦ err config_not_found
    | some stored ↦ finish c.exec (delete (config_key version) s)
  ]

-- The switch on its error.
abbrev pub delete_fault : TxError → Response
delete_fault config_active = fault 409 (codes "config_active")
delete_fault config_not_found = not_found
delete_fault tx_failed = fault 409 (codes "version_conflict")
delete_fault version_conflict = unavailable
delete_fault redis_error = unavailable

unfoldable pub delete_config : Calls → Text → Text → Store → Store × Response
delete_config c actor path_value s = elim (version_of path_value) [
  | none ↦ (s, invalid_version)
  | some version ↦ elim (delete_tx c version s) [
    | err e ↦ (s, delete_fault e)
    | ok t ↦ (
      audited c actor (codes "config.delete") (format_int version) t,
      json 200 ((codes "deleted", boolean true) ∷ version_json version ∷ []),
    )
  ]
]

-- getConfig: err == nil, redis.Nil, any other error
unfoldable pub get_config : Calls → Text → Store → Response
get_config c path_value s = elim (version_of path_value) [
  | none ↦ invalid_version
  | some version ↦
      if c.first
      then elim (s.strings (config_key version)) [ none ↦ not_found | some stored ↦ raw stored ]
      else unavailable
]

-- The transaction of activateConfig, on the store that its EXEC meets. An EXEC whose answer is lost is
-- taken as not applied; in Redis it may have been, and the gateway then answers with an error and does not
-- activate what is stored as active.
unfoldable pub activate_tx : Calls → ℤ → Text → Store → Result TxError Store
unfolding finish
activate_tx c version expected s = do
  refuse_if (not c.second) redis_error
  refuse_if (not (text_eq (or_empty (s.strings active_config_key)) expected)) version_conflict
  refuse_if (not c.third) redis_error
  elim (s.strings (config_key version)) [
    | none ↦ err config_not_found
    | some stored ↦
        let t = put active_config_key (format_int version) s in
        finish c.exec (record t { published = format_int version ∷ s.published })
  ]

abbrev pub activate_fault : TxError → Response
activate_fault config_not_found = not_found
activate_fault version_conflict = fault 409 (codes "version_conflict")
activate_fault tx_failed = fault 409 (codes "version_conflict")
activate_fault config_active = unavailable
activate_fault redis_error = unavailable

module _ {B : Type 0} (host : Host B) (codec : Codec) where
  -- validateGatewayConfig
  unfoldable pub validate_gateway_config :
      Manager B → GatewayConfig → Result CompileError (Unit {0})
  validate_gateway_config m g = do
    valid_or host (validate_gateway host.std m.environment false g)
    validate host m g

  -- `body` is what decodeGatewayConfig makes of the request; `none` has its fault written already.
  unfoldable pub validate_config : Manager B → Option GatewayConfig → Response
  validate_config m none = fault 400 (codes "invalid_json")
  validate_config m (some g) = elim (validate_gateway_config m g) [
    | err e ↦ invalid_config
    | ok u ↦ json 200 ((codes "valid", boolean true) ∷ version_json g.version ∷ [])
  ]

  abbrev pub created : Calls → Text → ℤ → Store × Bool → Store × Response
  created c actor version (s, false) = (s, fault 409 (codes "version_exists"))
  created c actor version (s, true) = (
    audited c actor (codes "config.create") (format_int version) s,
    json 201 (version_json version ∷ []),
  )

  unfoldable pub create_config :
      Calls → Manager B → Text → Option GatewayConfig → Store → Store × Response
  create_config c m actor none s = (s, fault 400 (codes "invalid_json"))
  create_config c m actor (some g) s = elim (validate_gateway_config m g) [
    | err e ↦ (s, invalid_config)
    | ok u ↦
        if c.first
        then created c actor g.version (set_nx (config_key g.version) (codec.encode g) s)
        else (s, unavailable)
  ]

  -- What follows the commit: the manager activates the configuration too.
  abbrev pub activated :
      Calls
      → Text
      → Text
      → ℤ
      → Manager B × Result CompileError (Unit {0})
      → Store
      → Store × Manager B × Response
  activated c actor action version (m, err e) s = (s, m, invalid_config)
  activated c actor action version (m, ok u) s = (
    audited c actor action (format_int version) s,
    record m { redis_version = version },
    json 200 ((codes "active", number (format_int version)) ∷ []),
  )

  unfoldable pub commit_config :
      Calls
      → Text
      → Text
      → ℤ
      → Text
      → GatewayConfig
      → Store
      → Manager B
      → Store × Manager B × Response
  commit_config c actor action version expected g s m = elim (activate_tx c version expected s) [
    | err e ↦ (s, m, activate_fault e)
    | ok t ↦ activated c actor action version (activate host m g) t
  ]

  -- activateConfig(action): the version is read from the store as it is at `seen`, and the transaction
  -- meets the store `s`, which other clients may have changed since.
  unfoldable pub activate_config :
      Calls → Text → Text → Text → Text → Store → Store → Manager B → Store × Manager B × Response
  activate_config c actor action path_value if_match seen s m = elim (version_of path_value) [
    | none ↦ (s, m, invalid_version)
    | some version ↦
        let expected = trim_quotes if_match in
        if is_empty expected
        then (s, m, fault 428 (codes "version_required"))
        else if not c.first
        then (s, m, unavailable)
        else elim (seen.strings (config_key version)) [
          | none ↦ (s, m, not_found)
          | some bytes ↦ elim (codec.decode bytes) [
            | none ↦ (s, m, invalid_config)
            | some g ↦ elim (validate_gateway_config m g) [
              | err e ↦ (s, m, invalid_config)
              | ok u ↦ commit_config c actor action version expected g s m
            ]
          ]
        ]
  ]
