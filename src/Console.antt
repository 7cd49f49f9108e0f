-- ===== src/Console.antt =====
-- The control plane's mux: newControlPlane and ServeHTTP of cmd/gateway/control.go. `pick` is the pattern
-- that http.ServeMux finds for a request; a handler is named by its `Action`.
pub mod Mediation
pub mod Status
pub mod Tally
pub mod Counts
pub mod Statistics
pub mod Finite
use vial_gateway.Prelude.{Bool, true, false, List, [], ◌∷◌, Option, none, some, map, if◌then◌else◌}
use vial_gateway.Text.{Text, codes}
use vial_gateway.Std.{Std}
use vial_gateway.Dict.{lookup}
use vial_gateway.Config.Types.{AdminConfig}
use vial_gateway.Store.{Store}
use vial_gateway.Control.{Calls}
use vial_gateway.Auth.{AdminIdentity}
use vial_gateway.Session.{SessionCodec, Page, Visit, Guarded, denied, passed, protect}

pub data Action : Type 0 where
  css js login callback dashboard logout status statistics : Action
  validate_config create_config list_configs get_config delete_config : Action
  -- activateConfig with its argument
  activate_config : Text → Action
  list_api_keys create_api_key revoke_api_key invalidate_cache list_audit : Action

-- An action, and whether protect stands before it.
pub record Entry : Type 0 where
  pub guarded : Bool
  pub action : Action

abbrev bare : Action → Entry
bare a = record { guarded = false; action = a }

abbrev guard : Action → Entry
guard a = record { guarded = true; action = a }

unfoldable pub entries : List (Text × Entry)
entries =
    (codes "GET /admin/assets/app.css", bare css)
    ∷ (codes "GET /admin/assets/app.js", bare js)
    ∷ (codes "GET /admin/login", bare login)
    ∷ (codes "GET /admin/callback", bare callback)
    ∷ (codes "GET /admin", guard dashboard)
    ∷ (codes "POST /admin/logout", guard logout)
    ∷ (codes "GET /admin/v1/status", guard status)
    ∷ (codes "GET /admin/v1/statistics", guard statistics)
    ∷ (codes "POST /admin/v1/configs/validate", guard validate_config)
    ∷ (codes "POST /admin/v1/configs", guard create_config)
    ∷ (codes "GET /admin/v1/configs", guard list_configs)
    ∷ (codes "GET /admin/v1/configs/{version}", guard get_config)
    ∷ (codes "DELETE /admin/v1/configs/{version}", guard delete_config)
    ∷ (
      codes "POST /admin/v1/configs/{version}/activate",
      guard (activate_config (codes "activate")),
    )
    ∷ (
      codes "POST /admin/v1/configs/{version}/rollback",
      guard (activate_config (codes "rollback")),
    )
    ∷ (codes "GET /admin/v1/api-keys", guard list_api_keys)
    ∷ (codes "POST /admin/v1/api-keys", guard create_api_key)
    ∷ (codes "DELETE /admin/v1/api-keys/{id}", guard revoke_api_key)
    ∷ (codes "POST /admin/v1/cache/invalidate", guard invalidate_cache)
    ∷ (codes "GET /admin/v1/audit", guard list_audit)
    ∷ []

pub data Dispatched : Type 0 where
  -- the mux has no pattern for the request, or protect answers it
  unmatched : Dispatched
  answered : Page → Dispatched
  -- an action runs, for the identity that protect gives it
  reached : Action → Option AdminIdentity → Dispatched

module _ (std : Std) (codec : SessionCodec) (admin : AdminConfig) where
  abbrev pub behind : Action → Guarded → Dispatched
  behind action (denied page) = answered page
  behind action (passed identity) = reached action (some identity)

  abbrev pub entered : Calls → Store → Visit → Option Entry → Dispatched
  entered c s v none = unmatched
  entered c s v (some e) =
      if e.guarded then behind e.action (protect std codec admin c s v) else reached e.action none

  -- ServeHTTP
  unfoldable pub dispatch : (List Text → Visit → Option Text) → Calls → Store → Visit → Dispatched
  dispatch pick c s v = elim (pick (map (λ e. e.0) entries) v) [
    | none ↦ unmatched
    | some pattern ↦ entered c s v (lookup pattern entries)
  ]
