-- ===== src/Auth.antt =====
-- Who a request is from: authenticate of a route (cmd/gateway/app.go), and authenticate, createAPIKey
-- and revokeAPIKey of the control plane (cmd/gateway/control.go). JWTs are verified by `verify_jwt`.
pub mod Keys
pub mod Jwt
pub mod Shown
use vial_gateway.Prelude.{
  ℕ, Bool, true, false, not, ◌&&◌, ◌||◌, List, [], ◌∷◌, ◌++◌, Option, none, some, if◌then◌else◌,
}
use vial_gateway.Text.{Text, codes, text_eq, is_empty, trim_space, trim_prefix, has_prefix, join}
use vial_gateway.Dict.{lookup, insert, or_empty, or_false}
use vial_gateway.Std.{Std}
use vial_gateway.Hex.{hex_encode, hash_bytes}
use vial_gateway.Scopes.{ScopeSet, scope_set, split_space}
use vial_gateway.Header.{Header}
use vial_gateway.Header
use vial_gateway.Route.{Principal, CompiledAuth}
use vial_gateway.Config.Types.{Json, Items, nil, cons, text, array, boolean}
use vial_gateway.RateLimit.Request.{Link, absent, down, up, sha256_text}
use vial_gateway.Store.{Store, write}
use vial_gateway.Control.{Calls, Response, fault, json, audited, unavailable}

abbrev pub api_key_header : Text
api_key_header = codes "X-API-Key"

abbrev pub key_prefix : Text
key_prefix = codes "vial-gateway:apikey:"

-- HGETALL: no fields where the key is missing
abbrev pub fields_at : Store → Text → List (Text × Text)
fields_at s key = elim (s.hashes key) [ none ↦ [] | some fs ↦ fs ]

abbrev pub field : Text → List (Text × Text) → Text
field name fs = or_empty (lookup name fs)

abbrev pub is_revoked : List (Text × Text) → Bool
is_revoked fs = text_eq (field (codes "revoked") fs) (codes "1")

module _ (std : Std) where
  -- The principal of a key that Redis holds.
  unfoldable pub stored_principal : List (Text × Text) → Option Principal
  stored_principal fs =
      if not (is_revoked fs) && not (is_empty (field (codes "name") fs))
      then some (record {
        id = field (codes "name") fs;
        scopes = scope_set (split_space std.unicode (field (codes "scopes") fs));
      })
      else none

  abbrev redis_principal : Link → Store → Text → Option Principal
  redis_principal up s key = stored_principal (fields_at s key)
  redis_principal down s key = none
  redis_principal absent s key = none

  abbrev pub anonymous_principal : Principal
  anonymous_principal = record { id = codes "anonymous"; scopes = [] }

  -- The API key of a request: the configured keys first, then those in Redis.
  unfoldable pub key_principal : CompiledAuth → Link → Store → Text → Option Principal
  key_principal auth link s value =
      let hash = std.sha256 value in
      let stored = redis_principal link s (key_prefix ++ hex_encode hash) in
      if is_empty value
      then none
      else elim (lookup hash auth.keys) [ some identity ↦ some identity | none ↦ stored ]

  -- authenticate of a route; `none` is an error, answered by 401
  unfoldable pub authenticate :
      (Text → Option Principal) → Option CompiledAuth → Link → Store → Header → Option Principal
  authenticate verify_jwt none link s h = some anonymous_principal
  authenticate verify_jwt (some auth) link s h =
      let value =
        trim_space std.unicode
          (trim_prefix (Header.get h (codes "Authorization")) (codes "Bearer ")) in
      if text_eq auth.policy.type (codes "none")
      then some anonymous_principal
      else if text_eq auth.policy.type (codes "api_key")
      then key_principal auth link s (Header.get h api_key_header)
      else if is_empty value
      then none
      else verify_jwt value

-- A session, or a login that is pending, which has a state and a verifier only.
pub record AdminSession : Type 0 where
  pub subject : Text
  pub scopes : List Text
  pub csrf : Text
  pub state : Text
  pub verifier : Text

pub record AdminIdentity : Type 0 where
  pub subject : Text
  pub csrf : Text
  pub session : Bool

abbrev admin_scope : Text
admin_scope = codes "gateway.admin"

abbrev pub is_admin : ScopeSet → Bool
is_admin scopes = or_false (lookup admin_scope scopes)

abbrev pub session_prefix : Text
session_prefix = codes "vial-gateway:session:"

module _ (std : Std) (decode_session : Text → Option AdminSession) where
  -- secret, from either header
  unfoldable pub admin_secret : Header → Text
  admin_secret h =
      let value = Header.get h (codes "Authorization") in
      if not (is_empty (Header.get h api_key_header))
      then Header.get h api_key_header
      else if has_prefix value (codes "Bearer ")
      then trim_space std.unicode (trim_prefix value (codes "Bearer "))
      else []

  abbrev same_digest : Text → Option (List ℕ) → Bool
  same_digest secret none = false
  same_digest secret (some expected) = text_eq (std.sha256 secret) expected

  unfoldable pub secret_identity : Text → Calls → Store → Text → Option AdminIdentity
  secret_identity bootstrap c s secret =
      let fs = fields_at s (key_prefix ++ hex_encode (std.sha256 secret)) in
      let admin = is_admin (scope_set (split_space std.unicode (field (codes "scopes") fs))) in
      if same_digest secret (hash_bytes bootstrap)
      then some (record { subject = codes "bootstrap"; csrf = []; session = false })
      else if c.first && (not (is_revoked fs) && admin)
      then some (record { subject = field (codes "name") fs; csrf = []; session = false })
      else none

  -- The session that the cookie names; `none` is a missing cookie.
  unfoldable pub session_identity : Calls → Store → Option Text → Option AdminIdentity
  session_identity c s none = none
  session_identity c s (some cookie) =
      if not c.second then none else elim (s.strings (session_prefix ++ cookie)) [
        | none ↦ none
        | some bytes ↦ elim (decode_session bytes) [
          | none ↦ none
          | some session ↦
              if is_admin (scope_set session.scopes)
              then some (record { subject = session.subject; csrf = session.csrf; session = true })
              else none
        ]
      ]

  -- authenticate of the control plane
  unfoldable pub admin_authenticate :
      Text → Calls → Store → Header → Option Text → Option AdminIdentity
  admin_authenticate bootstrap c s h cookie =
      let by_session = session_identity c s cookie in
      if is_empty (admin_secret h)
      then by_session
      else elim (secret_identity bootstrap c s (admin_secret h)) [
        | some identity ↦ some identity
        | none ↦ by_session
      ]

-- HSET: each field, and the others as they were
unfoldable pub set_fields : List (Text × Text) → List (Text × Text) → List (Text × Text)
set_fields [] fs = fs
set_fields ((name, value) ∷ rest) fs = set_fields rest (insert name value fs)

unfoldable pub hset : Text → List (Text × Text) → Store → Store
unfolding set_fields
hset key values s = record s {
  hashes = write key (some (set_fields values (fields_at s key))) s.hashes;
}

abbrev items : List Text → Items
items [] = nil
items (t ∷ ts) = cons (text t) (items ts)

abbrev secret_mark : Text
secret_mark = codes "vgk_"

module _ (std : Std) where
  abbrev key_values : Calls → Text → List Text → List (Text × Text)
  key_values c name scopes =
      (codes "name", name)
      ∷ (codes "scopes", join (32 ∷ []) scopes)
      ∷ (codes "revoked", codes "0")
      ∷ (codes "created_at", c.now)
      ∷ []

  -- `body` is the decoded request, and `token` what randomToken(32) gives.
  unfoldable pub create_api_key :
      Calls → Text → Option (Text × List Text) → Option Text → Store → Store × Response
  create_api_key c actor none token s = (s, fault 400 (codes "invalid_json"))
  create_api_key c actor (some (name, [])) token s = (s, fault 422 (codes "invalid_api_key"))
  create_api_key c actor (some (name, scope ∷ scopes)) none s =
      if is_empty (trim_space std.unicode name)
      then (s, fault 422 (codes "invalid_api_key"))
      else (s, fault 500 (codes "random_failed"))
  create_api_key c actor (some (name, scope ∷ scopes)) (some token) s =
      let secret = secret_mark ++ token in
      let id = sha256_text std secret in
      if is_empty (trim_space std.unicode name)
      then (s, fault 422 (codes "invalid_api_key"))
      else if not c.first
      then (s, unavailable)
      else (
        audited c actor (codes "apikey.create") id
            (hset (key_prefix ++ id) (key_values c name (scope ∷ scopes)) s),
        json 201 (
            (codes "id", text id)
            ∷ (codes "api_key", text secret)
            ∷ (codes "name", text name)
            ∷ (codes "scopes", array (items (scope ∷ scopes)))
            ∷ []),
      )

-- The number of fields that HSET adds is never negative.
unfoldable pub revoke_api_key : Calls → Text → Text → Store → Store × Response
revoke_api_key c actor id s = elim (hash_bytes id) [
  | none ↦ (s, fault 400 (codes "invalid_api_key"))
  | some digest ↦ if not c.first then (s, unavailable) else elim (s.hashes (key_prefix ++ id)) [
    | none ↦ (s, fault 404 (codes "api_key_not_found"))
    | some old ↦ if not c.second then (s, unavailable) else (
      audited c actor (codes "apikey.revoke") id (
          hset (key_prefix ++ id) ((codes "revoked", codes "1") ∷ (codes "revoked_at", c.now) ∷ [])
            s),
      json 200 ((codes "revoked", boolean true) ∷ (codes "id", text id) ∷ []),
    )
  ]
]
