-- ===== src/Control/Lists.antt =====
-- What the control plane lists: listConfigs of cmd/gateway/control.go, and listAudit of
-- cmd/gateway/admin_ui.go. A SCAN is the pages of keys that Redis gives, `none` where it fails.
pub mod Sorted
use vial_gateway.Prelude.{
  ℕ, zero, suc, ◌+◌, ◌-◌, ◌^◌, ◌≤◌, ◌<◌, ◌≡◌, refl, Bool, true, false, not, ◌&&◌, ◌||◌, List, [],
  ◌∷◌, ◌++◌, map, Option, none, some, if◌then◌else◌, Result, ok, err, leb, ltb, length, take, All,
  arith, Bool-cases, Option-cases, inl, inr, ap, sym, ◌∙◌, length-append,
}
use vial_gateway.Prelude.Int.{ℤ, pos, leb_ℤ, pos_part}
use vial_gateway.Text.{Text, codes, text_eq, is_empty, split_on, trim_prefix}
use vial_gateway.Number.{format_int, parse_int, parse_nat}
use vial_gateway.Dict.{or_empty}
use vial_gateway.Config.Types.{Json, Items, nil, cons, Members, number, text, array}
use vial_gateway.Store.{Store, AuditEntry, config_key_prefix, active_config_key}
use vial_gateway.Control.{Calls, Response, fault, json, unavailable}

-- The keys of a SCAN whose pages are all given.
unfoldable pub scanned : List (Option (List Text)) → Option (List Text)
scanned [] = some []
scanned (none ∷ pages) = none
scanned (some keys ∷ pages) = elim (scanned pages) [ none ↦ none | some rest ↦ some (keys ++ rest) ]

-- strconv.ParseInt of the keys' ends; a key that has no number is left out
unfoldable pub versions_of : List Text → List ℤ
versions_of [] = []
versions_of (key ∷ keys) =
    let rest = versions_of keys in
    elim (parse_int (trim_prefix key config_key_prefix)) [ none ↦ rest | some v ↦ v ∷ rest ]

-- sort.Slice, downwards
unfoldable pub place : ℤ → List ℤ → List ℤ
place v [] = v ∷ []
place v (w ∷ ws) = let rest = place v ws in if leb_ℤ w v then v ∷ (w ∷ ws) else w ∷ rest

unfoldable pub sorted : List ℤ → List ℤ
unfolding place
sorted [] = []
sorted (v ∷ vs) = place v (sorted vs)

abbrev numbers : List ℤ → Items
numbers [] = nil
numbers (v ∷ vs) = cons (number (format_int v)) (numbers vs)

unfoldable pub list_configs : Calls → List (Option (List Text)) → Store → Response
list_configs c pages s = if not c.first then unavailable else elim (scanned pages) [
  | none ↦ unavailable
  | some keys ↦ json 200 (
      (codes "active", text (or_empty (s.strings active_config_key)))
      ∷ (codes "versions", array (numbers (sorted (versions_of keys))))
      ∷ [])
]

-- An audit entry with the id that the stream gave it.
abbrev pub Event : Type 0
Event = Text × AuditEntry

-- The limit of a query: 25 where it is no number of 1 to 200.
unfoldable pub limit_of : Text → ℕ
limit_of query = elim (parse_int query) [
  | none ↦ 25
  | some v ↦ if leb_ℤ (pos 1) v && leb_ℤ v (pos 200) then pos_part v else 25
]

-- ParseUint in 64 bits
abbrev is_u64 : Text → Bool
is_u64 t = elim (parse_nat t) [ none ↦ false | some n ↦ ltb n (2 ^ 64) ]

-- Where the range starts: `none` for a cursor that is not two numbers.
unfoldable pub start_of : Text → Option Text
start_of before = if is_empty before then some (codes "+") else elim (split_on b'-' before) [
  | [] ↦ none
  | first ∷ rest ↦ elim rest [
    | [] ↦ none
    | second ∷ more ↦ elim more [
      | [] ↦ if is_u64 first && is_u64 second then some (b'(' ∷ before) else none
      | third ∷ others ↦ none
    ]
  ]
]

abbrev pub last_id : List Event → Text
last_id [] = []
last_id (e ∷ []) = e.0
last_id (e ∷ f ∷ es) = last_id (f ∷ es)

pub data AuditPage : Type 0 where
  refused : ℕ → Text → AuditPage
  -- the events, and the cursor of the next page
  page : List Event → Text → AuditPage

-- What is shown of the messages, where one more than the limit was asked for.
abbrev pub cut_page : ℕ → List Event → AuditPage
cut_page n messages =
    let has_more = not (leb (length messages) n) in
    let events = if has_more then take n messages else messages in
    page events (if has_more then last_id events else [])

-- listAudit; `range` is XREVRANGE from a start, with a count
unfoldable pub list_audit : (Text → ℕ → Option (List Event)) → Text → Text → AuditPage
list_audit range limit before = elim (start_of before) [
  | none ↦ refused 400 (codes "invalid_cursor")
  | some start ↦ elim (range start (limit_of limit + 1)) [
    | none ↦ refused 503 (codes "control_unavailable")
    | some messages ↦ cut_page (limit_of limit) messages
  ]
]
