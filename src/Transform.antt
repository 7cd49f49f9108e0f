-- ===== src/Transform.antt =====
-- The JSON transform: transformJSON of cmd/gateway/app.go. An object is the list of its members; the
-- lists of a JsonTransform are in the order in which Go ranges over its maps, which is any.
pub mod Laws
use vial_gateway.Prelude.{Bool, true, false, List, [], ◌∷◌, Option, none, some}
use vial_gateway.Text.{Text}
use vial_gateway.Dict.{lookup, insert, remove}
use vial_gateway.Config.Types.{Json, JsonTransform}

abbrev pub Object : Type 0
Object = List (Text × Json)

-- encoding/json on an object; `decode` fails on what is no object.
pub record ObjectCodec : Type 0 where
  pub decode : Text → Option Object
  pub encode : Object → Option Text

unfoldable pub remove_members : List Text → Object → Object
remove_members [] o = o
remove_members (key ∷ keys) o = remove_members keys (remove key o)

unfoldable pub rename_members : List (Text × Text) → Object → Object
rename_members [] o = o
rename_members ((from, to) ∷ names) o =
    rename_members names
      (elim (lookup from o) [ none ↦ o | some value ↦ remove from (insert to value o) ])

unfoldable pub add_members : List (Text × Json) → Object → Object
add_members [] o = o
add_members ((key, value) ∷ members) o = add_members members (insert key value o)

unfoldable pub transform_object : JsonTransform → Object → Object
transform_object t o = add_members t.add (rename_members t.rename (remove_members t.remove o))

-- transformJSON; `none` is an error
unfoldable pub transform_json : ObjectCodec → JsonTransform → Text → Option Text
transform_json codec t body = elim (codec.decode body) [
  | none ↦ none
  | some o ↦ codec.encode (transform_object t o)
]
