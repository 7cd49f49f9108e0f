-- ===== src/Header/Laws.antt =====
-- What the header operations leave of each name.
use vial_gateway.Prelude.{◌≡◌, refl, List, [], ◌∷◌, none, arith, if◌then◌else◌, map}
use vial_gateway.Text.{Text, text_eq, elem}
use vial_gateway.Dict.{lookup, lookup-insert, lookup-remove}
use vial_gateway.Header.{
  Header, canonical_key, get, set, del, del_all, hop_headers, remove_hop_headers,
}

pub lookup-del_all :
    (names : List Text) (h : Header) (key : Text)
    → lookup key (del_all h names)
      ≡ (if elem key (map canonical_key names) then none else lookup key h)
unfolding del_all del
lookup-del_all [] h key = refl
lookup-del_all (name ∷ names) h key =
    ground (arith, lookup-del_all names (del h name) key, lookup-remove (canonical_key name) key h)

-- After the hop-by-hop headers are removed, none of them is left, and every other name is as before.
pub lookup-remove_hop_headers :
    (h : Header) (key : Text)
    → lookup key (remove_hop_headers h)
      ≡ (if elem key (map canonical_key hop_headers) then none else lookup key h)
unfolding remove_hop_headers
lookup-remove_hop_headers h key = lookup-del_all hop_headers h key

pub get-set :
    (h : Header) (name value other : Text)
    → get (set h name value) other
      ≡ (if text_eq (canonical_key name) (canonical_key other) then value else get h other)
unfolding get set
get-set h name value other =
    ground (arith, lookup-insert (canonical_key name) (canonical_key other) (value ∷ []) h)

pub get-del :
    (h : Header) (name other : Text)
    → get (del h name) other
      ≡ (if text_eq (canonical_key name) (canonical_key other) then [] else get h other)
unfolding get del
get-del h name other = ground (arith, lookup-remove (canonical_key name) (canonical_key other) h)
