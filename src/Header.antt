-- ===== src/Header.antt =====
-- HTTP headers: the operations of http.Header that the gateway calls, and headerBytes,
-- removeHopHeaders, copyHeader and applyHeaderTransform of cmd/gateway/app.go.
pub mod Laws
use vial_gateway.Prelude.{
  ℕ, ◌+◌, Bool, true, false, ◌&&◌, ◌||◌, List, [], ◌∷◌, ◌++◌, Option, none, some, leb, ◌==◌,
  if◌then◌else◌, length, all,
}
use vial_gateway.Text.{Text, codes, upper_byte, lower_byte}
use vial_gateway.Dict
use vial_gateway.Config.Types.{TransformConfig}

-- http.Header: canonical names with their values
abbrev pub Header : Type 0
Header = List (Text × List Text)

is_alnum : ℕ → Bool
is_alnum c = (leb b'0' c && leb c b'9') || (leb b'a' c && leb c b'z') || (leb b'A' c && leb c b'Z')

abbrev token_marks : Text
token_marks = codes "!#$%&'*+-.^_`|~"

abbrev among : ℕ → Text → Bool
among c [] = false
among c (d ∷ s) = c == d || among c s

-- The bytes that a header name may hold.
unfoldable pub is_token_byte : ℕ → Bool
unfolding is_alnum
is_token_byte c = is_alnum c || among c token_marks

-- A letter that begins the name or follows a dash is put in upper case, another in lower case.
unfoldable pub canonical_from : Bool → Text → Text
unfolding upper_byte lower_byte
canonical_from start [] = []
canonical_from start (c ∷ s) =
    let d = if start then upper_byte c else lower_byte c in d ∷ canonical_from (d == b'-') s

-- textproto.CanonicalMIMEHeaderKey; a name with any other byte is left as it is
unfoldable pub canonical_key : Text → Text
unfolding is_token_byte canonical_from
canonical_key s = if all is_token_byte s then canonical_from true s else s

abbrev values_or : Option (List Text) → List Text
values_or none = []
values_or (some vs) = vs

abbrev pub first_or_empty : Option (List Text) → Text
first_or_empty none = []
first_or_empty (some []) = []
first_or_empty (some (v ∷ vs)) = v

-- header.Get, Set, Add and Del
unfoldable pub get : Header → Text → Text
get h name = first_or_empty (Dict.lookup (canonical_key name) h)

unfoldable pub set : Header → Text → Text → Header
set h name value = Dict.insert (canonical_key name) (value ∷ []) h

unfoldable pub add : Header → Text → Text → Header
add h name value =
    let key = canonical_key name in Dict.insert key (values_or (Dict.lookup key h) ++ value ∷ []) h

unfoldable pub del : Header → Text → Header
del h name = Dict.remove (canonical_key name) h

-- header.Del for each name
unfoldable pub del_all : Header → List Text → Header
del_all h [] = h
del_all h (name ∷ names) = del_all (del h name) names

abbrev pub hop_headers : List Text
hop_headers =
    codes "Connection"
    ∷ codes "Proxy-Connection"
    ∷ codes "Keep-Alive"
    ∷ codes "Proxy-Authenticate"
    ∷ codes "Proxy-Authorization"
    ∷ codes "Te"
    ∷ codes "Trailer"
    ∷ codes "Transfer-Encoding"
    ∷ codes "Upgrade"
    ∷ []

unfoldable pub remove_hop_headers : Header → Header
remove_hop_headers h = del_all h hop_headers

unfoldable pub set_all : Header → List (Text × Text) → Header
set_all h [] = h
set_all h ((name, value) ∷ rest) = set_all (set h name value) rest

unfoldable pub apply_header_transform : Header → TransformConfig → Header
apply_header_transform h t = set_all (del_all h t.remove_headers) t.set_headers

-- len(value), summed
abbrev pub values_bytes : List Text → ℕ
values_bytes [] = 0
values_bytes (v ∷ vs) = length v + values_bytes vs

unfoldable pub header_bytes : Header → ℕ
header_bytes [] = 0
header_bytes ((key, values) ∷ h) = length key + values_bytes values + header_bytes h

unfoldable pub add_values : Header → Text → List Text → Header
add_values h key [] = h
add_values h key (v ∷ vs) = add_values (add h key v) key vs

unfoldable pub copy_header : Header → Header → Header
copy_header destination [] = destination
copy_header destination ((key, values) ∷ source) =
    copy_header (add_values destination key values) source
