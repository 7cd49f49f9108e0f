-- ===== src/Scopes/Laws.antt =====
-- A scope set holds exactly the scopes that were listed, but for the empty one.
use vial_gateway.Prelude.{◌≡◌, true, ◌&&◌, ◌||◌, not, List, [], ◌∷◌, arith}
use vial_gateway.Text.{Text, is_empty, elem}
use vial_gateway.Text.Equality.{text_eq_iff}
use vial_gateway.Dict.{lookup, insert, lookup-insert}
use vial_gateway.Scopes.{ScopeSet, add_scopes, scope_set, has, has_scopes}

has-add_scopes :
    (result : ScopeSet) (scopes : List Text) (s : Text)
    → has (add_scopes result scopes) s ≡ has result s || (not (is_empty s) && elem s scopes)
unfolding add_scopes
has-add_scopes result [] s = ground arith
has-add_scopes result ([] ∷ scopes) s =
    ground (arith, has-add_scopes result scopes s, text_eq_iff [] s)
has-add_scopes result ((c ∷ t) ∷ scopes) s = ground (
  arith,
  has-add_scopes (insert (c ∷ t) true result) scopes s,
  lookup-insert (c ∷ t) s true result,
  text_eq_iff (c ∷ t) s,
)

pub has-scope_set :
    (scopes : List Text) (s : Text) → has (scope_set scopes) s ≡ not (is_empty s) && elem s scopes
unfolding scope_set lookup
has-scope_set scopes s = has-add_scopes [] scopes s

-- A caller that passes the test was granted every scope that the route requires.
has_scopes-elem :
    (granted required : List Text) (s : Text)
    → has_scopes (scope_set granted) required ≡ true
    → elem s required ≡ true
    → elem s granted ≡ true
unfolding has_scopes
has_scopes-elem granted [] s h e = cc
has_scopes-elem granted (r ∷ required) s h e =
    ground (arith, has-scope_set granted r, text_eq_iff r s, has_scopes-elem granted required s)
