-- ===== src/Scopes.antt =====
-- Scopes and audiences: scopeSet, hasScopes, audienceMatches and splitSpace of
-- cmd/gateway/app.go.
pub mod Laws
use vial_gateway.Prelude.{Bool, true, false, ◌&&◌, List, [], ◌∷◌, if◌then◌else◌, any, all}
use vial_gateway.Text.{Text, text_eq, is_empty, replace_byte, fields, Unicode, elem}
use vial_gateway.Dict.{lookup, insert, or_false}

-- map[string]bool
abbrev pub ScopeSet : Type 0
ScopeSet = List (Text × Bool)

-- The loop of scopeSet.
unfoldable pub add_scopes : ScopeSet → List Text → ScopeSet
add_scopes result [] = result
add_scopes result (scope ∷ scopes) =
    add_scopes (if is_empty scope then result else insert scope true result) scopes

unfoldable pub scope_set : List Text → ScopeSet
unfolding add_scopes
scope_set scopes = add_scopes [] scopes

-- actual[scope]
abbrev pub has : ScopeSet → Text → Bool
has actual scope = or_false (lookup scope actual)

unfoldable pub has_scopes : ScopeSet → List Text → Bool
has_scopes actual required = all (has actual) required

unfoldable pub audience_matches : List Text → List Text → Bool
audience_matches actual expected =
    any (λ wanted. any (λ value. text_eq value wanted) actual) expected

unfoldable pub split_space : Unicode → Text → List Text
unfolding replace_byte fields
split_space unicode value = fields unicode (replace_byte b',' 32 value)
