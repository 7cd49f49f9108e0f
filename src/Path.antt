-- ===== src/Path.antt =====
-- Request paths: joinURLPath and rewritePath of cmd/gateway/app.go.
pub mod Laws
use vial_gateway.Prelude.{[], ◌∷◌, ◌++◌, if◌then◌else◌}
use vial_gateway.Text.{Text, trim_prefix, trim_suffix, is_empty}

abbrev pub slash : Text
slash = b'/' ∷ []

unfoldable pub join_url_path : Text → Text → Text
join_url_path left right =
    let from = if is_empty left then slash else left in
    trim_suffix from slash ++ (slash ++ trim_prefix right slash)

unfoldable pub rewrite_path : Text → Text → Text → Text
unfolding join_url_path
rewrite_path path_value prefix replacement =
    let remainder = trim_prefix path_value (trim_suffix prefix slash) in
    join_url_path replacement remainder
