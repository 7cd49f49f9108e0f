-- ===== src/Path/Laws.antt =====
-- What a rewrite makes of the paths below a route's prefix.
use vial_gateway.Prelude.{◌≡◌, refl, ◌≢◌, [], ◌∷◌, ◌++◌, if◌then◌else◌}
use vial_gateway.Text.{Text, trim_suffix, is_empty}
use vial_gateway.Text.Affix.{trim_prefix-append}
use vial_gateway.Path.{slash, join_url_path, rewrite_path}

-- A path without its last slash; an empty path stands for "/".
abbrev pub base : Text → Text
base t = trim_suffix (if is_empty t then slash else t) slash

pub join_url_path-slash :
    (left rest : Text) → join_url_path left (slash ++ rest) ≡ base left ++ (slash ++ rest)
unfolding join_url_path
join_url_path-slash left rest = rw (trim_prefix-append slash rest)

-- A path below the prefix keeps its remainder, and gets the replacement for the prefix.
pub rewrite_path-below :
    (prefix replacement rest : Text)
    → rewrite_path (trim_suffix prefix slash ++ (slash ++ rest)) prefix replacement
      ≡ base replacement ++ (slash ++ rest)
unfolding rewrite_path
rewrite_path-below prefix replacement rest =
    rw (trim_prefix-append (trim_suffix prefix slash) (slash ++ rest))
      (join_url_path-slash replacement rest)

pub base-prefix : (prefix : Text) → prefix ≢ [] → base prefix ≡ trim_suffix prefix slash
base-prefix [] h = absurd (h refl)
base-prefix (c ∷ t) h = refl
