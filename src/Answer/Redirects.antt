-- ===== src/Answer/Redirects.antt =====
-- Redirects of an upstream, whose paths a client sees below the route's prefix again.
use vial_gateway.Prelude.{
  ◌≡◌, refl, ◌≢◌, true, false, [], ◌∷◌, ◌++◌, ap, ◌∙◌, subst, append_assoc, or-true, ==_iff, arith,
}
use vial_gateway.Text.{Text, trim_suffix, trim_prefix, has_prefix, has_suffix, text_eq}
use vial_gateway.Text.Affix.{trim_prefix-append, has_prefix-append}
use vial_gateway.Path.{slash, join_url_path, rewrite_path}
use vial_gateway.Path.Laws.{base, join_url_path-slash, rewrite_path-below, base-prefix}
use vial_gateway.Config.Types.{RouteConfig}
use vial_gateway.Answer.{client_path}

prefix_found : (b rest : Text) → has_prefix (b ++ (slash ++ rest)) (b ++ slash) ≡ true
prefix_found b rest =
    subst (λ t. has_prefix t (b ++ slash) ≡ true) (append_assoc b slash rest)
      (has_prefix-append (b ++ slash) rest)

-- A path of the form that an upstream sees.
client_path-base :
    (r : RouteConfig) (b rest : Text)
    → trim_suffix r.path_rewrite slash ≡ b
    → text_eq b slash ≡ false
    → client_path r (b ++ (slash ++ rest)) ≡ base r.path_prefix ++ (slash ++ rest)
unfolding client_path
client_path-base r [] rest e h = rw (e, client_path) (join_url_path-slash r.path_prefix rest)
client_path-base r (c ∷ b) rest e h =
    rw
      (
        e,
        client_path,
        h,
        prefix_found (c ∷ b) rest,
        or-true (text_eq (c ∷ b ++ (slash ++ rest)) (c ∷ b)),
        trim_prefix-append (c ∷ b) (slash ++ rest),
      )
      (join_url_path-slash r.path_prefix rest)

base-trim : (t : Text) → base t ≡ trim_suffix t slash
unfolding trim_suffix has_suffix
base-trim [] = refl
base-trim (c ∷ t) = refl

-- An upstream whose URL has no path sees a path that begins with a slash as it is.
no_base :
    (b rest : Text)
    → has_prefix (b ++ slash) slash ≡ true
    → join_url_path [] (b ++ (slash ++ rest)) ≡ b ++ (slash ++ rest)
unfolding join_url_path trim_suffix has_suffix trim_prefix has_prefix text_eq
no_base [] rest h = refl
no_base (c ∷ b) rest h = let same : c ≡ 47 = ground (arith, ==_iff c 47) in rw same refl

-- The path that an upstream sees of a request below the route's prefix is shown to the client, in a
-- redirect to it, as the path that the client asked for: where the upstream's URL has no path, the
-- prefix is not empty, and the rewrite without its last slash is empty or begins with a slash, and is
-- not "/".
pub client_path-upstream_path :
    (r : RouteConfig) (rest : Text)
    → r.path_prefix ≢ []
    → text_eq (trim_suffix r.path_rewrite slash) slash ≡ false
    → has_prefix (trim_suffix r.path_rewrite slash ++ slash) slash ≡ true
    → let asked = trim_suffix r.path_prefix slash ++ (slash ++ rest) in
      client_path r (join_url_path [] (rewrite_path asked r.path_prefix r.path_rewrite)) ≡ asked
client_path-upstream_path r rest nonempty h rooted =
    let b = trim_suffix r.path_rewrite slash in
    let seen : rewrite_path (trim_suffix r.path_prefix slash ++ (slash ++ rest)) r.path_prefix
          r.path_rewrite
        ≡ b ++ (slash ++ rest) =
      rewrite_path-below r.path_prefix r.path_rewrite rest
      ∙ ap (λ t. t ++ (slash ++ rest)) (base-trim r.path_rewrite) in
    ap (λ t. client_path r (join_url_path [] t)) seen
    ∙ (ap (client_path r) (no_base b rest rooted)
        ∙ (client_path-base r b rest refl h
            ∙ ap (λ t. t ++ (slash ++ rest)) (base-prefix r.path_prefix nonempty)))
