-- ===== src/Auth/Shown.antt =====
-- listAPIKeys of cmd/gateway/admin_ui.go. A SCAN is the pages of keys that Redis gives, `none` where it
-- fails; `answers` says whether HGETALL of a key does.
use vial_gateway.Prelude.{
  ℕ, zero, suc, ◌-◌, ◌≤◌, ◌≡◌, refl, Bool, not, ◌||◌, List, [], ◌∷◌, ◌++◌, Option, none, some,
  if◌then◌else◌, length, length-append, arith, Option-cases, inl, inr, sym, ◌∙◌, subst,
}
use vial_gateway.Text.{Text, codes, is_empty, trim_prefix}
use vial_gateway.Std.{Std}
use vial_gateway.Scopes.{split_space}
use vial_gateway.Store.{Store}
use vial_gateway.Auth.{key_prefix, fields_at, field, is_revoked}

pub record ShownKey : Type 0 where
  pub id : Text
  pub name : Text
  pub scopes : List Text
  pub created_at : Text
  pub revoked_at : Text
  pub revoked : Bool

module _ (std : Std) (answers : Text → Bool) (s : Store) where
  -- A key as it is listed, where Redis has it with a name.
  unfoldable pub shown_key : Text → Option ShownKey
  shown_key key =
      let fs = fields_at s key in
      if not (answers key) || is_empty (field (codes "name") fs)
      then none
      else some (record {
        id = trim_prefix key key_prefix;
        name = field (codes "name") fs;
        scopes = split_space std.unicode (field (codes "scopes") fs);
        created_at = field (codes "created_at") fs;
        revoked_at = field (codes "revoked_at") fs;
        revoked = is_revoked fs;
      })

  -- The loop over a page, with the room that is left.
  unfoldable pub shown_page : ℕ → List Text → List ShownKey
  shown_page room [] = []
  shown_page zero (key ∷ keys) = []
  shown_page (suc room) (key ∷ keys) = elim (shown_key key) [
    | none ↦ shown_page (suc room) keys
    | some k ↦ k ∷ shown_page room keys
  ]

  -- The loop over the pages, while there is room; `none` is a page that fails.
  unfoldable pub shown_pages : ℕ → List (Option (List Text)) → Option (List ShownKey)
  unfolding shown_page
  shown_pages room [] = some []
  shown_pages zero (p ∷ pages) = some []
  shown_pages (suc room) (none ∷ pages) = none
  shown_pages (suc room) (some keys ∷ pages) =
      let here = shown_page (suc room) keys in
      elim (shown_pages (suc room - length here) pages) [
        | none ↦ none
        | some later ↦ some (here ++ later)
      ]

  shown_page-le : (room : ℕ) (keys : List Text) → length (shown_page room keys) ≤ room
  unfolding shown_page
  shown_page-le room [] = omega arith
  shown_page-le zero (key ∷ keys) = omega arith
  shown_page-le (suc room) (key ∷ keys) = elim (Option-cases (shown_key key)) [
    | inl hidden ↦
        let same : shown_page (suc room) (key ∷ keys) ≡ shown_page (suc room) keys =
          rw (hidden, shown_page) refl in
        subst (λ ks. length ks ≤ suc room) (sym same) (shown_page-le (suc room) keys)
    | inr (k, shown) ↦
        let same : shown_page (suc room) (key ∷ keys) ≡ k ∷ shown_page room keys =
          rw (shown, shown_page) refl in
        subst (λ ks. length ks ≤ suc room) (sym same) (omega (arith, shown_page-le room keys))
  ]

  some-injective : (xs ys : List ShownKey) → some xs ≡ some ys → xs ≡ ys
  some-injective xs ys h = cc

  nil-le : (room : ℕ) (keys : List ShownKey) → some [] ≡ some keys → length keys ≤ room
  nil-le room keys h = subst (λ ks. length ks ≤ room) (some-injective [] keys h) (omega arith)

  shown_pages-le :
      (room : ℕ) (pages : List (Option (List Text))) (keys : List ShownKey)
      → shown_pages room pages ≡ some keys
      → length keys ≤ room
  unfolding shown_pages
  shown_pages-le room [] keys h = nil-le room keys h
  shown_pages-le zero (p ∷ pages) keys h = nil-le zero keys h
  shown_pages-le (suc room) (none ∷ pages) keys h = cc
  shown_pages-le (suc room) (some page ∷ pages) keys h =
      let here = shown_page (suc room) page in
      elim (Option-cases (shown_pages (suc room - length here) pages)) [
        | inl failed ↦
            let lost : shown_pages (suc room) (some page ∷ pages) ≡ none =
              rw (failed, shown_pages) refl in
            cc (lost, h)
        | inr (later, given) ↦
            let all : shown_pages (suc room) (some page ∷ pages) ≡ some (here ++ later) =
              rw (given, shown_pages) refl in
            let total : length (here ++ later) ≤ suc room = omega (
              arith,
              length-append here later,
              shown_page-le (suc room) page,
              shown_pages-le (suc room - length here) pages later given,
            ) in
            subst (λ ks. length ks ≤ suc room) (some-injective _ keys (sym all ∙ h)) total
      ]

  -- listAPIKeys, sorted by `sort`; `none` is answered by 503
  unfoldable pub list_api_keys :
      (List ShownKey → List ShownKey) → List (Option (List Text)) → Option (List ShownKey)
  list_api_keys sort pages = elim (shown_pages 200 pages) [
    | none ↦ none
    | some keys ↦ some (sort keys)
  ]

  -- At most 200 keys are listed, for a sort that keeps the number of its elements.
  list_api_keys-le :
      (sort : List ShownKey → List ShownKey) (pages : List (Option (List Text)))
      (keys : List ShownKey)
      → ((ks : List ShownKey) → length (sort ks) ≡ length ks)
      → list_api_keys sort pages ≡ some keys
      → length keys ≤ 200
  unfolding list_api_keys
  list_api_keys-le sort pages keys same h = elim (Option-cases (shown_pages 200 pages)) [
    | inl failed ↦
        let lost : list_api_keys sort pages ≡ none = rw (failed, list_api_keys) refl in cc (lost, h)
    | inr (found, given) ↦
        let all : list_api_keys sort pages ≡ some (sort found) = rw (given, list_api_keys) refl in
        subst (λ ks. length ks ≤ 200) (some-injective (sort found) keys (sym all ∙ h))
          (omega (arith, same found, shown_pages-le 200 pages found given))
  ]
