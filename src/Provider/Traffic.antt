-- ===== src/Provider/Traffic.antt =====
-- The requests to the mux of cmd/demo-oidc/main.go, and what becomes of an authorization code while
-- others are answered.
use vial_gateway.Prelude.{
  ℕ, ◌++◌, ◌≡◌, refl, Bool, true, false, List, [], ◌∷◌, Option, none, some, arith, Bool-cases,
  Option-cases, inl, inr, ◌⊎◌, All, subst, sym, ap, ◌∙◌,
}
use vial_gateway.Text.{Text, codes, text_eq}
use vial_gateway.Std.{Std}
use vial_gateway.Dict.{lookup, insert, remove, lookup-insert, lookup-remove}
use vial_gateway.Provider.{
  AuthorizationCode, Provider, FormRequest, Signer, Reply, found, code_of, is_invalid,
  wrong_password, redirected, authorize, discovery, jwks, no_content, token,
}
use vial_gateway.Provider.Codes.{without_code, token_cases}

-- The patterns of newProvider's mux, by what they are answered by.
pub data Call : Type 0 where
  discover show_keys health : Call
  authorizes redeems : (now : ℕ) (drawn : Option Text) → FormRequest → Call

-- ServeHTTP of a request whose pattern the mux found
unfoldable pub serve : Std → Signer → Call → Provider → Provider × Reply
serve std signer discover p = (
  p,
  discovery p.issuer (p.issuer ++ codes "/authorize") (p.issuer ++ codes "/token")
      (p.issuer ++ codes "/jwks"),
)
serve std signer show_keys p = (p, jwks)
serve std signer health p = (p, no_content)
serve std signer (authorizes now drawn q) p = authorize std signer now drawn q p
serve std signer (redeems now drawn q) p = token std signer now drawn q p

-- Requests that are answered one after the other.
unfoldable pub serve_all : Std → Signer → List Call → Provider → Provider
unfolding serve
serve_all std signer [] p = p
serve_all std signer (c ∷ cs) p = serve_all std signer cs (serve std signer c p).0

-- Whether a request is given a code, or presents it.
abbrev pub draws : Text → Call → Bool
draws k (authorizes now (some code) q) = text_eq code k
draws k other = false

abbrev pub presents : Text → Call → Bool
presents k (redeems now access q) = text_eq (q.form (codes "code")) k
presents k other = false

abbrev pub is_found : Reply → Bool
is_found (found location) = true
is_found other = false

module _ (std : Std) (signer : Signer) where
  -- A request to the authorization endpoint changes nothing, or grants the code that was drawn: for a
  -- request that is valid and has the name and the password.
  pub authorize_cases :
      (now : ℕ) (drawn : Option Text) (q : FormRequest) (p : Provider)
      → let r = authorize std signer now drawn q p in
        ((is_found r.1 ≡ false) × (r.0 ≡ p))
        ⊎ ((code : Text) × (drawn ≡ some code)
            × (is_invalid std signer p q ≡ false)
            × (wrong_password std signer p q ≡ false)
            × (r.1 ≡ redirected std signer q code)
            × (r.0 ≡ record p { granted = insert code (code_of std signer now q) p.granted }))
  unfolding authorize
  authorize_cases now drawn q p = elim (Bool-cases q.parses) [
    | inr garbled ↦ inl (ground arith, ground arith)
    | inl read ↦ elim (Bool-cases (is_invalid std signer p q)) [
      | inl bad ↦ inl (ground arith, ground arith)
      | inr good ↦ elim (Bool-cases (text_eq q.method (codes "GET"))) [
        | inl get ↦ inl (ground arith, ground arith)
        | inr post ↦ elim (Bool-cases (wrong_password std signer p q)) [
          | inl wrong ↦ inl (ground arith, ground arith)
          | inr right ↦ elim (Option-cases drawn) [
            | inl undrawn ↦ inl (ground arith, ground arith)
            | inr (code, given) ↦ inr (code, given, good, right, ground arith, ground arith)
          ]
        ]
      ]
    ]
  ]

  -- The codes after a request, and what became of one of them.
  abbrev Follows : Text → Call → Provider → Provider → Type 0
  Follows k c p p' =
      (g : List (Text × AuthorizationCode)) × (p' ≡ record p { granted = g })
      × (draws k c ≡ false → presents k c ≡ false → lookup k g ≡ lookup k p.granted)
      × (draws k c ≡ false → lookup k p.granted ≡ none → lookup k g ≡ none)

  same-Follows : (k : Text) (c : Call) (p : Provider) → Follows k c p p
  same-Follows k c p = (p.granted, refl, λ d e. refl, λ d e. e)

  serve-Follows : (k : Text) (c : Call) (p : Provider) → Follows k c p (serve std signer c p).0
  unfolding serve
  serve-Follows k discover p = same-Follows k discover p
  serve-Follows k show_keys p = same-Follows k show_keys p
  serve-Follows k health p = same-Follows k health p
  serve-Follows k (authorizes now drawn q) p = elim (authorize_cases now drawn q p) [
    | inl (unsent, same) ↦
        subst (Follows k (authorizes now drawn q) p) (sym same)
          (same-Follows k (authorizes now drawn q) p)
    | inr (code, given, good, right, sent, granted) ↦
        subst (Follows k (authorizes now drawn q) p) (sym granted) (
          subst
            (λ d.
              Follows k (authorizes now d q) p
                (record p { granted = insert code (code_of std signer now q) p.granted }))
            (sym given)
            (
              insert code (code_of std signer now q) p.granted,
              refl,
              λ d e. lookup-insert code k (code_of std signer now q) p.granted ∙ rw d refl,
              λ d e. lookup-insert code k (code_of std signer now q) p.granted ∙ rw d e,
            ))
  ]
  serve-Follows k (redeems now access q) p =
      let taken : Follows k (redeems now access q) p (without_code q p) = (
        remove (q.form (codes "code")) p.granted,
        refl,
        λ d e. lookup-remove (q.form (codes "code")) k p.granted ∙ rw e refl,
        λ d e. lookup-remove (q.form (codes "code")) k p.granted ∙ ground arith,
      ) in
      elim (token_cases std signer now access q p) [
        | inl (refused, inl same) ↦
            subst (Follows k (redeems now access q) p) (sym same)
              (same-Follows k (redeems now access q) p)
        | inl (refused, inr gone) ↦ subst (Follows k (redeems now access q) p) (sym gone) taken
        | inr (gone, redeemed) ↦ subst (Follows k (redeems now access q) p) (sym gone) taken
      ]

  -- The codes after several requests.
  abbrev FollowsAll : Text → List Call → Provider → Provider → Type 0
  FollowsAll k cs p p' =
      (g : List (Text × AuthorizationCode)) × (p' ≡ record p { granted = g })
      × (All (λ c. draws k c ≡ false) cs
          → All (λ c. presents k c ≡ false) cs
          → lookup k g ≡ lookup k p.granted)
      × (All (λ c. draws k c ≡ false) cs → lookup k p.granted ≡ none → lookup k g ≡ none)

  pub serve_all-FollowsAll :
      (k : Text) (cs : List Call) (p : Provider) → FollowsAll k cs p (serve_all std signer cs p)
  unfolding serve_all
  serve_all-FollowsAll k [] p = (p.granted, refl, λ d e. refl, λ d e. e)
  serve_all-FollowsAll k (c ∷ cs) p =
      let (g, here, kept, missing) = serve-Follows k c p in
      let (h, later, kept', missing') = serve_all-FollowsAll k cs (record p { granted = g }) in
      (
        h,
        ap (serve_all std signer cs) here ∙ later,
        λ d e. kept' d.1 e.1 ∙ kept d.0 e.0,
        λ d e. missing' d.1 (missing d.0 e),
      )
