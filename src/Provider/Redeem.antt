-- ===== src/Provider/Redeem.antt =====
-- The redemption of an authorization code of cmd/demo-oidc/main.go, with other requests in between.
use vial_gateway.Prelude.{
  ℕ, ◌+◌, ◌*◌, ◌≤◌, ◌≡◌, refl, true, false, List, Option, none, some, arith, inl, inr, All, subst,
  sym, ap, ◌∙◌,
}
use vial_gateway.Text.{Text, codes}
use vial_gateway.Text.Equality.{text_eq_iff, text_eq_refl}
use vial_gateway.Std.{Std}
use vial_gateway.Config.Types.{second}
use vial_gateway.Dict.{lookup, insert, lookup-insert, lookup-remove}
use vial_gateway.Provider.{
  AuthorizationCode, Provider, FormRequest, Signer, found, tokens, challenge_of, code_of, authorize,
  claims_of, sign, redeem, credentials, is_stranger, mismatched, token,
}
use vial_gateway.Provider.Codes.{is_tokens, token_cases, token-redeem}
use vial_gateway.Provider.Traffic.{
  draws, presents, authorize_cases, serve_all-FollowsAll, Call, serve_all,
}

module _ (std : Std) (signer : Signer) where
  no_code-refused :
      (now : ℕ) (access : Option Text) (q : FormRequest) (p : Provider)
      → lookup (q.form (codes "code")) p.granted ≡ none
      → is_tokens (token std signer now access q p).1 ≡ false
  no_code-refused now access q p missing = elim (token_cases std signer now access q p) [
    | inl (refused, left) ↦ refused
    | inr (gone, redeemed) ↦ cc (missing, redeemed.known)
  ]

  -- A code that was answered with tokens is worth nothing afterwards: whatever requests follow that
  -- are not given the same code, the next that presents it is refused.
  pub code_once :
      (now later : ℕ) (access access' : Option Text) (q q' : FormRequest) (cs : List Call)
      (p : Provider)
      → is_tokens (token std signer now access q p).1 ≡ true
      → All (λ c. draws (q.form (codes "code")) c ≡ false) cs
      → q'.form (codes "code") ≡ q.form (codes "code")
      → is_tokens
          (token std signer later access' q'
            (serve_all std signer cs (token std signer now access q p).0)).1
        ≡ false
  code_once now later access access' q q' cs p given undrawn same =
      let k = q.form (codes "code") in
      let p' = (token std signer now access q p).0 in
      let gone : lookup k p'.granted ≡ none = elim (token_cases std signer now access q p) [
        | inl (refused, left) ↦ cc (refused, given)
        | inr (taken, redeemed) ↦
            ap (λ r. lookup k r.granted) taken
            ∙ lookup-remove k k p.granted
            ∙ rw (text_eq_refl k) refl
      ] in
      let (g, after, kept, missing) = serve_all-FollowsAll std signer k cs p' in
      no_code-refused later access' q' (serve_all std signer cs p') (
        subst (λ r. lookup (q'.form (codes "code")) r.granted ≡ none) (sym after)
          (subst (λ t. lookup t g ≡ none) (sym same) (missing undrawn gone)))

  -- What a client sends to redeem a code: its credentials, the code with its redirect URI, and a
  -- verifier.
  pub record Presents (p : Provider) (code uri verifier : Text) (q : FormRequest) : Type 0 where
    pub parses : q.parses ≡ true
    pub client : (credentials std signer q).0 ≡ p.client_id
    pub secret : (credentials std signer q).1 ≡ p.client_secret
    pub grant : q.form (codes "grant_type") ≡ codes "authorization_code"
    pub coded : q.form (codes "code") ≡ code
    pub sent_to : q.form (codes "redirect_uri") ≡ uri
    pub verified_by : q.form (codes "code_verifier") ≡ verifier

  found-granted :
      (now : ℕ) (k : Text) (q : FormRequest) (p : Provider) (location : Text)
      → (authorize std signer now (some k) q p).1 ≡ found location
      → (authorize std signer now (some k) q p).0
        ≡ record p { granted = insert k (code_of std signer now q) p.granted }
  found-granted now k q p location sent = elim (authorize_cases std signer now (some k) q p) [
    | inl (unsent, same) ↦ cc (sent, unsent)
    | inr (code, given, good, right, shown, granted) ↦
        let same : code ≡ k = cc in
        subst
          (λ c.
            (authorize std signer now (some k) q p).0
            ≡ record p { granted = insert c (code_of std signer now q) p.granted })
          same granted
  ]

  matched :
      (t₀ t₁ : ℕ) (p : Provider) (q q' : FormRequest) (k verifier : Text)
      → t₁ ≤ t₀ + 120 * second
      → challenge_of std signer verifier ≡ q.form (codes "code_challenge")
      → Presents p k (q.form (codes "redirect_uri")) verifier q'
      → mismatched std signer t₁ q' (code_of std signer t₀ q) ≡ false
  matched t₀ t₁ p q q' k verifier fresh proof h =
      let uri = (text_eq_iff _ _).1 h.sent_to in
      let verified = (text_eq_iff _ _).1 (ap (challenge_of std signer) h.verified_by ∙ proof) in
      ground arith

  presented-redeem :
      (t : ℕ) (access : Option Text) (p : Provider) (k uri verifier : Text) (q : FormRequest)
      → Presents p k uri verifier q
      → (token std signer t access q p).1 ≡ redeem std signer t access q p (lookup k p.granted)
  presented-redeem t access p k uri verifier q h =
      let client = (text_eq_iff (credentials std signer q).0 p.client_id).1 h.client in
      let secret = (text_eq_iff (credentials std signer q).1 p.client_secret).1 h.secret in
      let known : is_stranger std signer p q ≡ false = ground arith in
      ap (λ r. r.1)
        (token-redeem std signer t access q p h.parses known ((text_eq_iff _ _).1 h.grant))
      ∙ ap (λ c. redeem std signer t access q p (lookup c p.granted)) h.coded

  redeem-tokens :
      (t : ℕ) (access id_token : Text) (q : FormRequest) (p : Provider) (code : AuthorizationCode)
      → mismatched std signer t q code ≡ false
      → sign std signer (claims_of std signer t p code) ≡ some id_token
      → redeem std signer t (some access) q p (some code) ≡ tokens access code.scope id_token
  unfolding redeem
  redeem-tokens t access id_token q p code fits signed = ground arith

  -- A code that was granted is answered with tokens for the scope that was asked for, and with the ID
  -- token of the demo administrator: whatever requests come in between that neither are given nor
  -- present the code, within two minutes, for the client with its secret, the URI and the verifier of
  -- the challenge.
  pub code_redeemed :
      (t₀ t₁ : ℕ) (k access id_token location verifier : Text) (q q' : FormRequest) (cs : List Call)
      (p : Provider)
      → (authorize std signer t₀ (some k) q p).1 ≡ found location
      → All (λ c. draws k c ≡ false) cs
      → All (λ c. presents k c ≡ false) cs
      → t₁ ≤ t₀ + 120 * second
      → challenge_of std signer verifier ≡ q.form (codes "code_challenge")
      → Presents p k (q.form (codes "redirect_uri")) verifier q'
      → sign std signer (claims_of std signer t₁ p (code_of std signer t₀ q)) ≡ some id_token
      → (token std signer t₁
          (some access)
          q'
          (serve_all std signer cs (authorize std signer t₀ (some k) q p).0)).1
        ≡ tokens access (q.form (codes "scope")) id_token
  code_redeemed t₀ t₁ k access id_token location verifier q q' cs p sent undrawn unused fresh proof
        h signed =
      let code = code_of std signer t₀ q in
      let p' : Provider = record p { granted = insert k code p.granted } in
      let there : lookup k p'.granted ≡ some code =
        lookup-insert k k code p.granted ∙ rw (text_eq_refl k) refl in
      let (g, after, kept, missing) = serve_all-FollowsAll std signer k cs p' in
      let p'' : Provider = record p { granted = g } in
      let known : lookup k g ≡ some code = kept undrawn unused ∙ there in
      ap (λ r. (token std signer t₁ (some access) q' (serve_all std signer cs r)).1)
        (found-granted t₀ k q p location sent)
      ∙ ap (λ r. (token std signer t₁ (some access) q' r).1) after
      ∙ presented-redeem t₁ (some access) p'' k (q.form (codes "redirect_uri")) verifier q'
          (record {
            parses = h.parses;
            client = h.client;
            secret = h.secret;
            grant = h.grant;
            coded = h.coded;
            sent_to = h.sent_to;
            verified_by = h.verified_by;
          })
      ∙ ap (redeem std signer t₁ (some access) q' p'') known
      ∙ redeem-tokens t₁ access id_token q' p'' code (matched t₀ t₁ p q q' k verifier fresh proof h)
          signed
