-- ===== src/Provider/Codes.antt =====
-- How token of cmd/demo-oidc/main.go ends: a code is taken, and what it is worth.
use vial_gateway.Prelude.{
  ℕ, ◌≤◌, ◌≡◌, refl, Bool, true, false, Option, some, arith, Bool-cases, Option-cases, inl, inr,
  ◌⊎◌, subst, sym,
}
use vial_gateway.Text.{Text, codes, text_eq}
use vial_gateway.Text.Equality.{text_eq_iff}
use vial_gateway.Std.{Std}
use vial_gateway.Dict.{lookup, remove}
use vial_gateway.Provider.{
  AuthorizationCode, Provider, FormRequest, Signer, Reply, tokens, challenge_of, mismatched,
  claims_of, sign, redeem, credentials, is_stranger, token,
}

abbrev pub is_tokens : Reply → Bool
is_tokens (tokens access scope id_token) = true
is_tokens other = false

-- The provider without the code that a request presents.
abbrev pub without_code : FormRequest → Provider → Provider
without_code q p = record p { granted = remove (q.form (codes "code")) p.granted }

module _ (std : Std) (signer : Signer) where
  -- What a request that is answered with tokens has shown, and what the tokens say.
  pub record Redeemed (now : ℕ) (q : FormRequest) (p : Provider) (r : Reply) : Type 0 where
    pub code : AuthorizationCode
    pub known : lookup (q.form (codes "code")) p.granted ≡ some code
    pub client : (credentials std signer q).0 ≡ p.client_id
    pub secret : (credentials std signer q).1 ≡ p.client_secret
    pub fresh : now ≤ code.expires
    pub uri : q.form (codes "redirect_uri") ≡ code.redirect_uri
    pub verifier : challenge_of std signer (q.form (codes "code_verifier")) ≡ code.challenge
    pub access : Text
    pub id_token : Text
    pub signed : sign std signer (claims_of std signer now p code) ≡ some id_token
    pub answer : r ≡ tokens access code.scope id_token

  mismatched-false :
      (now : ℕ) (q : FormRequest) (code : AuthorizationCode)
      → mismatched std signer now q code ≡ false
      → (now ≤ code.expires)
        × (q.form (codes "redirect_uri") ≡ code.redirect_uri)
        × (challenge_of std signer (q.form (codes "code_verifier")) ≡ code.challenge)
  mismatched-false now q code h = (
    ground arith,
    ground (arith, text_eq_iff (q.form (codes "redirect_uri")) code.redirect_uri),
    ground (
      arith,
      text_eq_iff (challenge_of std signer (q.form (codes "code_verifier"))) code.challenge,
    ),
  )

  is_stranger-false :
      (p : Provider) (q : FormRequest)
      → is_stranger std signer p q ≡ false
      → ((credentials std signer q).0 ≡ p.client_id)
        × ((credentials std signer q).1 ≡ p.client_secret)
  is_stranger-false p q h = (
    ground (arith, text_eq_iff (credentials std signer q).0 p.client_id),
    ground (arith, text_eq_iff (credentials std signer q).1 p.client_secret),
  )

  redeem-cases :
      (now : ℕ) (access : Option Text) (q : FormRequest) (p : Provider)
      → is_stranger std signer p q ≡ false
      → let reply = redeem std signer now access q p (lookup (q.form (codes "code")) p.granted) in
        (is_tokens reply ≡ false) ⊎ Redeemed now q p reply
  unfolding redeem
  redeem-cases now access q p client =
      elim (Option-cases (lookup (q.form (codes "code")) p.granted)) [
        | inl unknown ↦ inl (rw unknown refl)
        | inr (code, known) ↦ elim (Bool-cases (mismatched std signer now q code)) [
          | inl bad ↦ inl (rw (known, redeem) (rw bad refl))
          | inr good ↦ elim (Option-cases (sign std signer (claims_of std signer now p code))) [
            | inl unsigned ↦ inl (rw (known, redeem) (rw (good, unsigned) refl))
            | inr (id_token, signed) ↦ elim (Option-cases access) [
              | inl undrawn ↦ inl (rw (known, redeem) (rw (good, signed, undrawn) refl))
              | inr (drawn, given) ↦
                  let (fresh, uri, verifier) = mismatched-false now q code good in
                  let (named, proved) = is_stranger-false p q client in
                  inr (record {
                    code = code;
                    known = known;
                    client = named;
                    secret = proved;
                    fresh = fresh;
                    uri = uri;
                    verifier = verifier;
                    access = drawn;
                    id_token = id_token;
                    signed = signed;
                    answer = rw (known, redeem) (rw (good, signed, given) refl);
                  })
            ]
          ]
        ]
      ]

  pub token-redeem :
      (now : ℕ) (access : Option Text) (q : FormRequest) (p : Provider)
      → q.parses ≡ true
      → is_stranger std signer p q ≡ false
      → text_eq (q.form (codes "grant_type")) (codes "authorization_code") ≡ true
      → token std signer now access q p ≡ (
        without_code q p,
        redeem std signer now access q p (lookup (q.form (codes "code")) p.granted),
      )
  unfolding token
  token-redeem now access q p read client grant = ground arith

  abbrev Ends : ℕ → FormRequest → Provider → Provider × Reply → Type 0
  Ends now q p r =
      ((is_tokens r.1 ≡ false) × ((r.0 ≡ p) ⊎ (r.0 ≡ without_code q p)))
      ⊎ ((r.0 ≡ without_code q p) × Redeemed now q p r.1)

  -- A request for tokens either changes nothing, or takes the code that it presents. It is answered
  -- with tokens only in the second case, and only for a client with its secret, for a code that was
  -- granted no more than its time ago, to the URI that it was granted for, and with the verifier of its
  -- challenge; the tokens are then for the scope of the code, with the ID token that was signed for
  -- its subject.
  pub token_cases :
      (now : ℕ) (access : Option Text) (q : FormRequest) (p : Provider)
      → let r = token std signer now access q p in
        ((is_tokens r.1 ≡ false) × ((r.0 ≡ p) ⊎ (r.0 ≡ without_code q p)))
        ⊎ ((r.0 ≡ without_code q p) × Redeemed now q p r.1)
  unfolding token
  token_cases now access q p = elim (Bool-cases q.parses) [
    | inr garbled ↦ inl (rw (garbled, token) (refl, inl refl))
    | inl read ↦ elim (Bool-cases (is_stranger std signer p q)) [
      | inl stranger ↦ inl (rw (read, token) (rw stranger (refl, inl refl)))
      | inr client ↦
          elim (Bool-cases (text_eq (q.form (codes "grant_type")) (codes "authorization_code"))) [
            | inr other ↦ inl (rw (read, token) (rw (client, other) (refl, inl refl)))
            | inl grant ↦
                subst (Ends now q p) (sym (token-redeem now access q p read client grant))
                  (elim (redeem-cases now access q p client) [
                    | inl refused ↦ inl (refused, inr refl)
                    | inr redeemed ↦ inr (refl, redeemed)
                  ])
          ]
    ]
  ]
