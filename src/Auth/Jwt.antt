-- ===== src/Auth/Jwt.antt =====
-- JWTs: verifyJWT of cmd/gateway/app.go. Package jwx fetches the key set, and parses and verifies
-- tokens; times are nanoseconds. The locks make of the refresh one step.
use vial_gateway.Prelude.{
  ℕ, ◌*◌, ◌-◌, ◌≤◌, ◌≡◌, ◌≢◌, Bool, true, false, not, List, [], ◌∷◌, Option, none, some,
  if◌then◌else◌, ltb, arith, Option-cases, Bool-cases, inl, inr,
}
use vial_gateway.Text.{Text, is_empty}
use vial_gateway.Text.Equality.{is_empty-ne-nil}
use vial_gateway.Std.{Std}
use vial_gateway.Scopes.{scope_set, split_space, audience_matches}
use vial_gateway.Route.{Principal}
use vial_gateway.Config.Types.{AuthPolicy, second}

-- The claims of a token that are read; `none` is one that is missing or of another type.
pub record JwtClaims : Type 0 where
  pub audience : Option (List Text)
  pub subject : Option Text
  pub scope : Option Text
  pub scp : Option (List Text)

-- `K` is a key set, and `T` a token.
pub record Jwx (K T : Type 0) : Type 0 where
  -- ParseString with the key set and WithValidate, at a time
  pub parse : K → ℕ → Text → Option T
  -- Validate with WithIssuer, at a time
  pub issued_by : Text → ℕ → T → Bool
  pub claims : T → JwtClaims

-- The key set of a route's policy, and when it was fetched.
pub record Jwks (K : Type 0) : Type 0 where
  pub set : K
  pub fetched : ℕ

abbrev pub five_minutes : ℕ
five_minutes = 300 * second

abbrev pub is_stale : {K : Type 0} → Option (Jwks K) → ℕ → Bool
is_stale none now = true
is_stale (some keys) now = ltb five_minutes (now - keys.fetched)

abbrev pub as_text : Option Text → Text
as_text none = []
as_text (some t) = t

abbrev pub as_list : Option (List Text) → List Text
as_list none = []
as_list (some ts) = ts

module _ {K T : Type 0} (std : Std) (jwx : Jwx K T) (policy : AuthPolicy) where
  -- The key set to verify with; `fresh` is what Fetch gives, where it is called.
  unfoldable pub refresh : ℕ → Option K → Option (Jwks K) → Option (Jwks K)
  refresh now fresh keys =
      if not (is_stale keys now)
      then keys
      else elim fresh [ none ↦ none | some set ↦ some (record { set = set; fetched = now }) ]

  unfoldable pub token_scopes : JwtClaims → List Text
  token_scopes c = elim (split_space std.unicode (as_text c.scope)) [
    | [] ↦ as_list c.scp
    | scope ∷ scopes ↦ scope ∷ scopes
  ]

  abbrev pub audience_fits : JwtClaims → Bool
  audience_fits c = elim c.audience [
    | none ↦ false
    | some actual ↦ audience_matches actual policy.audiences
  ]

  unfoldable pub token_principal : K → ℕ → Text → Option Principal
  token_principal set now raw = elim (jwx.parse set now raw) [
    | none ↦ none
    | some token ↦
        let c = jwx.claims token in
        if not (jwx.issued_by policy.issuer now token)
        then none
        else if not (audience_fits c)
        then none
        else if is_empty (as_text c.subject)
        then none
        else some (record { id = as_text c.subject; scopes = scope_set (token_scopes c) })
  ]

  -- verifyJWT: the keys that are kept after it, and the principal
  unfoldable pub verify_jwt :
      ℕ → Option K → Text → Option (Jwks K) → Option (Jwks K) × Option Principal
  verify_jwt now fresh raw keys = elim (refresh now fresh keys) [
    | none ↦ (keys, none)
    | some current ↦ (some current, token_principal current.set now raw)
  ]

  -- What a principal of a token rests on.
  pub record Verified (now : ℕ) (raw : Text) (keys : Option (Jwks K)) (p : Principal) : Type 0 where
    pub current : Jwks K
    pub kept : keys ≡ some current
    pub age : now - current.fetched ≤ five_minutes
    pub token : T
    pub parsed : jwx.parse current.set now raw ≡ some token
    pub issuer : jwx.issued_by policy.issuer now token ≡ true
    pub audience : audience_fits (jwx.claims token) ≡ true
    pub subject : p.id ≡ as_text (jwx.claims token).subject
    pub named : p.id ≢ []
    pub scopes : p.scopes ≡ scope_set (token_scopes (jwx.claims token))

  refresh-age :
      (now : ℕ) (fresh : Option K) (keys : Option (Jwks K)) (current : Jwks K)
      → refresh now fresh keys ≡ some current
      → now - current.fetched ≤ five_minutes
  unfolding refresh
  refresh-age now fresh none current h = elim (Option-cases fresh) [
    | inl failed ↦ absurd (ground arith)
    | inr (set, fetched) ↦ ground arith
  ]
  refresh-age now fresh (some keys) current h = elim (Bool-cases (is_stale (some keys) now)) [
    | inr new ↦ ground arith
    | inl old ↦ elim (Option-cases fresh) [
      | inl failed ↦ absurd (ground arith)
      | inr (set, fetched) ↦ ground arith
    ]
  ]

  -- A bearer token that is accepted was verified with a key set that is kept and at most five minutes
  -- old, by the policy's issuer and for one of its audiences, and the principal is its subject, which
  -- is not empty, with its scopes.
  pub verify_jwt-Verified :
      (now : ℕ) (fresh : Option K) (raw : Text) (keys : Option (Jwks K)) (p : Principal)
      → (verify_jwt now fresh raw keys).1 ≡ some p
      → Verified now raw (verify_jwt now fresh raw keys).0 p
  unfolding verify_jwt token_principal
  verify_jwt-Verified now fresh raw keys p h = elim (Option-cases (refresh now fresh keys)) [
    | inl failed ↦ absurd (ground arith)
    | inr (current, kept) ↦ elim (Option-cases (jwx.parse current.set now raw)) [
      | inl bad ↦ absurd (ground arith)
      | inr (token, parsed) ↦ record {
        current = current;
        kept = ground arith;
        age = refresh-age now fresh keys current kept;
        token = token;
        parsed = parsed;
        issuer = ground arith;
        audience = ground arith;
        subject = ground arith;
        named =
            λ e. is_empty-ne-nil (as_text (jwx.claims token).subject) (ground arith) (ground arith);
        scopes = ground arith;
      }
    ]
  ]
