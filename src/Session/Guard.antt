-- ===== src/Session/Guard.antt =====
-- Who reaches a handler of the control plane: what protect has checked.
use vial_gateway.Prelude.{
  ◌≡◌, refl, Bool, true, false, not, ◌&&◌, Option, some, arith, Option-cases, Bool-cases, inl, inr,
  ◌↔◌,
}
use vial_gateway.Text.{text_eq}
use vial_gateway.Text.Equality.{text_eq_iff}
use vial_gateway.Std.{Std}
use vial_gateway.Config.Types.{AdminConfig}
use vial_gateway.Store.{Store}
use vial_gateway.Control.{Calls}
use vial_gateway.Auth.{AdminIdentity, admin_authenticate}
use vial_gateway.Session.{SessionCodec, Visit, passed, csrf_token, changes, protect}

passed-injective : (a b : AdminIdentity) → passed a ≡ passed b → a ≡ b
passed-injective a b e = cc

module _ (std : Std) (codec : SessionCodec) (admin : AdminConfig) where
  -- Who the request is from.
  abbrev pub visitor : Calls → Store → Visit → Option AdminIdentity
  visitor c s v = admin_authenticate std codec.decode admin.bootstrap_key_sha c s v.header v.cookie

  -- What a request that reaches a handler has shown: an administrator's identity, and for a session
  -- and a method other than GET and HEAD its CSRF token.
  pub record Checked (c : Calls) (s : Store) (v : Visit) (identity : AdminIdentity) : Type 0 where
    pub known : visitor c s v ≡ some identity
    pub csrf : identity.session ≡ true → changes v.method ≡ true → csrf_token v ≡ identity.csrf

  -- Whether protect asks for a token that the request does not show.
  abbrev is_forged : Visit → AdminIdentity → Bool
  is_forged v identity =
      identity.session && changes v.method && not (text_eq (csrf_token v) identity.csrf)

  token_given :
      (identity : AdminIdentity) (v : Visit)
      → is_forged v identity ≡ false
      → identity.session ≡ true
      → changes v.method ≡ true
      → csrf_token v ≡ identity.csrf
  token_given identity v h by_session changing =
      (text_eq_iff (csrf_token v) identity.csrf).0 (ground arith)

  not_forged :
      (identity : AdminIdentity) (v : Visit)
      → (identity.session ≡ true → changes v.method ≡ true → csrf_token v ≡ identity.csrf)
      → is_forged v identity ≡ false
  not_forged identity v h = elim (Bool-cases identity.session) [
    | inr by_key ↦ rw by_key refl
    | inl by_session ↦ elim (Bool-cases (changes v.method)) [
      | inr reading ↦ rw (by_session, reading) refl
      | inl changing ↦
          rw
            (
              by_session,
              changing,
              (text_eq_iff (csrf_token v) identity.csrf).1 (h by_session changing),
            )
            refl
    ]
  ]

  -- A request reaches the handler behind protect for exactly the identity that the control plane
  -- finds for it, if that is no session's, or the method is GET or HEAD, or it has the session's CSRF
  -- token.
  pub protect-Checked :
      (c : Calls) (s : Store) (v : Visit) (identity : AdminIdentity)
      → (protect std codec admin c s v ≡ passed identity) ↔ Checked c s v identity
  unfolding protect
  protect-Checked c s v identity = (λ h. shown c s v identity h, λ k. reaches c s v identity k)
    where
      shown :
          (c : Calls) (s : Store) (v : Visit) (identity : AdminIdentity)
          → protect std codec admin c s v ≡ passed identity
          → Checked c s v identity
      shown c s v identity h = elim (Option-cases (visitor c s v)) [
        | inl unknown ↦ absurd (ground arith)
        | inr (found, at) ↦ elim (Bool-cases (is_forged v found)) [
          | inl forged ↦ absurd (ground arith)
          | inr fine ↦
              let same : found ≡ identity = passed-injective found identity (ground arith) in
              rw (← same) (record { known = at; csrf = token_given found v fine })
        ]
      ]

      reaches :
          (c : Calls) (s : Store) (v : Visit) (identity : AdminIdentity)
          → Checked c s v identity
          → protect std codec admin c s v ≡ passed identity
      reaches c s v identity k = rw (k.known, protect) (rw (not_forged identity v k.csrf) refl)
