-- ===== src/Session/Login.antt =====
-- What a login that callback grants has shown to it.
use vial_gateway.Prelude.{
  ℕ, ◌≡◌, refl, Bool, true, false, not, List, Option, none, some, Result, ok, err, ap, sym,
  >>=-eq-ok, >>-eq-ok, refuse_if, refuse_if-eq-ok, ok-injective, ◌>>◌, ◌>>=◌,
}
use vial_gateway.Text.{Text, codes}
use vial_gateway.Text.Equality.{text_eq_iff}
use vial_gateway.Std.{Std}
use vial_gateway.Scopes.{scope_set}
use vial_gateway.Config.Types.{AdminConfig}
use vial_gateway.Auth.{AdminSession, is_admin}
use vial_gateway.Session.{
  SessionCodec, Token, Claims, Oidc, Page, fault, redirect, Visit, or_fault, granted_scopes,
  granted,
}

not-false : (b : Bool) → not b ≡ false → b ≡ true
not-false true h = refl
not-false false h = cc

pair-injective :
    (a b : Text) (x y : List Text)
    → ◌≡◌ {A = Result Page (Text × List Text)} (ok (a, x)) (ok (b, y))
    → (a ≡ b) × (x ≡ y)
pair-injective a b x y h = (cc, cc)

abbrev pub is_fault : Page → Bool
is_fault (fault status code) = true
is_fault (redirect to cookie) = false

-- A result whose error is a fault.
abbrev IsFaulty {ℓ} : {A : Type ℓ} → Result Page A → Type ℓ
IsFaulty r = (page : Page) → r ≡ err page → is_fault page ≡ true

bind-IsFaulty {ℓ κ} :
    {A : Type ℓ} {B : Type κ} (m : Result Page A) (f : A → Result Page B)
    → IsFaulty m
    → ((a : A) → IsFaulty (f a))
    → IsFaulty (m >>= f)
bind-IsFaulty (err e) f p q page h = p page (let same : e ≡ page = cc in ap err same)
bind-IsFaulty (ok a) f p q page h = q a page h

ok-IsFaulty {ℓ} : {A : Type ℓ} (a : A) → IsFaulty {A = A} (ok a)
ok-IsFaulty a page h = cc

refuse_if-IsFaulty :
    (b : Bool) (status : ℕ) (code : Text) → IsFaulty (refuse_if b (fault status code))
refuse_if-IsFaulty true status code page h =
    let same : fault status code ≡ page = cc in rw (← same) refl
refuse_if-IsFaulty false status code page h = cc

module _ (std : Std) (codec : SessionCodec) (admin : AdminConfig) where
  -- What a login that is granted has shown.
  pub record Granted (oidc : Oidc) (v : Visit) (stored : Text) (subject : Text) (scopes : List Text)
      : Type 0 where
    pub shown :
        (p : AdminSession) × (codec.decode stored ≡ some p)
        × (v.state ≡ p.state)
        × (t : Token) × (oidc.exchange v.code p.verifier ≡ some t)
        × (raw : Text) × (t.id_token ≡ some raw)
        × (verified : Text) × (oidc.verify raw ≡ some verified)
        × (c : Claims) × (oidc.claims verified ≡ some c)
        × (subject ≡ c.subject)
    pub scoped : is_admin (scope_set scopes) ≡ true

  or_fault-some {ℓ} :
      {A : Type ℓ} (status : ℕ) (code : Text) (o : Option A) (a : A)
      → or_fault std codec admin status code o ≡ ok a
      → o ≡ some a
  or_fault-some status code none a h = cc
  or_fault-some status code (some b) a h = ap some (ok-injective h)

  ends :
      (c : Claims) (t : Token) (subject : Text) (scopes : List Text)
      → ◌>>◌ {B = Text × List Text}
          (refuse_if
            (not (is_admin (scope_set (granted_scopes std codec admin c t))))
            (fault 403 (codes "insufficient_scope")))
          (ok (c.subject, granted_scopes std codec admin c t))
        ≡ ok (subject, scopes)
      → (subject ≡ c.subject) × (is_admin (scope_set scopes) ≡ true)
  ends c t subject scopes h =
      let (allowed, last) = >>-eq-ok _ _ h in
      let (named, listed) =
        pair-injective c.subject subject (granted_scopes std codec admin c t) scopes last in
      (sym named, rw (← listed) (not-false _ (refuse_if-eq-ok _ _ allowed)))

  pub granted-Granted :
      (oidc : Oidc) (v : Visit) (stored subject : Text) (scopes : List Text)
      → granted std codec admin oidc v stored ≡ ok (subject, scopes)
      → Granted oidc v stored subject scopes
  unfolding granted
  granted-Granted oidc v stored subject scopes h =
      let (p, h₁, k₁) = >>=-eq-ok _ _ h in
      let (h₂, k₂) = >>-eq-ok _ _ k₁ in
      let (t, h₃, k₃) = >>=-eq-ok _ _ k₂ in
      let (raw, h₄, k₄) = >>=-eq-ok _ _ k₃ in
      let (verified, h₅, k₅) = >>=-eq-ok _ _ k₄ in
      let (c, h₆, k₆) = >>=-eq-ok _ _ k₅ in
      let (named, admitted) = ends c t subject scopes k₆ in
      record {
        shown = (
          p,
          or_fault-some 400 _ _ p h₁,
          (text_eq_iff v.state p.state).0 (not-false _ (refuse_if-eq-ok _ _ h₂)),
          t,
          or_fault-some 401 _ _ t h₃,
          raw,
          or_fault-some 401 _ _ raw h₄,
          verified,
          or_fault-some 401 _ _ verified h₅,
          c,
          or_fault-some 401 _ _ c h₆,
          named,
        );
        scoped = admitted;
      }

  or_fault-IsFaulty {ℓ} :
      {A : Type ℓ} (status : ℕ) (code : Text) (o : Option A)
      → IsFaulty (or_fault std codec admin status code o)
  or_fault-IsFaulty status code none page h =
      let same : fault status code ≡ page = cc in rw (← same) refl
  or_fault-IsFaulty status code (some a) page h = cc

  pub granted-IsFaulty :
      (oidc : Oidc) (v : Visit) (stored : Text) → IsFaulty (granted std codec admin oidc v stored)
  unfolding granted
  granted-IsFaulty oidc v stored =
      bind-IsFaulty _ _ (or_fault-IsFaulty 400 _ (codec.decode stored)) (λ p.
        bind-IsFaulty _ _ (refuse_if-IsFaulty _ 400 _) (λ u.
          bind-IsFaulty _ _ (or_fault-IsFaulty 401 _ (oidc.exchange v.code p.verifier)) (λ t.
            bind-IsFaulty _ _ (or_fault-IsFaulty 401 _ t.id_token) (λ raw.
              bind-IsFaulty _ _ (or_fault-IsFaulty 401 _ (oidc.verify raw)) (λ verified.
                bind-IsFaulty _ _ (or_fault-IsFaulty 401 _ (oidc.claims verified))
                  (λ c. bind-IsFaulty _ _ (refuse_if-IsFaulty _ 403 _) (λ w. ok-IsFaulty _)))))))
