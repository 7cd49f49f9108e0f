-- ===== src/Session/Callback.antt =====
-- How a callback ends: with an error, or with a session in the place of the pending login.
use vial_gateway.Prelude.{
  ◌≡◌, refl, true, [], ◌++◌, List, Option, none, some, Result, ok, err, arith, Option-cases,
  Bool-cases, Result-cases, inl, inr, ◌⊎◌, ap, sym, ◌∙◌, subst,
}
use vial_gateway.Text.{Text, codes}
use vial_gateway.Std.{Std}
use vial_gateway.Config.Types.{AdminConfig}
use vial_gateway.Store.{Store, put, delete, write, log}
use vial_gateway.Control.{Calls, audited}
use vial_gateway.Auth.{session_prefix}
use vial_gateway.Session.{
  SessionCodec, Oidc, Page, redirect, Visit, granted, session_of, session_ttl, cookie_of, sign_in,
  callback,
}
use vial_gateway.Session.Login.{is_fault, Granted, granted-Granted, granted-IsFaulty}

module _ (std : Std) (codec : SessionCodec) (admin : AdminConfig) where
  -- The store and the answer of a callback that signs somebody in.
  pub record SignedIn (oidc : Oidc) (v : Visit) (s : Store) (r : Store × Page) : Type 0 where
    pub cookie : (key : Text) × (v.cookie ≡ some key)
    pub subject : Text
    pub scopes : List Text
    pub stored : Text
    pub found : s.strings (session_prefix ++ cookie.0) ≡ some stored
    pub verdict : granted std codec admin oidc v stored ≡ ok (subject, scopes)
    pub granted : Granted std codec admin oidc v stored subject scopes
    pub csrf : Text
    pub id : Text
    pub strings :
        r.0.strings
        ≡ write
            (session_prefix ++ id)
            (some (codec.encode (session_of std codec admin csrf subject scopes)))
            (write (session_prefix ++ cookie.0) none s.strings)
    pub page :
        r.1
        ≡ redirect
            (codes "/admin")
            (some (cookie_of std codec admin id (session_ttl std codec admin)))

  -- What a callback that fails leaves: the store, or the store without the pending login it took.
  abbrev pub TookAtMost : Visit → Store → Store → Type 0
  TookAtMost v s t =
      (t ≡ s) ⊎ ((key : Text) × (v.cookie ≡ some key) × (t ≡ delete (session_prefix ++ key) s))

  pub audited-strings :
      (c : Calls) (actor action target : Text) (s : Store)
      → (audited c actor action target s).strings ≡ s.strings
  unfolding log
  audited-strings c actor action target s = ground arith

  -- How a callback ends.
  abbrev pub Ends : Oidc → Visit → Store → Store × Page → Type 0
  Ends oidc v s r = ((is_fault r.1 ≡ true) × TookAtMost v s r.0) ⊎ SignedIn oidc v s r

  sign_in-Ends :
      (oidc : Oidc) (c : Calls) (v : Visit) (csrf id : Option Text) (s : Store)
      (key stored subject : Text) (scopes : List Text)
      → v.cookie ≡ some key
      → s.strings (session_prefix ++ key) ≡ some stored
      → granted std codec admin oidc v stored ≡ ok (subject, scopes)
      → Granted std codec admin oidc v stored subject scopes
      → Ends oidc v s
          (sign_in std codec admin c csrf id subject scopes (delete (session_prefix ++ key) s))
  unfolding sign_in delete put
  sign_in-Ends oidc c v none id s key stored subject scopes named found passed g =
      inl (refl, inr (key, named, refl))
  sign_in-Ends oidc c v (some csrf) none s key stored subject scopes named found passed g =
      inl (refl, inr (key, named, refl))
  sign_in-Ends oidc c v (some csrf) (some id) s key stored subject scopes named found passed g =
      elim (Bool-cases c.second) [
        | inr down ↦ inl (rw (down, sign_in) (refl, inr (key, named, refl)))
        | inl up ↦
            rw (up, sign_in)
              (inr (record {
                cookie = (key, named);
                subject = subject;
                scopes = scopes;
                stored = stored;
                found = found;
                verdict = passed;
                granted = g;
                csrf = csrf;
                id = id;
                strings = audited-strings c subject (codes "session.login") [] _;
                page = refl;
              }))
      ]

  -- What follows the pending login being taken.
  abbrev pub settle :
      Calls → Option Text → Option Text → Store → Result Page (Text × List Text) → Store × Page
  settle c csrf id s (err page) = (s, page)
  settle c csrf id s (ok (subject, scopes)) = sign_in std codec admin c csrf id subject scopes s

  pub took :
      (oidc : Oidc) (c : Calls) (v : Visit) (csrf id : Option Text) (s : Store) (key stored : Text)
      → oidc.reachable ≡ true
      → v.cookie ≡ some key
      → c.first ≡ true
      → s.strings (session_prefix ++ key) ≡ some stored
      → callback std codec admin oidc c v csrf id s
        ≡ settle c csrf id
            (delete (session_prefix ++ key) s)
            (granted std codec admin oidc v stored)
  unfolding callback sign_in granted
  took oidc c v csrf id s key stored there named up found =
      rw (there, named, callback) (rw (up, found) (same (granted std codec admin oidc v stored)))
    where
      same :
          (r : Result Page (Text × List Text))
          → elim r [
            | err page ↦ (delete (session_prefix ++ key) s, page)
            | ok (subject, scopes) ↦
                sign_in std codec admin c csrf id subject scopes (delete (session_prefix ++ key) s)
          ]
            ≡ settle c csrf id (delete (session_prefix ++ key) s) r
      same (err page) = refl
      same (ok (subject, scopes)) = refl

  -- A callback either answers with an error, and at most takes the pending login that its cookie
  -- names; or it signs somebody in: the state was that of the pending login, the provider gave a
  -- verified ID token for the code, its scopes include gateway.admin, and all that changes of the keys
  -- is that the session takes the place of the pending login, under the id that the new cookie has.
  pub callback_cases :
      (oidc : Oidc) (c : Calls) (v : Visit) (csrf id : Option Text) (s : Store)
      → Ends oidc v s (callback std codec admin oidc c v csrf id s)
  unfolding callback sign_in delete put
  callback_cases oidc c v csrf id s = elim (Bool-cases oidc.reachable) [
    | inr away ↦ inl (rw (away, callback) (refl, inl refl))
    | inl there ↦ elim (Option-cases v.cookie) [
      | inl bare ↦ inl (rw (there, bare, callback) (refl, inl refl))
      | inr (key, named) ↦ elim (Bool-cases c.first) [
        | inr down ↦ inl (rw (there, named, down, callback) (refl, inl refl))
        | inl up ↦ elim (Option-cases (s.strings (session_prefix ++ key))) [
          | inl missing ↦ inl (rw (there, named, callback) (rw (up, missing) (refl, inl refl)))
          | inr (stored, found) ↦ elim (Result-cases (granted std codec admin oidc v stored)) [
            | inr (page, refused) ↦
                subst (Ends oidc v s)
                  (sym (
                    took oidc c v csrf id s key stored there named up found
                    ∙ ap (settle c csrf id (delete (session_prefix ++ key) s)) refused))
                  (inl (
                    granted-IsFaulty std codec admin oidc v stored page refused,
                    inr (key, named, refl),
                  ))
            | inl ((subject, scopes), passed) ↦
                subst (Ends oidc v s)
                  (sym (
                    took oidc c v csrf id s key stored there named up found
                    ∙ ap (settle c csrf id (delete (session_prefix ++ key) s)) passed))
                  (sign_in-Ends oidc c v csrf id s key stored subject scopes named found passed
                    (granted-Granted std codec admin oidc v stored subject scopes passed))
          ]
        ]
      ]
    ]
  ]
