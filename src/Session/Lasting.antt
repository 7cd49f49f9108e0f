-- ===== src/Session/Lasting.antt =====
-- What a session is good for, and how it ends.
use vial_gateway.Prelude.{
  ◌≡◌, refl, ◌≢◌, true, [], ◌++◌, Option, none, some, Bool-cases, inl, inr, ap, ◌∙◌,
}
use vial_gateway.Text.{Text, codes}
use vial_gateway.Std.{Std}
use vial_gateway.Config.Types.{AdminConfig}
use vial_gateway.Store.{Store, delete, write}
use vial_gateway.Store.Writes.{write-same, write-other}
use vial_gateway.Control.{Calls}
use vial_gateway.Auth.{AdminIdentity, session_prefix, session_identity}
use vial_gateway.Session.{SessionCodec, Oidc, Page, Visit, callback, logout}
use vial_gateway.Store.Keys.{append_cancel}
use vial_gateway.Session.Login.{is_fault}
use vial_gateway.Session.Callback.{SignedIn, audited-strings}

module _ (std : Std) (codec : SessionCodec) (admin : AdminConfig) where
  missing_refuses :
      (oidc : Oidc) (c : Calls) (v : Visit) (csrf id : Option Text) (s : Store) (key : Text)
      → v.cookie ≡ some key
      → s.strings (session_prefix ++ key) ≡ none
      → ((callback std codec admin oidc c v csrf id s).0 ≡ s)
        × (is_fault (callback std codec admin oidc c v csrf id s).1 ≡ true)
  unfolding callback
  missing_refuses oidc c v csrf id s key named missing = elim (Bool-cases oidc.reachable) [
    | inr away ↦ rw (away, callback) (refl, refl)
    | inl there ↦ elim (Bool-cases c.first) [
      | inr down ↦ rw (there, named, callback) (rw down (refl, refl))
      | inl up ↦ rw (there, named, callback) (rw (up, missing) (refl, refl))
    ]
  ]

  -- A pending login is used up by the callback that signs in: the same request again is answered with
  -- an error and changes nothing, unless the new session has the id of the pending login.
  pub callback_once :
      (oidc : Oidc) (v : Visit) (s : Store) (r : Store × Page) (c : Calls) (csrf id : Option Text)
      (in_ : SignedIn std codec admin oidc v s r)
      → in_.id ≢ in_.cookie.0
      → ((callback std codec admin oidc c v csrf id r.0).0 ≡ r.0)
        × (is_fault (callback std codec admin oidc c v csrf id r.0).1 ≡ true)
  callback_once oidc v s r c csrf id in_ fresh =
      let old = session_prefix ++ in_.cookie.0 in
      let emptied = write old none s.strings in
      let gone : r.0.strings old ≡ none =
        ap (λ f. f old) in_.strings
        ∙ (write-other (session_prefix ++ in_.id) old _ emptied
              (λ e. fresh (append_cancel session_prefix in_.id in_.cookie.0 e))
            ∙ write-same old none s.strings) in
      missing_refuses oidc c v csrf id r.0 in_.cookie.0 in_.cookie.1 gone

  pub logout-strings :
      (c : Calls) (v : Visit) (identity : AdminIdentity) (key : Text) (s : Store)
      → c.first ≡ true
      → v.cookie ≡ some key
      → (logout std codec admin c v identity s).0.strings
        ≡ write (session_prefix ++ key) none s.strings
  unfolding logout delete
  logout-strings c v identity key s up named =
      rw (named, logout)
        (rw up (
          audited-strings std codec admin c identity.subject (codes "session.logout") []
            (delete (session_prefix ++ key) s)))

  -- A logout whose Redis command is answered ends the session that its cookie names.
  logout_ends :
      (c later : Calls) (v : Visit) (identity : AdminIdentity) (key : Text) (s : Store)
      → c.first ≡ true
      → v.cookie ≡ some key
      → session_identity std codec.decode later (logout std codec admin c v identity s).0 (some key)
        ≡ none
  unfolding session_identity logout delete
  logout_ends c later v identity key s up named =
      let gone : (logout std codec admin c v identity s).0.strings (session_prefix ++ key) ≡ none =
        ap (λ f. f (session_prefix ++ key)) (logout-strings c v identity key s up named)
        ∙ write-same (session_prefix ++ key) none s.strings in
      elim (Bool-cases later.second) [
        | inr down ↦ rw (down, session_identity) refl
        | inl answers ↦ rw (answers, session_identity) (rw gone refl)
      ]
