-- ===== src/System/Elsewhere.antt =====
-- The steps that write other keys of Redis than those of the configurations: API keys and logins.
use mathlib.Core.Path.{fun_ext}
use vial_gateway.Prelude.{
  ℕ, ◌≡◌, refl, ◌≢◌, List, [], ◌++◌, Option, none, some, ap, sym, ◌∙◌, subst, arith, Bool-cases,
  Option-cases, inl, inr, ◌⊎◌, get_elem?,
}
use vial_gateway.Prelude.Int.{pos}
use vial_gateway.Text.{Text, codes, is_empty}
use vial_gateway.Std.{Std}
use vial_gateway.Config.Types.{AdminConfig}
use vial_gateway.Store.{Store, config_key, active_config_key, put, delete, write, log}
use vial_gateway.Store.Writes.{write-other}
use vial_gateway.Store.Register.{view, Moves, stays}
use vial_gateway.Control.{Calls}
use vial_gateway.Auth.{create_api_key, revoke_api_key, hset, session_prefix, AdminIdentity}
use vial_gateway.Session.{
  SessionCodec, Oidc, Visit, login, login_elsewhere, pending, session_of, callback, logout,
}
use vial_gateway.Session.Callback.{callback_cases, audited-strings}
use vial_gateway.Session.Lasting.{logout-strings}
use vial_gateway.System.Versioned.{Turns, same-Turns}

-- A store that reads the same at the configurations' keys.
pub view-same :
    (f h : Text → Option Text)
    → ((n : ℕ) → h (config_key (pos n)) ≡ f (config_key (pos n)))
    → h active_config_key ≡ f active_config_key
    → view h ≡ view f
view-same f h versions active =
    let stored = fun_ext versions in λ i. record { versions = stored i; active = active i }

abbrev pub Apart : Text → Type 0
Apart key = ((n : ℕ) → key ≢ config_key (pos n)) × (key ≢ active_config_key)

some-injective : (a b : ℕ) → some a ≡ some b → a ≡ b
some-injective a b e = cc

-- Texts that differ at a place.
pub differ :
    (i : ℕ) (s t : Text) (a b : ℕ) → get_elem? s i ≡ some a → get_elem? t i ≡ some b → a ≢ b → s ≢ t
differ i s t a b at_s at_t apart e =
    apart (some-injective a b (sym at_s ∙ (ap (λ u. get_elem? u i) e ∙ at_t)))

session-Apart : (id : Text) → Apart (session_prefix ++ id)
unfolding config_key
session-Apart id = (
  λ n. differ 13 _ _ b's' b'c' refl refl (λ e. omega arith),
  differ 13 _ _ b's' b'c' refl refl (λ e. omega arith),
)

view-write :
    (key : Text) (v : Option Text) (f : Text → Option Text)
    → Apart key
    → view (write key v f) ≡ view f
view-write key v f (versions, active) =
    view-same f (write key v f) (λ n. write-other key (config_key (pos n)) v f (versions n))
      (write-other key active_config_key v f active)

write-Turns :
    (key : Text) (v : Option Text) (s t : Store)
    → Apart key
    → t.strings ≡ write key v s.strings
    → Turns s t
write-Turns key v s t apart e =
    subst (Moves (view s.strings)) (sym (ap view e ∙ view-write key v s.strings apart))
      (stays (view s.strings))

pub create_api_key-Turns :
    (std : Std) (c : Calls) (actor : Text) (body : Option (Text × List Text)) (token : Option Text)
    (s : Store)
    → Turns s (create_api_key std c actor body token s).0
unfolding create_api_key hset log
create_api_key-Turns std c actor body token s =
    same-Turns s (create_api_key std c actor body token s).0 (ground arith)

pub revoke_api_key-Turns :
    (c : Calls) (actor id : Text) (s : Store) → Turns s (revoke_api_key c actor id s).0
unfolding revoke_api_key hset log
revoke_api_key-Turns c actor id s = same-Turns s (revoke_api_key c actor id s).0 (ground arith)

module _ (std : Std) (codec : SessionCodec) (admin : AdminConfig) where
  -- A store that is as it was, or has one more session or login, or one fewer.
  abbrev WritesSession : Store → Store → Type 0
  WritesSession s t =
      (t ≡ s)
      ⊎ ((id : Text) × (v : Option Text) × (t.strings ≡ write (session_prefix ++ id) v s.strings))

  written-Turns : (s t : Store) → WritesSession s t → Turns s t
  written-Turns s t (inl same) = same-Turns s t (ap (λ u. u.strings) same)
  written-Turns s t (inr (id, v, e)) = write-Turns (session_prefix ++ id) v s t (session-Apart id) e

  login-WritesSession :
      (oidc : Oidc) (c : Calls) (v : Visit) (state : Option Text) (verifier : Text)
      (id : Option Text) (s : Store)
      → WritesSession s (login std codec admin oidc c v state verifier id s).0
  unfolding login put
  login-WritesSession oidc c v state verifier id s =
      elim (Option-cases (login_elsewhere std codec admin v)) [
        | inr (location, elsewhere) ↦ inl (rw (elsewhere, login) refl)
        | inl at_home ↦ elim (Bool-cases (is_empty admin.oidc_issuer)) [
          | inl disabled ↦ inl (rw (at_home, login) (rw disabled refl))
          | inr enabled ↦ elim (Bool-cases oidc.reachable) [
            | inr away ↦ inl (rw (at_home, login) (rw (enabled, away) refl))
            | inl there ↦ elim (Option-cases state) [
              | inl no_state ↦ inl (rw (at_home, login) (rw (enabled, there, no_state) refl))
              | inr (st, drawn) ↦ elim (Option-cases id) [
                | inl no_id ↦ inl (rw (at_home, login) (rw (enabled, there, drawn, no_id) refl))
                | inr (key, named) ↦ elim (Bool-cases c.first) [
                  | inr down ↦
                      inl (rw (at_home, login) (rw (enabled, there, drawn, named, down) refl))
                  | inl up ↦ inr (
                    key,
                    some (codec.encode (pending std codec admin st verifier)),
                    rw (at_home, login) (rw (enabled, there, drawn, named, up) refl),
                  )
                ]
              ]
            ]
          ]
        ]
      ]

  pub login-Turns :
      (oidc : Oidc) (c : Calls) (v : Visit) (state : Option Text) (verifier : Text)
      (id : Option Text) (s : Store)
      → Turns s (login std codec admin oidc c v state verifier id s).0
  login-Turns oidc c v state verifier id s =
      written-Turns s _ (login-WritesSession oidc c v state verifier id s)

  pub callback-Turns :
      (oidc : Oidc) (c : Calls) (v : Visit) (csrf id : Option Text) (s : Store)
      → Turns s (callback std codec admin oidc c v csrf id s).0
  unfolding delete
  callback-Turns oidc c v csrf id s = elim (callback_cases std codec admin oidc c v csrf id s) [
    | inl (_, inl same) ↦ written-Turns s _ (inl same)
    | inl (_, inr (key, _, taken)) ↦
        written-Turns s (callback std codec admin oidc c v csrf id s).0
          (inr (key, none, ap (λ t. t.strings) taken))
    | inr in_ ↦
        let old = session_prefix ++ in_.cookie.0 in
        let new = session_prefix ++ in_.id in
        let value =
          some (codec.encode (session_of std codec admin in_.csrf in_.subject in_.scopes)) in
        subst (Moves (view s.strings))
          (sym (
            ap view in_.strings
            ∙ (view-write new value (write old none s.strings) (session-Apart in_.id)
                ∙ view-write old none s.strings (session-Apart in_.cookie.0))))
          (stays (view s.strings))
  ]

  pub logout-Turns :
      (c : Calls) (v : Visit) (identity : AdminIdentity) (s : Store)
      → Turns s (logout std codec admin c v identity s).0
  unfolding logout delete
  logout-Turns c v identity s = elim (Option-cases v.cookie) [
    | inl bare ↦ same-Turns s (logout std codec admin c v identity s).0 (
        rw (bare, logout)
          (audited-strings std codec admin c identity.subject (codes "session.logout") [] s))
    | inr (key, named) ↦ elim (Bool-cases c.first) [
      | inr down ↦ same-Turns s (logout std codec admin c v identity s).0 (
          rw (named, logout)
            (rw down
              (audited-strings std codec admin c identity.subject (codes "session.logout") [] s)))
      | inl up ↦
          written-Turns s (logout std codec admin c v identity s).0
            (inr (key, none, logout-strings std codec admin c v identity key s up named))
    ]
  ]
