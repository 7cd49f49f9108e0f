-- ===== src/Console/Mediation.antt =====
-- Which requests reach an action of the control plane, through the mux and protect of
-- cmd/gateway/control.go.
use vial_gateway.Prelude.{
  ◌≡◌, refl, Bool, true, false, not, List, [], ◌∷◌, Option, none, some, map, arith, Bool-cases,
  Option-cases, inl, inr, ◌⊎◌, All, sym, ◌∙◌, ap,
}
use vial_gateway.Text.{Text, codes, cut, text_eq}
use vial_gateway.Text.Equality.{text_eq_iff}
use vial_gateway.Std.{Std}
use vial_gateway.Dict.{lookup}
use vial_gateway.Config.Types.{AdminConfig}
use vial_gateway.Store.{Store}
use vial_gateway.Control.{Calls}
use vial_gateway.Auth.{AdminIdentity}
use vial_gateway.Session.{
  SessionCodec, Visit, Guarded, denied, passed, protect, csrf_token, changes,
}
use vial_gateway.Session.Guard.{visitor, protect-Checked}
use vial_gateway.Console.{
  Action, css, js, login, callback, logout, create_config, delete_config, activate_config,
  create_api_key, revoke_api_key, invalidate_cache, Entry, entries, reached, behind, entered,
  dispatch,
}

-- The actions that change what is in Redis, beside a login and its callback.
abbrev pub writes : Action → Bool
writes logout = true
writes create_config = true
writes delete_config = true
writes (activate_config name) = true
writes create_api_key = true
writes revoke_api_key = true
writes invalidate_cache = true
writes other = false

-- The actions that anybody may reach.
abbrev pub is_open : Action → Bool
is_open css = true
is_open js = true
is_open login = true
is_open callback = true
is_open other = false

-- The method that a pattern names.
abbrev pub method_of : Text → Text
method_of pattern = elim (cut 32 pattern) [ none ↦ [] | some (method, rest) ↦ method ]

-- http.ServeMux gives a request only a pattern of its method, where GET serves HEAD too.
abbrev pub FitsMethod : (List Text → Visit → Option Text) → Visit → Type 0
FitsMethod pick v =
    (patterns : List Text) (pattern : Text)
    → pick patterns v ≡ some pattern
    → (method_of pattern ≡ v.method)
      ⊎ ((method_of pattern ≡ codes "GET") × (v.method ≡ codes "HEAD"))

-- An action that is not open is guarded, and one that writes has a method that changes.
abbrev IsGuarded : Text × Entry → Type 0
IsGuarded (pattern, e) =
    (e.guarded ≡ not (is_open e.action))
    × (writes e.action ≡ true → (changes (method_of pattern) ≡ true) × (is_open e.action ≡ false))

entries-IsGuarded : All IsGuarded entries
unfolding entries cut text_eq
entries-IsGuarded = ground arith

lookup-All :
    (key : Text) (e : Entry) (m : List (Text × Entry))
    → All IsGuarded m
    → lookup key m ≡ some e
    → IsGuarded (key, e)
unfolding lookup
lookup-All key e [] a h = cc
lookup-All key e ((name, x) ∷ m) (here, a) h = elim (Bool-cases (text_eq name key)) [
  | inr other ↦ lookup-All key e m a (rw other at h)
  | inl same ↦
      let name-key : name ≡ key = (text_eq_iff name key).0 same in
      let met : x ≡ e = let h' = rw same at h in cc in rw (← name-key) (rw (← met) here)
]

changes-method :
    (pattern : Text) (v : Visit)
    → (method_of pattern ≡ v.method)
      ⊎ ((method_of pattern ≡ codes "GET") × (v.method ≡ codes "HEAD"))
    → changes (method_of pattern) ≡ true
    → changes v.method ≡ true
unfolding text_eq
changes-method pattern v (inl same) h = rw (← same) h
changes-method pattern v (inr (get, head)) h = let h' = rw get at h in cc

reached-injective :
    (a b : Action) (i j : Option AdminIdentity) → reached a i ≡ reached b j → (a ≡ b) × (i ≡ j)
reached-injective a b i j h = (cc, cc)

module _ (std : Std) (codec : SessionCodec) (admin : AdminConfig) where
  -- What the requester of an action has shown: nothing, where anybody may reach it; or else an
  -- administrator's identity, and for a session and an action that writes its CSRF token.
  abbrev pub MayReach : Calls → Store → Visit → Action → Option AdminIdentity → Type 0
  MayReach c s v action who =
      ((who ≡ none) × (is_open action ≡ true) × (writes action ≡ false))
      ⊎ ((identity : AdminIdentity) × (who ≡ some identity)
          × (is_open action ≡ false)
          × (visitor std codec admin c s v ≡ some identity)
          × (writes action ≡ true → identity.session ≡ true → csrf_token v ≡ identity.csrf))

  behind-passed :
      (a b : Action) (g : Guarded) (who : Option AdminIdentity)
      → behind std codec admin a g ≡ reached b who
      → (identity : AdminIdentity) × (g ≡ passed identity) × (a ≡ b) × (who ≡ some identity)
  behind-passed a b (denied page) who h = cc
  behind-passed a b (passed identity) who h =
      let (same, given) = reached-injective a b (some identity) who h in
      (identity, refl, same, sym given)

  entered-MayReach :
      (c : Calls) (s : Store) (v : Visit) (pattern : Text) (e : Entry) (action : Action)
      (who : Option AdminIdentity)
      → (changes (method_of pattern) ≡ true → changes v.method ≡ true)
      → IsGuarded (pattern, e)
      → entered std codec admin c s v (some e) ≡ reached action who
      → MayReach c s v action who
  entered-MayReach c s v pattern e action who method (guarded, writing) h =
      elim (Bool-cases (is_open e.action)) [
        | inl open_ ↦
            let bare : e.guarded ≡ false = guarded ∙ ap not open_ in
            let (same, given) = reached-injective e.action action none who (rw bare at h) in
            let free : writes e.action ≡ false = ground arith in
            inl (sym given, rw (← same) open_, rw (← same) free)
        | inr shut ↦
            let closed : e.guarded ≡ true = guarded ∙ ap not shut in
            let (identity, through, same, given) =
              behind-passed e.action action (protect std codec admin c s v) who (rw closed at h) in
            let checked = (protect-Checked std codec admin c s v identity).0 through in
            inr (
              identity,
              given,
              rw (← same) shut,
              checked.known,
              λ w by_session. checked.csrf by_session (method (writing (rw same w)).0),
            )
      ]

  -- A request reaches an action only as follows: it is one of the assets, the login or the callback;
  -- or the control plane finds an administrator's identity for the request, and where that is a
  -- session's and the action writes, the request has its CSRF token. That is so for a mux that gives a
  -- request only patterns of its method.
  pub dispatch_mediates :
      (pick : List Text → Visit → Option Text) (c : Calls) (s : Store) (v : Visit) (action : Action)
      (who : Option AdminIdentity)
      → FitsMethod pick v
      → dispatch std codec admin pick c s v ≡ reached action who
      → MayReach c s v action who
  unfolding dispatch
  dispatch_mediates pick c s v action who fits h =
      elim (Option-cases (pick (map (λ e. e.0) entries) v)) [
        | inl unknown ↦ absurd (ground arith)
        | inr (pattern, found) ↦ elim (Option-cases (lookup pattern entries)) [
          | inl missing ↦ absurd (ground arith)
          | inr (e, entry) ↦
              let inside : entered std codec admin c s v (some e) ≡ reached action who =
                ap (entered std codec admin c s v) (sym entry)
                ∙ sym (rw (found, dispatch) refl)
                ∙ h in
              entered-MayReach c s v pattern e action who
                (changes-method pattern v (fits _ pattern found))
                (lookup-All pattern e entries entries-IsGuarded entry) inside
        ]
      ]
