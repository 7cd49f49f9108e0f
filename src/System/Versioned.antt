-- ===== src/System/Versioned.antt =====
-- The store as a register of versions: every step of the system is at most one move of the register.
use vial_gateway.Prelude.{
  ℕ, ◌≡◌, refl, Bool, true, false, Option, none, some, ap, sym, ◌∙◌, subst, Option-cases,
  Bool-cases, inl, inr,
}
use vial_gateway.Prelude.Int.{pos}
use vial_gateway.Text.{Text}
use vial_gateway.Number.{format_int}
use vial_gateway.Dict.{or_empty}
use vial_gateway.Config.Types.{GatewayConfig}
use vial_gateway.Config.Accepted.{validate_gateway-Passed}
use vial_gateway.Manager.{Host, Manager}
use vial_gateway.Store.{Store, config_key, active_config_key, set_nx, put, write}
use vial_gateway.Store.Register.{
  Register, view, view-version, view-active, Moves, stays, adds, drops, switches, begins,
}
use vial_gateway.Control.{Codec, Calls, create_config, delete_config, activate_config}
use vial_gateway.Control.Boot.{start, set_if_up}
use vial_gateway.Control.Sound.{positive, version_of-positive}
use vial_gateway.Control.Versions.{delete_config_cases, create_config_cases}
use vial_gateway.Control.Activation.{activate_config_all_or_nothing}

abbrev pub Turns : Store → Store → Type 0
Turns s t = Moves (view s.strings) (view t.strings)

-- A store whose strings are the same, or whose view is.
pub same-Turns : (s t : Store) → t.strings ≡ s.strings → Turns s t
same-Turns s t e = subst (λ f. Moves (view s.strings) (view f)) (sym e) (stays (view s.strings))

unchanged-Turns : (s t : Store) → t ≡ s → Turns s t
unchanged-Turns s t e = subst (Turns s) (sym e) (stays (view s.strings))

pub delete_config-Turns :
    (c : Calls) (actor path_value : Text) (s : Store)
    → Turns s (delete_config c actor path_value s).0
delete_config-Turns c actor path_value s = elim (delete_config_cases c actor path_value s) [
  | inl (_, same) ↦ unchanged-Turns s _ same
  | inr (version, parsed, _, d) ↦
      let (n, e) = version_of-positive path_value version parsed in
      let written : (delete_config c actor path_value s).0.strings
          ≡ write (config_key (pos n)) none s.strings =
        d.strings ∙ ap (λ v. write (config_key v) none s.strings) e in
      subst (Moves (view s.strings)) (sym (ap view written ∙ view-version n none s.strings)) (
        drops (view s.strings) n
          (λ active. d.not_active (ap or_empty active ∙ ap format_int (sym e))))
]

module _ {B : Type 0} (host : Host B) (codec : Codec) where
  pub create_config-Turns :
      (c : Calls) (m : Manager B) (actor : Text) (body : Option GatewayConfig) (s : Store)
      → Turns s (create_config host codec c m actor body s).0
  create_config-Turns c m actor body s = elim (create_config_cases host codec c m actor body s) [
    | inl (_, same) ↦ unchanged-Turns s _ same
    | inr (g, _, _, d) ↦
        let (n, e) =
          positive g.version
            (validate_gateway-Passed host.std g m.environment false d.valid).version in
        let written : (create_config host codec c m actor body s).0.strings
            ≡ write (config_key (pos n)) (some (codec.encode g)) s.strings =
          d.strings ∙ ap (λ v. write (config_key v) (some (codec.encode g)) s.strings) e in
        subst (Moves (view s.strings))
          (sym (ap view written ∙ view-version n (some (codec.encode g)) s.strings))
          (adds (view s.strings) n (codec.encode g)
            (sym (ap (λ v. s.strings (config_key v)) e) ∙ d.free))
  ]

  pub activate_config-Turns :
      (c : Calls) (actor action path_value if_match : Text) (seen s : Store) (m : Manager B)
      → Turns s (activate_config host codec c actor action path_value if_match seen s m).0
  activate_config-Turns c actor action path_value if_match seen s m =
      elim (activate_config_all_or_nothing host codec c actor action path_value if_match seen s m) [
        | inl (_, same, _) ↦ unchanged-Turns s _ same
        | inr (version, g, read, a) ↦
            let (n, e) = version_of-positive path_value version read.parsed in
            let (bytes, present) = a.present in
            subst (Moves (view s.strings))
              (sym (
                ap view
                  (a.strings ∙ ap (λ v. write active_config_key (some (format_int v)) s.strings) e)
                ∙ view-active (format_int (pos n)) s.strings))
              (switches (view s.strings) n bytes
                (sym (ap (λ v. s.strings (config_key v)) e) ∙ present))
      ]

set_nx-free :
    (key value : Text) (s : Store) → s.strings key ≡ none → (set_nx key value s).0 ≡ put key value s
unfolding set_nx
set_nx-free key value s free = rw (free, set_nx) refl

set_nx-taken :
    (key value old : Text) (s : Store) → s.strings key ≡ some old → (set_nx key value s).0 ≡ s
unfolding set_nx
set_nx-taken key value old s taken = rw (taken, set_nx) refl

-- Start in a store that has the version.
set_active-Turns :
    (up : Bool) (n : ℕ) (bytes : Text) (s : Store)
    → s.strings (config_key (pos n)) ≡ some bytes
    → Turns s (set_if_up up active_config_key (format_int (pos n)) s)
unfolding put
set_active-Turns false n bytes s present = stays (view s.strings)
set_active-Turns true n bytes s present = elim (Option-cases (s.strings active_config_key)) [
  | inr (old, found) ↦ unchanged-Turns s _ (set_nx-taken active_config_key _ old s found)
  | inl free ↦ subst (Turns s) (sym (set_nx-free active_config_key (format_int (pos n)) s free)) (
      subst (Moves (view s.strings)) (sym (view-active (format_int (pos n)) s.strings))
        (switches (view s.strings) n bytes present))
]

-- Start in a store that has not.
set_first-Turns :
    (n : ℕ) (bytes : Text) (s : Store)
    → s.strings (config_key (pos n)) ≡ none
    → Turns s (put (config_key (pos n)) bytes s)
unfolding put
set_first-Turns n bytes s free =
    subst (Moves (view s.strings)) (sym (view-version n (some bytes) s.strings))
      (adds (view s.strings) n bytes free)

set_both-Turns :
    (up : Bool) (n : ℕ) (bytes : Text) (s : Store)
    → s.strings (config_key (pos n)) ≡ none
    → Turns s
        (set_if_up up active_config_key (format_int (pos n)) (put (config_key (pos n)) bytes s))
unfolding put
set_both-Turns false n bytes s free = set_first-Turns n bytes s free
set_both-Turns true n bytes s free =
    let s1 = put (config_key (pos n)) bytes s in
    let stored = view-version n (some bytes) s.strings in
    let same : s1.strings active_config_key ≡ s.strings active_config_key =
      ap (λ r. r.active) stored in
    elim (Option-cases (s.strings active_config_key)) [
      | inr (old, found) ↦
          subst (Turns s) (sym (set_nx-taken active_config_key _ old s1 (same ∙ found)))
            (set_first-Turns n bytes s free)
      | inl inactive ↦
          subst (Turns s)
            (sym (set_nx-free active_config_key (format_int (pos n)) s1 (same ∙ inactive)))
            (subst (Moves (view s.strings))
              (sym (
                view-active (format_int (pos n)) s1.strings
                ∙ ap {A = Register} {B = Register}
                    (λ r. record r { active = some (format_int (pos n)) }) stored))
              (begins (view s.strings) n bytes free inactive))
    ]

start_pos-Turns :
    (up : Bool) (n : ℕ) (bytes : Text) (s : Store)
    → Turns s (
        set_if_up up active_config_key (format_int (pos n)) (set_nx (config_key (pos n)) bytes s).0)
start_pos-Turns up n bytes s = elim (Option-cases (s.strings (config_key (pos n)))) [
  | inr (old, found) ↦
      subst (λ t. Turns s (set_if_up up active_config_key (format_int (pos n)) t))
        (sym (set_nx-taken (config_key (pos n)) bytes old s found))
        (set_active-Turns up n old s found)
  | inl free ↦
      subst (λ t. Turns s (set_if_up up active_config_key (format_int (pos n)) t))
        (sym (set_nx-free (config_key (pos n)) bytes s free)) (set_both-Turns up n bytes s free)
]

module _ {B : Type 0} (host : Host B) (codec : Codec) where
  pub start-Turns :
      (c : Calls) (control_only : Bool) (g : GatewayConfig) (n : ℕ) (s : Store)
      → (c.second ≡ true → c.first ≡ true)
      → g.version ≡ pos n
      → Turns s (start host codec c control_only g s)
  unfolding start
  start-Turns c true g n s in_order version = stays (view s.strings)
  start-Turns c false g n s in_order version = elim (Bool-cases c.first) [
    | inl answered ↦ rw answered (
        subst
          (λ v. Turns s (
            set_if_up c.second active_config_key (format_int v)
              (set_nx (config_key v) (codec.encode g) s).0))
          (sym version) (start_pos-Turns c.second n (codec.encode g) s))
    | inr failed ↦ elim (Bool-cases c.second) [
      | inl second ↦ absurd (cc (in_order second, failed))
      | inr neither ↦ rw (failed, neither) (stays (view s.strings))
    ]
  ]
