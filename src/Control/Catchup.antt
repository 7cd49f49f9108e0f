-- ===== src/Control/Catchup.antt =====
-- How the gateways follow an activation: what a load makes of the active version.
use vial_gateway.Prelude.{
  ℕ, ◌^◌, ◌<◌, ◌≡◌, refl, ◌⊎◌, Option-cases, Bool-cases, true, false, some, ap, sym, ◌∙◌, ok, err,
  inl, inr, Result,
}
use vial_gateway.Prelude.Int.{ℤ, pos, eq_ℤ}
use vial_gateway.Text.{Text}
use vial_gateway.Number.{format_int, parse_int}
use vial_gateway.Number.RoundTrip.{parse_int-format_int}
use vial_gateway.Config.Types.{GatewayConfig}
use vial_gateway.Manager.{
  Host, Manager, Snapshot, CompileError, compile, activate, install, validate,
}
use vial_gateway.Manager.Swap.{Installed, activate_all_or_nothing, activate_of_validate}
use vial_gateway.Store.{Store, config_key, active_config_key, write}
use vial_gateway.Store.Writes.{write-same, write-other}
use vial_gateway.Store.Keys.{config_key-ne-active}
use vial_gateway.Control.{Codec, Calls, version_of, activate_config}
use vial_gateway.Control.Boot.{load, loaded}
use vial_gateway.Control.Activation.{is_json, activate_config_all_or_nothing}

module _ {B : Type 0} (host : Host B) (codec : Codec) where
  -- A manager that serves the snapshot of a configuration as a version of the store.
  abbrev pub Follows : ℤ → GatewayConfig → Manager B → Manager B → Type 0
  Follows version g m n =
      (n.redis_version ≡ version)
      × (s : Snapshot B) × (compile host m.environment m.allow_no_routes g ≡ ok s)
      × (n.current ≡ some s)

  loaded-Follows :
      (version : ℤ) (g : GatewayConfig) (m : Manager B)
      (a : Manager B × Result CompileError (Unit {0}))
      → a.1 ≡ ok tt
      → Installed host m g a.0
      → Follows version g m (loaded host codec version a)
  loaded-Follows version g m (n, ok u) done i = (refl, i.0, i.1, i.2)
  loaded-Follows version g m (n, err e) done i = cc

  installs :
      (m : Manager B) (g : GatewayConfig)
      → validate host m g ≡ ok tt
      → Installed host m g (activate host m g).0
  installs m g valid = elim (activate_all_or_nothing host m g) [
    | inl (_, i) ↦ i
    | inr (e, failed, _) ↦ cc (failed, activate_of_validate host m g valid)
  ]

  -- A load whose reads are answered makes a gateway follow the active version, where it does not
  -- already and the stored configuration is one that it can serve.
  pub load-Follows :
      (c : Calls) (s : Store) (m : Manager B) (version : ℤ) (t bytes : Text) (g : GatewayConfig)
      → c.first ≡ true
      → c.second ≡ true
      → s.strings active_config_key ≡ some t
      → parse_int t ≡ some version
      → s.strings (config_key version) ≡ some bytes
      → codec.decode bytes ≡ some g
      → validate host m g ≡ ok tt
      → eq_ℤ m.redis_version version ≡ false
      → Follows version g m (load host codec c s m)
  unfolding load
  load-Follows c s m version t bytes g up reads active parsed found decoded valid behind =
      rw (up, active)
        (rw (parsed, behind, reads, found)
          (rw decoded (
            loaded-Follows version g m (activate host m g) (activate_of_validate host m g valid)
              (installs m g valid))))

  -- What serves, and the version that it is held to be, stay.
  abbrev pub Stays : Manager B → Manager B → Type 0
  Stays m n = (n.current ≡ m.current) × (n.redis_version ≡ m.redis_version)

  loaded-cases :
      (version : ℤ) (g : GatewayConfig) (m : Manager B)
      → let n = loaded host codec version (activate host m g) in Stays m n ⊎ Follows version g m n
  unfolding activate
  loaded-cases version g m = go (compile host m.environment m.allow_no_routes g) refl
    where
      go :
          (r : Result CompileError (Snapshot B))
          → compile host m.environment m.allow_no_routes g ≡ r
          → let n = loaded host codec version (install host m g r) in
            Stays m n ⊎ Follows version g m n
      go (ok s) h = inr (refl, s, h, refl)
      go (err e) h = inl (refl, refl)

  -- A load leaves what serves, or makes the manager follow a version that is stored and decodes.
  pub load_cases :
      (c : Calls) (s : Store) (m : Manager B)
      → Stays m (load host codec c s m)
        ⊎ ((version : ℤ) × (bytes : Text) × (g : GatewayConfig) × (s.strings (config_key version)
              ≡ some bytes)
            × (codec.decode bytes ≡ some g)
            × Follows version g m (load host codec c s m))
  unfolding load
  load_cases c s m = elim (Bool-cases c.first) [
    | inr down ↦ rw (down, load) (inl (refl, refl))
    | inl up ↦ elim (Option-cases (s.strings active_config_key)) [
      | inl missing ↦ rw (up, missing) (inl (refl, refl))
      | inr (t, active) ↦ elim (Option-cases (parse_int t)) [
        | inl garbled ↦ rw (up, active) (rw garbled (inl (refl, refl)))
        | inr (version, parsed) ↦ elim (Bool-cases (eq_ℤ m.redis_version version)) [
          | inl same ↦ rw (up, active) (rw (parsed, same) (inl (refl, refl)))
          | inr new ↦ elim (Bool-cases c.second) [
            | inr lost ↦ rw (up, active) (rw (parsed, new, lost) (inl (refl, refl)))
            | inl read ↦ elim (Option-cases (s.strings (config_key version))) [
              | inl away ↦ rw (up, active) (rw (parsed, new, read, away) (inl (refl, refl)))
              | inr (bytes, found) ↦ elim (Option-cases (codec.decode bytes)) [
                | inl bad ↦
                    rw (up, active) (rw (parsed, new, read, found) (rw bad (inl (refl, refl))))
                | inr (g, decoded) ↦
                    rw (up, active)
                      (rw (parsed, new, read, found)
                        (rw decoded (elim (loaded-cases version g m) [
                          | inl same ↦ inl same
                          | inr follows ↦ inr (version, bytes, g, found, decoded, follows)
                        ])))
              ]
            ]
          ]
        ]
      ]
    ]
  ]

  -- An activation that is answered with success reaches every other gateway at its next load, where that
  -- gateway does not hold this number as its version yet, its
  -- reads are answered and it can serve the configuration that the transaction found stored under the
  -- version: that gateway then serves it as this version.
  pub activation_reaches :
      (c later : Calls) (actor action path_value if_match : Text) (seen s : Store)
      (m other : Manager B) (n : ℕ) (bytes : Text) (g : GatewayConfig)
      → is_json (activate_config host codec c actor action path_value if_match seen s m).2 ≡ true
      → version_of path_value ≡ some (pos n)
      → n < 2 ^ 63
      → s.strings (config_key (pos n)) ≡ some bytes
      → codec.decode bytes ≡ some g
      → validate host other g ≡ ok tt
      → later.first ≡ true
      → later.second ≡ true
      → eq_ℤ other.redis_version (pos n) ≡ false
      → Follows (pos n) g other (
          load host codec later
            (activate_config host codec c actor action path_value if_match seen s m).0
            other)
  activation_reaches c later actor action path_value if_match seen s m other n bytes g done parsed
        small found decoded valid up reads behind =
      elim (activate_config_all_or_nothing host codec c actor action path_value if_match seen s m) [
        | inl (refused, _, _) ↦ cc
        | inr (version, config, read, a) ↦
            let same : version ≡ pos n = cc (read.parsed, parsed) in
            let strings =
              a.strings ∙ ap (λ v. write active_config_key (some (format_int v)) s.strings) same in
            load-Follows later _ other (pos n) (format_int (pos n)) bytes g up reads
              (ap (λ f. f active_config_key) strings ∙ write-same active_config_key _ s.strings)
              (parse_int-format_int n small)
              (ap (λ f. f (config_key (pos n))) strings
                ∙ (write-other active_config_key (config_key (pos n)) _ s.strings
                      (λ e. config_key-ne-active n (sym e))
                    ∙ found))
              decoded valid behind
      ]
