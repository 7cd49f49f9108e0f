-- ===== src/Control/Boot.antt =====
-- What a gateway does with the store by itself: Start and the load of watch of
-- cmd/gateway/control.go, which run when it starts, every five seconds, and on each message.
use vial_gateway.Prelude.{
  ℕ, ◌≡◌, refl, Bool, true, false, not, none, some, Option-cases, Bool-cases, inl, inr, ap, sym,
  subst, ◌∙◌, if◌then◌else◌, Result, ok, err,
}
use vial_gateway.Prelude.Int.{ℤ, pos, eq_ℤ}
use vial_gateway.Text.{Text}
use vial_gateway.Number.{format_int, parse_int}
use vial_gateway.Config.Types.{GatewayConfig}
use vial_gateway.Manager.{Host, Manager, CompileError, activate}
use vial_gateway.Manager.Swap.{IsServing, activate-IsServing}
use vial_gateway.Store.{Store, config_key, active_config_key, set_nx, put}
use vial_gateway.Control.{Codec, Calls}
use vial_gateway.Control.Sound.{IsSound, IsSound-active, IsSound-version, key-same}
use vial_gateway.Store.Writes.{write-same}

-- SETNX where the answer is not read, and may be an error
abbrev pub set_if_up : Bool → Text → Text → Store → Store
set_if_up false key value s = s
set_if_up true key value s = (set_nx key value s).0

module _ {B : Type 0} (host : Host B) (codec : Codec) where
  -- Start, without its goroutine
  unfoldable pub start : Calls → Bool → GatewayConfig → Store → Store
  start c control_only g s =
      let stored = set_if_up c.first (config_key g.version) (codec.encode g) s in
      if control_only then s else set_if_up c.second active_config_key (format_int g.version) stored

  -- What follows the activation: redisVersion moves only on success.
  abbrev pub loaded : ℤ → Manager B × Result CompileError (Unit {0}) → Manager B
  loaded version (m, ok u) = record m { redis_version = version }
  loaded version (m, err e) = m

  -- load
  unfoldable pub load : Calls → Store → Manager B → Manager B
  load c s m = if not c.first then m else elim (s.strings active_config_key) [
    | none ↦ m
    | some t ↦ elim (parse_int t) [
      | none ↦ m
      | some version ↦
          if eq_ℤ m.redis_version version
          then m
          else if not c.second
          then m
          else elim (s.strings (config_key version)) [
            | none ↦ m
            | some bytes ↦ elim (codec.decode bytes) [
              | none ↦ m
              | some g ↦ loaded version (activate host m g)
            ]
          ]
    ]
  ]

  loaded-IsServing :
      (version : ℤ) (m : Manager B) (a : Manager B × Result CompileError (Unit {0}))
      → IsServing host a.0
      → IsServing host (loaded version a)
  loaded-IsServing version m (n, ok u) h = h
  loaded-IsServing version m (n, err e) h = h

  -- A manager whose snapshot was compiled from the configuration that it shows stays one, whatever a
  -- load finds in the store.
  pub load-IsServing :
      (c : Calls) (s : Store) (m : Manager B) → IsServing host m → IsServing host (load c s m)
  unfolding load
  load-IsServing c s m h = elim (Bool-cases c.first) [
    | inr down ↦ rw down h
    | inl up ↦ elim (Option-cases (s.strings active_config_key)) [
      | inl missing ↦ rw (up, missing) h
      | inr (t, active) ↦ elim (Option-cases (parse_int t)) [
        | inl garbled ↦ rw (up, active) (rw garbled h)
        | inr (version, parsed) ↦ elim (Bool-cases (eq_ℤ m.redis_version version)) [
          | inl same ↦ rw (up, active) (rw (parsed, same) h)
          | inr new ↦ elim (Bool-cases c.second) [
            | inr lost ↦ rw (up, active) (rw (parsed, new, lost) h)
            | inl read ↦ elim (Option-cases (s.strings (config_key version))) [
              | inl none_there ↦ rw (up, active) (rw (parsed, new, read, none_there) h)
              | inr (bytes, found) ↦ elim (Option-cases (codec.decode bytes)) [
                | inl bad ↦ rw (up, active) (rw (parsed, new, read, found) (rw bad h))
                | inr (g, decoded) ↦
                    rw (up, active)
                      (rw (parsed, new, read, found)
                        (rw decoded (
                          loaded-IsServing version m (activate host m g)
                            (activate-IsServing host m g h))))
              ]
            ]
          ]
        ]
      ]
    ]
  ]

Stored : ℕ → Store → Type 0
Stored n s = (bytes : Text) × (s.strings (config_key (pos n)) ≡ some bytes)

version-Stored :
    (n : ℕ) (value : Text) (s : Store)
    → IsSound s
    → let t = (set_nx (config_key (pos n)) value s).0 in IsSound t × Stored n t
unfolding set_nx put Stored
version-Stored n value s sound = elim (Option-cases (s.strings (config_key (pos n)))) [
  | inr (old, found) ↦ rw (found, set_nx) (sound, (old, found))
  | inl free ↦
      rw (free, set_nx)
        (
          IsSound-version s (put (config_key (pos n)) value s) n (some value) refl
              (λ u active named.
                let (k, form, bytes, present) = sound u active in
                cc (present, free, ap s.strings (key-same k n (sym form ∙ named))))
              sound,
          (value, write-same (config_key (pos n)) (some value) s.strings),
        )
]

active-Stored :
    (up : Bool) (n : ℕ) (s : Store)
    → IsSound s
    → Stored n s
    → IsSound (set_if_up up active_config_key (format_int (pos n)) s)
unfolding set_nx put Stored
active-Stored false n s sound stored = sound
active-Stored true n s sound (bytes, present) = elim (Option-cases (s.strings active_config_key)) [
  | inr (old, found) ↦ rw (set_if_up, found) sound
  | inl free ↦
      rw (set_if_up, free)
        (IsSound-active s (put active_config_key (format_int (pos n)) s) n bytes refl present)
]

module _ {B : Type 0} (host : Host B) (codec : Codec) where
  -- In a store whose active version is stored, Start with a configuration whose version is not
  -- negative leaves it so, if its first command is answered.
  start-IsSound :
      (c : Calls) (control_only : Bool) (g : GatewayConfig) (n : ℕ) (s : Store)
      → c.first ≡ true
      → g.version ≡ pos n
      → IsSound s
      → IsSound (start host codec c control_only g s)
  unfolding start
  start-IsSound c true g n s answers version sound = sound
  start-IsSound c false g n s answers version sound =
      let (still, stored) = version-Stored n (codec.encode g) s sound in
      rw answers (
        subst
          (λ v. IsSound (
            set_if_up c.second active_config_key (format_int v)
              (set_nx (config_key v) (codec.encode g) s).0))
          (sym version)
          (active-Stored c.second n (set_nx (config_key (pos n)) (codec.encode g) s).0 still
            stored))
