-- ===== src/Control/Watch.antt =====
-- The loop of watch of cmd/gateway/control.go: the timer, the messages on the activation topic and the
-- end of the subscription come in any order, each with what Redis answers then.
use vial_gateway.Prelude.{
  ◌≡◌, refl, Bool, true, false, List, [], ◌∷◌, ◌++◌, some, Result, ok, err, Option-cases,
  Bool-cases, inl, inr, All, ap, sym, ◌∙◌, arith,
}
use vial_gateway.Prelude.Int.{ℤ, eq_ℤ}
use vial_gateway.Text.{Text}
use vial_gateway.Number.{parse_int}
use vial_gateway.Config.Types.{GatewayConfig}
use vial_gateway.Manager.{Host, Manager, Snapshot, CompileError, compile, activate, validate}
use vial_gateway.Manager.Swap.{activate-environment}
use vial_gateway.Store.{Store, config_key, active_config_key}
use vial_gateway.Control.{Codec, Calls}
use vial_gateway.Control.Boot.{load, loaded}
use vial_gateway.Control.Catchup.{load-Follows, load_cases}

pub data WatchEvent : Type 0 where
  tick message : Calls → Store → WatchEvent
  -- the channel of messages is closed, and the context is cancelled
  closed done : WatchEvent

module _ {B : Type 0} (host : Host B) (codec : Codec) where
  -- The loop, with whether its channel is open; a closed one gives no messages.
  unfoldable pub watch_loop : Bool → List WatchEvent → Manager B → Manager B
  watch_loop open_ [] m = m
  watch_loop open_ (done ∷ events) m = m
  watch_loop open_ (closed ∷ events) m = watch_loop false events m
  watch_loop open_ (tick c s ∷ events) m = watch_loop open_ events (load host codec c s m)
  watch_loop true (message c s ∷ events) m = watch_loop true events (load host codec c s m)
  watch_loop false (message c s ∷ events) m = watch_loop false events m

  -- watch, which loads before its loop
  unfoldable pub watch : Calls → Store → List WatchEvent → Manager B → Manager B
  unfolding watch_loop
  watch c s events m = watch_loop true events (load host codec c s m)

  loaded-environment :
      (version : ℤ) (m : Manager B) (a : Manager B × Result CompileError (Unit {0}))
      → (a.0.environment ≡ m.environment) × (a.0.allow_no_routes ≡ m.allow_no_routes)
      → ((loaded host codec version a).environment ≡ m.environment)
        × ((loaded host codec version a).allow_no_routes ≡ m.allow_no_routes)
  loaded-environment version m (n, ok u) h = h
  loaded-environment version m (n, err e) h = h

  pub load-environment :
      (c : Calls) (s : Store) (m : Manager B)
      → ((load host codec c s m).environment ≡ m.environment)
        × ((load host codec c s m).allow_no_routes ≡ m.allow_no_routes)
  unfolding load
  load-environment c s m = elim (Bool-cases c.first) [
    | inr down ↦ rw (down, load) (refl, refl)
    | inl up ↦ elim (Option-cases (s.strings active_config_key)) [
      | inl missing ↦ rw (up, missing) (refl, refl)
      | inr (t, active) ↦ elim (Option-cases (parse_int t)) [
        | inl garbled ↦ rw (up, active) (rw garbled (refl, refl))
        | inr (version, parsed) ↦ elim (Bool-cases (eq_ℤ m.redis_version version)) [
          | inl same ↦ rw (up, active) (rw (parsed, same) (refl, refl))
          | inr new ↦ elim (Bool-cases c.second) [
            | inr lost ↦ rw (up, active) (rw (parsed, new, lost) (refl, refl))
            | inl read ↦ elim (Option-cases (s.strings (config_key version))) [
              | inl away ↦ rw (up, active) (rw (parsed, new, read, away) (refl, refl))
              | inr (bytes, found) ↦ elim (Option-cases (codec.decode bytes)) [
                | inl bad ↦ rw (up, active) (rw (parsed, new, read, found) (rw bad (refl, refl)))
                | inr (g, decoded) ↦
                    rw (up, active)
                      (rw (parsed, new, read, found)
                        (rw decoded (
                          loaded-environment version m (activate host m g)
                            (activate-environment host m g))))
              ]
            ]
          ]
        ]
      ]
    ]
  ]

  -- The configuration that the manager takes the version for is the one that it serves.
  abbrev pub Serves : ℤ → GatewayConfig → Manager B → Manager B → Type 0
  Serves version g m n =
      (s : Snapshot B) × (compile host m.environment m.allow_no_routes g ≡ ok s)
      × (n.current ≡ some s)

  record Sound (version : ℤ) (g : GatewayConfig) (m n : Manager B) : Type 0 where
    environment : n.environment ≡ m.environment
    allow_no_routes : n.allow_no_routes ≡ m.allow_no_routes
    serves : n.redis_version ≡ version → Serves version g m n

  -- What is read as the version decodes to the configuration.
  abbrev pub Keeps : ℤ → GatewayConfig → Store → Type 0
  Keeps version g s =
      (bytes : Text) → s.strings (config_key version) ≡ some bytes → codec.decode bytes ≡ some g

  same-compile :
      (m n : Manager B) (g : GatewayConfig)
      → n.environment ≡ m.environment
      → n.allow_no_routes ≡ m.allow_no_routes
      → compile host n.environment n.allow_no_routes g
        ≡ compile host m.environment m.allow_no_routes g
  same-compile m n g environment allow =
      ap (λ e. compile host e n.allow_no_routes g) environment
      ∙ ap (λ a. compile host m.environment a g) allow

  load-Sound :
      (c : Calls) (s : Store) (version : ℤ) (g : GatewayConfig) (m n : Manager B)
      → Keeps version g s
      → Sound version g m n
      → Sound version g m (load host codec c s n)
  load-Sound c s version g m n keeps sound =
      let (environment, allow) = load-environment c s n in
      record {
        environment = environment ∙ sound.environment;
        allow_no_routes = allow ∙ sound.allow_no_routes;
        serves = λ at. elim (load_cases host codec c s n) [
          | inl (current, same) ↦
              let (t, compiled, now) = sound.serves (sym same ∙ at) in (t, compiled, current ∙ now)
          | inr (other, bytes, g', found, decoded, (now, t, compiled, serving)) ↦
              let is : other ≡ version = sym now ∙ at in
              let kept : codec.decode bytes ≡ some g =
                keeps bytes (ap (λ v. s.strings (config_key v)) (sym is) ∙ found) in
              let same : g' ≡ g = cc (decoded, kept) in
              (
                t,
                sym (same-compile m n g sound.environment sound.allow_no_routes)
                    ∙ (ap (compile host n.environment n.allow_no_routes) (sym same) ∙ compiled),
                serving,
              )
        ];
      }

  validate-same :
      (version : ℤ) (m n : Manager B) (g : GatewayConfig)
      → Sound version g m n
      → validate host m g ≡ ok tt
      → validate host n g ≡ ok tt
  unfolding validate
  validate-same version m n g sound h = rw (sound.environment, sound.allow_no_routes) h

  -- What an event does before the context is cancelled.
  abbrev pub GoesOn : WatchEvent → Type 0
  GoesOn done = ⊥
  GoesOn other = Unit {0}

  -- What it reads as the version.
  abbrev pub Reads : ℤ → GatewayConfig → WatchEvent → Type 0
  Reads version g (tick c s) = Keeps version g s
  Reads version g (message c s) = Keeps version g s
  Reads version g other = Unit {0}

  watch_loop-append :
      (open_ : Bool) (before after : List WatchEvent) (version : ℤ) (g : GatewayConfig)
      (m n : Manager B)
      → All GoesOn before
      → All (Reads version g) before
      → Sound version g m n
      → (open' : Bool) × (n' : Manager B) × Sound version g m n'
        × (watch_loop open_ (before ++ after) n ≡ watch_loop open' after n')
  unfolding watch_loop
  watch_loop-append open_ [] after version g m n h k sound = (open_, n, sound, refl)
  watch_loop-append open_ (done ∷ before) after version g m n (h, hs) k sound = elim h [ ]
  watch_loop-append open_ (closed ∷ before) after version g m n (h, hs) (k, ks) sound =
      watch_loop-append false before after version g m n hs ks sound
  watch_loop-append false (message c s ∷ before) after version g m n (h, hs) (k, ks) sound =
      watch_loop-append false before after version g m n hs ks sound
  watch_loop-append open_ (tick c s ∷ before) after version g m n (h, hs) (k, ks) sound =
      watch_loop-append open_ before after version g m (load host codec c s n) hs ks
        (load-Sound c s version g m n k sound)
  watch_loop-append true (message c s ∷ before) after version g m n (h, hs) (k, ks) sound =
      watch_loop-append true before after version g m (load host codec c s n) hs ks
        (load-Sound c s version g m n k sound)

  -- The active version is the given one, wherever Redis answers.
  abbrev pub Names : ℤ → Calls → Store → Type 0
  Names version c s =
      (t : Text)
      → c.first ≡ true
      → s.strings active_config_key ≡ some t
      → parse_int t ≡ some version

  abbrev pub Shows : ℤ → WatchEvent → Type 0
  Shows version (tick c s) = Names version c s
  Shows version (message c s) = Names version c s
  Shows version other = Unit {0}

  load-idle :
      (c : Calls) (s : Store) (m : Manager B) (version : ℤ)
      → m.redis_version ≡ version
      → Names version c s
      → load host codec c s m ≡ m
  unfolding load
  load-idle c s m version at named = elim (Bool-cases c.first) [
    | inr down ↦ ground arith
    | inl up ↦ elim (Option-cases (s.strings active_config_key)) [
      | inl missing ↦ ground arith
      | inr (t, active) ↦
          let parsed = named t up active in
          let same : eq_ℤ m.redis_version version ≡ true = ground arith in ground arith
    ]
  ]

  pub watch_loop-idle :
      (open_ : Bool) (events : List WatchEvent) (m : Manager B) (version : ℤ)
      → m.redis_version ≡ version
      → All (Shows version) events
      → watch_loop open_ events m ≡ m
  unfolding watch_loop
  watch_loop-idle open_ [] m version at h = refl
  watch_loop-idle open_ (done ∷ events) m version at h = refl
  watch_loop-idle open_ (closed ∷ events) m version at (h, hs) =
      watch_loop-idle false events m version at hs
  watch_loop-idle false (message c s ∷ events) m version at (h, hs) =
      watch_loop-idle false events m version at hs
  watch_loop-idle open_ (tick c s ∷ events) m version at (h, hs) =
      ap (watch_loop open_ events) (load-idle c s m version at h)
      ∙ watch_loop-idle open_ events m version at hs
  watch_loop-idle true (message c s ∷ events) m version at (h, hs) =
      ap (watch_loop true events) (load-idle c s m version at h)
      ∙ watch_loop-idle true events m version at hs

  loads-version :
      (c : Calls) (s : Store) (m : Manager B) (version : ℤ) (t bytes : Text) (g : GatewayConfig)
      → c.first ≡ true
      → c.second ≡ true
      → s.strings active_config_key ≡ some t
      → parse_int t ≡ some version
      → s.strings (config_key version) ≡ some bytes
      → codec.decode bytes ≡ some g
      → validate host m g ≡ ok tt
      → (load host codec c s m).redis_version ≡ version
  unfolding load
  loads-version c s m version t bytes g up reads active parsed found decoded valid =
      elim (Bool-cases (eq_ℤ m.redis_version version)) [
        | inr behind ↦
            (load-Follows host codec c s m version t bytes g up reads active parsed found decoded
              valid behind).0
        | inl there ↦
            let at : m.redis_version ≡ version = ground arith in
            rw (up, active) (rw (parsed, there) at)
      ]

  -- A gateway that takes the version for no other configuration than the stored one, and reads no other
  -- under that version, takes the active version up at one tick at which Redis answers, whatever came
  -- before, if it can serve what is stored: it then serves the compiled snapshot of that configuration as
  -- this version, and does so through every later tick, message and end of the subscription while the
  -- version stays the active one. Nothing but the watch activates a configuration meanwhile.
  pub watch_converges :
      (c₀ c : Calls) (s₀ s : Store) (before after : List WatchEvent) (m : Manager B) (version : ℤ)
      (t bytes : Text) (g : GatewayConfig)
      → (m.redis_version ≡ version → Serves version g m m)
      → Keeps version g s₀
      → All GoesOn before
      → All (Reads version g) before
      → c.first ≡ true
      → c.second ≡ true
      → s.strings active_config_key ≡ some t
      → parse_int t ≡ some version
      → s.strings (config_key version) ≡ some bytes
      → codec.decode bytes ≡ some g
      → validate host m g ≡ ok tt
      → All (Shows version) after
      → let n = watch c₀ s₀ (before ++ tick c s ∷ after) m in
        (n.redis_version ≡ version)
        × (snapshot : Snapshot B) × (compile host m.environment m.allow_no_routes g ≡ ok snapshot)
        × (n.current ≡ some snapshot)
  unfolding watch watch_loop
  watch_converges c₀ c s₀ s before after m version t bytes g honest keeps on same up reads active
        parsed found decoded valid later =
      let start : Sound version g m m = record {
        environment = refl;
        allow_no_routes = refl;
        serves = honest;
      } in
      let (open_, n, sound, runs) =
        watch_loop-append true before (tick c s ∷ after) version g m (load host codec c₀ s₀ m) on
          same (load-Sound c₀ s₀ version g m m keeps start) in
      let kept : Keeps version g s = λ other h. ap codec.decode (cc (h, found)) ∙ decoded in
      let last = load-Sound c s version g m n kept sound in
      let reached =
        loads-version c s n version t bytes g up reads active parsed found decoded
          (validate-same version m n g sound valid) in
      let ends = runs ∙ watch_loop-idle open_ after (load host codec c s n) version reached later in
      let (snapshot, compiled, serving) = last.serves reached in
      (
        ap (λ r. r.redis_version) ends ∙ reached,
        snapshot,
        compiled,
        ap (λ r. r.current) ends ∙ serving,
      )
