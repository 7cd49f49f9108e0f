-- ===== src/Command/Signals.antt =====
-- What runs after the signals, loads and activations that come: run and its loop over signals, of
-- cmd/gateway/main.go.
use vial_gateway.Prelude.Int.{ℤ}
use vial_gateway.Prelude.{
  ◌≡◌, refl, false, subst, List, [], ◌∷◌, Option, none, some, Result, ok, err, arith, Option-cases,
  Bool-cases, Result-cases, inl, inr, ◌⊎◌, sym, ap, ◌∙◌,
}
use vial_gateway.Text.{Text}
use vial_gateway.Store.{Store, config_key}
use vial_gateway.Control.{Calls, activate_config}
use vial_gateway.Control.Boot.{load}
use vial_gateway.Control.Catchup.{load_cases}
use vial_gateway.Control.Watch.{load-environment}
use vial_gateway.Control.Activation.{activate_config_all_or_nothing}
use vial_gateway.Config.Types.{ApplicationConfig, GatewayConfig}
use vial_gateway.Manager.{Manager, Snapshot, CompileError, compile, activate}
use vial_gateway.Manager.Swap.{activate_all_or_nothing, activate-environment}
use vial_gateway.Application.{
  Running, certificate_of, or_current, swapped, validate_application, reload_gateway,
}
use vial_gateway.Application.Reload.{mode_changed, reload_gateway_all_or_nothing}
use vial_gateway.Command.{
  Process, RunError, Event, hangup, watched, activation, terminate, with_manager, start_up,
  handle_signals, run,
}
use vial_gateway.Command.Startup.{IsOf, start_up-IsOf}

-- The configurations that SIGHUPs load before another signal.
abbrev pub Loads : ApplicationConfig → List Event → Type 0
Loads c [] = ⊥
Loads c (terminate ∷ rest) = ⊥
Loads c (hangup none ∷ rest) = Loads c rest
Loads c (hangup (some d) ∷ rest) = (d ≡ c) ⊎ Loads c rest
Loads c (other ∷ rest) = Loads c rest

module _ {B C : Type 0} (w : Process B C) where
  swapped-manager :
      (s : Running B C) (certificate : Option C) (a : Manager B × Result CompileError (Unit {0}))
      → (swapped w.host w.load_certificate s certificate a).0.manager ≡ a.0
  swapped-manager s certificate (a, ok u) = refl
  swapped-manager s certificate (a, err e) = refl

  -- A reload leaves the manager, or activates the configuration of its replacement.
  pub reload-manager :
      (c : ApplicationConfig) (s : Running B C)
      → let m = (reload_gateway w.host w.load_certificate c s).0.manager in
        (m ≡ s.manager) ⊎ (m ≡ (activate w.host s.manager c.gateway).0)
  unfolding reload_gateway
  reload-manager c s = elim (Result-cases (validate_application w.host.std c)) [
    | inr (e, bad) ↦ inl (rw (bad, reload_gateway) refl)
    | inl (u, valid) ↦ elim (Bool-cases (mode_changed w.host w.load_certificate c s)) [
      | inl changed ↦ inl (rw (valid, reload_gateway) (rw changed refl))
      | inr kept ↦ elim (Result-cases (certificate_of w.host w.load_certificate c.tls)) [
        | inr (e, unread) ↦ inl (rw (valid, reload_gateway) (rw (kept, unread) refl))
        | inl (loaded, read) ↦ inr (
            rw (valid, reload_gateway)
              (rw (kept, read) (swapped-manager s loaded (activate w.host s.manager c.gateway))))
      ]
    ]
  ]

  reload-environment :
      (c : ApplicationConfig) (s : Running B C)
      → let r = reload_gateway w.host w.load_certificate c s in
        (r.0.manager.environment ≡ s.manager.environment)
        × (r.0.manager.allow_no_routes ≡ s.manager.allow_no_routes)
  reload-environment c s = elim (reload-manager c s) [
    | inl same ↦ (ap (λ m. m.environment) same, ap (λ m. m.allow_no_routes) same)
    | inr new ↦
        let (env, allow) = activate-environment w.host s.manager c.gateway in
        (ap (λ m. m.environment) new ∙ env, ap (λ m. m.allow_no_routes) new ∙ allow)
  ]

  reload-mode :
      (c : ApplicationConfig) (s : Running B C)
      → (reload_gateway w.host w.load_certificate c s).1 ≡ ok tt
      → mode_changed w.host w.load_certificate c s ≡ false
  unfolding reload_gateway
  reload-mode c s h = elim (Bool-cases (mode_changed w.host w.load_certificate c s)) [
    | inr kept ↦ kept
    | inl changed ↦ elim (Result-cases (validate_application w.host.std c)) [
      | inr (e, bad) ↦ absurd (ground arith)
      | inl (u, valid) ↦ absurd (ground arith)
    ]
  ]

  -- Where the mode of the listener stays, the certificate is what was loaded.
  loaded-current :
      (c : ApplicationConfig) (s : Running B C) (loaded : Option C)
      → mode_changed w.host w.load_certificate c s ≡ false
      → certificate_of w.host w.load_certificate c.tls ≡ ok loaded
      → or_current w.host w.load_certificate loaded s.certificate ≡ loaded
  loaded-current c s none kept read = elim (Option-cases s.certificate) [
    | inl plain ↦ rw plain refl
    | inr (x, there) ↦ absurd (ground arith)
  ]
  loaded-current c s (some x) kept read = refl

  reload-IsOf :
      (c d : ApplicationConfig) (s : Running B C)
      → IsOf w c s
      → (b : ApplicationConfig) × ((b ≡ c) ⊎ (d ≡ b))
        × IsOf w b (reload_gateway w.host w.load_certificate d s).0
  reload-IsOf c d s h =
      let r = reload_gateway w.host w.load_certificate d s in
      let (env, allow) = reload-environment d s in
      let kept : (r.0.certificate ≡ s.certificate)
          → (r.0.manager.current ≡ s.manager.current)
          → IsOf w c r.0 =
        λ same now. record {
          valid = h.valid;
          snapshot = h.snapshot;
          compiled = rw (env, allow) h.compiled;
          current = now ∙ h.current;
          certificate = rw same h.certificate;
        } in
      elim (reload_gateway_all_or_nothing w.host w.load_certificate d s) [
        | inr (e, failed, same, inl whole) ↦ (c, inl refl, kept same (ap (λ m. m.current) whole))
        | inr (e, failed, same, inr (now, _, _, _, _)) ↦ (c, inl refl, kept same now)
        | inl (done, reloaded) ↦
            let (snapshot, compiled, current, _, _, _) = reloaded.installed in
            let (loaded, read, held) = reloaded.certificate in
            (
              d,
              inr refl,
              record {
                valid = reloaded.valid;
                snapshot = snapshot;
                compiled = rw (env, allow) compiled;
                current = current;
                certificate =
                    read
                    ∙ ap ok (sym (held ∙ loaded-current d s loaded (reload-mode d s done) read));
              },
            )
      ]

  -- A configuration that a store has as a version.
  abbrev pub Stored : GatewayConfig → Store → Type 0
  Stored g s =
      (version : ℤ) × (bytes : Text) × (s.strings (config_key version) ≡ some bytes)
      × (w.configs.decode bytes ≡ some g)

  -- The configurations that Redis has at the loads and the activations before another signal.
  abbrev pub Brings : GatewayConfig → List Event → Type 0
  Brings g [] = ⊥
  Brings g (terminate ∷ rest) = ⊥
  Brings g (hangup c ∷ rest) = Brings g rest
  Brings g (watched c s ∷ rest) = Stored g s ⊎ Brings g rest
  Brings g (activation c actor action path_value if_match seen s ∷ rest) =
      Stored g seen ⊎ Brings g rest

  -- What runs has the certificate of one configuration and the snapshot of a gateway configuration.
  pub record Runs (c : ApplicationConfig) (g : GatewayConfig) (s : Running B C) : Type 0 where
    pub valid : validate_application w.host.std c ≡ ok tt
    pub snapshot : Snapshot B
    pub compiled : compile w.host s.manager.environment s.manager.allow_no_routes g ≡ ok snapshot
    pub current : s.manager.current ≡ some snapshot
    pub certificate : certificate_of w.host w.load_certificate c.tls ≡ ok s.certificate

  IsOf-Runs : (c : ApplicationConfig) (s : Running B C) → IsOf w c s → Runs c c.gateway s
  IsOf-Runs c s h = record {
    valid = h.valid;
    snapshot = h.snapshot;
    compiled = h.compiled;
    current = h.current;
    certificate = h.certificate;
  }

  -- A manager in the same mode, with the snapshot or with another one that is compiled.
  with_manager-Runs :
      (c : ApplicationConfig) (g g' : GatewayConfig) (s : Running B C) (m : Manager B)
      → Runs c g s
      → m.environment ≡ s.manager.environment
      → m.allow_no_routes ≡ s.manager.allow_no_routes
      → (snapshot : Snapshot B)
      → compile w.host s.manager.environment s.manager.allow_no_routes g' ≡ ok snapshot
      → m.current ≡ some snapshot
      → Runs c g' (with_manager w s m)
  with_manager-Runs c g g' s m h env allow snapshot compiled current = record {
    valid = h.valid;
    snapshot = snapshot;
    compiled = rw (env, allow) compiled;
    current = current;
    certificate = h.certificate;
  }

  watched-Runs :
      (c : ApplicationConfig) (g : GatewayConfig) (s : Running B C) (calls : Calls) (store : Store)
      → Runs c g s
      → (g' : GatewayConfig) × ((g' ≡ g) ⊎ Stored g' store)
        × Runs c g' (with_manager w s (load w.host w.configs calls store s.manager))
  watched-Runs c g s calls store h =
      let (env, allow) = load-environment w.host w.configs calls store s.manager in
      elim (load_cases w.host w.configs calls store s.manager) [
        | inl (current, _) ↦ (
          g,
          inl refl,
          with_manager-Runs c g g s _ h env allow h.snapshot h.compiled (current ∙ h.current),
        )
        | inr (version, bytes, g', stored, decoded, (_, snapshot, compiled, current)) ↦ (
          g',
          inr (version, bytes, stored, decoded),
          with_manager-Runs c g g' s _ h env allow snapshot compiled current,
        )
      ]

  activate-Runs :
      (c : ApplicationConfig) (g g' : GatewayConfig) (version : ℤ) (s : Running B C)
      → Runs c g s
      → (g'' : GatewayConfig) × ((g'' ≡ g) ⊎ (g'' ≡ g'))
        × Runs c g''
            (with_manager w s (record (activate w.host s.manager g').0 { redis_version = version }))
  activate-Runs c g g' version s h =
      let (env, allow) = activate-environment w.host s.manager g' in
      elim (activate_all_or_nothing w.host s.manager g') [
        | inl (_, (snapshot, compiled, current, _, _, _)) ↦
            (g', inr refl, with_manager-Runs c g g' s _ h env allow snapshot compiled current)
        | inr (_, _, (current, _, _, _, _)) ↦ (
          g,
          inl refl,
          with_manager-Runs c g g s _ h env allow h.snapshot h.compiled (current ∙ h.current),
        )
      ]

  activation-Runs :
      (c : ApplicationConfig) (g : GatewayConfig) (s : Running B C) (calls : Calls)
      (actor action path_value if_match : Text) (seen store : Store)
      → Runs c g s
      → (g' : GatewayConfig) × ((g' ≡ g) ⊎ Stored g' seen)
        × Runs c g' (
            with_manager w s
              (activate_config w.host w.configs calls actor action path_value if_match seen store
                s.manager).1)
  activation-Runs c g s calls actor action path_value if_match seen store h =
      elim (activate_config_all_or_nothing w.host w.configs calls actor action path_value if_match
        seen store s.manager) [
          | inl (_, _, same) ↦
              (g, inl refl, subst (λ m. Runs c g (with_manager w s m)) (sym same) h)
          | inr (version, config, read, a) ↦
              let (g', either, runs) = activate-Runs c g config version s h in
              let (bytes, stored, decoded) = read.stored in
              (
                g',
                elim either [
                  | inl kept ↦ inl kept
                  | inr new ↦ inr (version, bytes, stored, decoded ∙ ap some (sym new))
                ],
                subst (λ m. Runs c g' (with_manager w s m)) (sym a.manager) runs,
              )
        ]

  -- A reload keeps both, or replaces both.
  hangup-Runs :
      (c d : ApplicationConfig) (g : GatewayConfig) (s : Running B C)
      → Runs c g s
      → let r = (reload_gateway w.host w.load_certificate d s).0 in Runs c g r ⊎ Runs d d.gateway r
  hangup-Runs c d g s h =
      let r = reload_gateway w.host w.load_certificate d s in
      let (env, allow) = reload-environment d s in
      let kept : (r.0.certificate ≡ s.certificate)
          → (r.0.manager.current ≡ s.manager.current)
          → Runs c g r.0 =
        λ same now. record {
          valid = h.valid;
          snapshot = h.snapshot;
          compiled = rw (env, allow) h.compiled;
          current = now ∙ h.current;
          certificate = rw same h.certificate;
        } in
      elim (reload_gateway_all_or_nothing w.host w.load_certificate d s) [
        | inr (e, failed, same, inl whole) ↦ inl (kept same (ap (λ m. m.current) whole))
        | inr (e, failed, same, inr (now, _, _, _, _)) ↦ inl (kept same now)
        | inl (done, reloaded) ↦
            let (snapshot, compiled, current, _, _, _) = reloaded.installed in
            let (loaded, read, held) = reloaded.certificate in
            inr (record {
              valid = reloaded.valid;
              snapshot = snapshot;
              compiled = rw (env, allow) compiled;
              current = current;
              certificate =
                  read ∙ ap ok (sym (held ∙ loaded-current d s loaded (reload-mode d s done) read));
            })
      ]

  -- Where the configuration of the certificate and that of the snapshot come from.
  abbrev pub From :
      ApplicationConfig → GatewayConfig → List Event → ApplicationConfig → GatewayConfig → Type 0
  From c g events b g' =
      ((b ≡ c) × ((g' ≡ g) ⊎ Brings g' events))
      ⊎ (Loads b events × ((g' ≡ b.gateway) ⊎ Brings g' events))

  brought :
      (c b : ApplicationConfig) (g g₁ g' : GatewayConfig) (store : Store) (rest : List Event)
      → (g₁ ≡ g) ⊎ Stored g₁ store
      → From c g₁ rest b g'
      → ((b ≡ c) × ((g' ≡ g) ⊎ (Stored g' store ⊎ Brings g' rest)))
        ⊎ (Loads b rest × ((g' ≡ b.gateway) ⊎ (Stored g' store ⊎ Brings g' rest)))
  brought c b g g₁ g' store rest (inl kept) (inl (same, inl e)) = inl (same, inl (e ∙ kept))
  brought c b g g₁ g' store rest (inr stored) (inl (same, inl e)) =
      inl (same, inr (inl (subst (λ x. Stored x store) (sym e) stored)))
  brought c b g g₁ g' store rest of_g (inl (same, inr later)) = inl (same, inr (inr later))
  brought c b g g₁ g' store rest of_g (inr (loaded, inl e)) = inr (loaded, inl e)
  brought c b g g₁ g' store rest of_g (inr (loaded, inr later)) = inr (loaded, inr (inr later))

  reloaded_to :
      (c d b : ApplicationConfig) (g g' : GatewayConfig) (rest : List Event)
      → From d d.gateway rest b g'
      → From c g (hangup (some d) ∷ rest) b g'
  reloaded_to c d b g g' rest (inl (same, inl e)) =
      inr (inl (sym same), inl (e ∙ ap (λ x. x.gateway) (sym same)))
  reloaded_to c d b g g' rest (inl (same, inr later)) = inr (inl (sym same), inr later)
  reloaded_to c d b g g' rest (inr (loaded, from)) = inr (inr loaded, from)

  hung_up :
      (c d b : ApplicationConfig) (g g' : GatewayConfig) (rest : List Event)
      → From c g rest b g'
      → From c g (hangup (some d) ∷ rest) b g'
  hung_up c d b g g' rest (inl same) = inl same
  hung_up c d b g g' rest (inr (loaded, from)) = inr (inr loaded, from)

  handle_signals-Runs :
      (events : List Event) (c : ApplicationConfig) (g : GatewayConfig) (s : Running B C)
      → Runs c g s
      → (b : ApplicationConfig) × (g' : GatewayConfig) × From c g events b g'
        × Runs b g' (handle_signals w events s).0
  unfolding handle_signals
  handle_signals-Runs [] c g s h = (c, g, inl (refl, inl refl), h)
  handle_signals-Runs (terminate ∷ rest) c g s h = (c, g, inl (refl, inl refl), h)
  handle_signals-Runs (hangup none ∷ rest) c g s h = handle_signals-Runs rest c g s h
  handle_signals-Runs (hangup (some d) ∷ rest) c g s h = elim (hangup-Runs c d g s h) [
    | inl kept ↦
        let (b, g', from, runs) = handle_signals-Runs rest c g _ kept in
        (b, g', hung_up c d b g g' rest from, runs)
    | inr new ↦
        let (b, g', from, runs) = handle_signals-Runs rest d d.gateway _ new in
        (b, g', reloaded_to c d b g g' rest from, runs)
  ]
  handle_signals-Runs (watched calls store ∷ rest) c g s h =
      let (g₁, of_g, now) = watched-Runs c g s calls store h in
      let (b, g', from, runs) = handle_signals-Runs rest c g₁ _ now in
      (b, g', brought c b g g₁ g' store rest of_g from, runs)
  handle_signals-Runs (activation calls actor action path_value if_match seen store ∷ rest) c g s
        h =
      let (g₁, of_g, now) =
        activation-Runs c g s calls actor action path_value if_match seen store h in
      let (b, g', from, runs) = handle_signals-Runs rest c g₁ _ now in
      (b, g', brought c b g g₁ g' seen rest of_g from, runs)

  -- Whatever signals, loads from Redis and activations over the API come, in any order, a gateway runs
  -- with the certificate of a valid configuration: the one that it started with, or one that a SIGHUP
  -- loaded; and its snapshot is compiled from the gateway configuration of that same one, or from one
  -- that Redis had as a version at a load or an activation. Where run does not get to serve, it ends with
  -- an error.
  pub run_cases :
      (loaded : Option ApplicationConfig) (events : List Event)
      → let r = run w loaded events in
        ((r.0 ≡ none) × ((e : RunError) × (r.1 ≡ some e)))
        ⊎ ((s : Running B C) × (r.0 ≡ some s)
            × (b : ApplicationConfig) × (g : GatewayConfig) × ((loaded ≡ some b) ⊎ Loads b events)
            × ((g ≡ b.gateway) ⊎ Brings g events)
            × Runs b g s)
  unfolding run
  run_cases loaded events = elim (Result-cases (start_up w loaded)) [
    | inr ((e, closed), failed) ↦ inl (rw (failed, run) (refl, (e, refl)))
    | inl (s, started) ↦
        let (c, given, of_c) = start_up-IsOf w loaded s started in
        let (b, g, from, runs) = handle_signals-Runs events c c.gateway s (IsOf-Runs c s of_c) in
        inr (
          (handle_signals w events s).0,
          rw (started, run) refl,
          b,
          g,
          elim from [
            | inl (same, origin) ↦ inl (given ∙ ap some (sym same))
            | inr (later, origin) ↦ inr later
          ],
          elim from [
            | inl (same, inl e) ↦ inl (e ∙ ap (λ x. x.gateway) (sym same))
            | inl (same, inr brings) ↦ inr brings
            | inr (later, origin) ↦ origin
          ],
          runs,
        )
  ]
