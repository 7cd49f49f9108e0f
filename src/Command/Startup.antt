-- ===== src/Command/Startup.antt =====
-- What runs after newApp and the start of run: cmd/gateway/app.go and main.go.
use vial_gateway.Prelude.{
  ◌≡◌, refl, ◌≢◌, false, ◌&&◌, Option, none, some, Result, ok, err, arith, Option-cases, Bool-cases,
  Result-cases, inl, inr, ◌⊎◌, refuse_if, >>-eq-ok, >>=-eq-ok, refuse_if-eq-ok, ok-injective,
  if◌then◌else◌, sym, ap, subst,
}
use vial_gateway.Text.{is_empty, trim_space}
use vial_gateway.Config.Types.{ApplicationConfig}
use vial_gateway.Config.Validate.{ConfigError, no_environment, incomplete_tls}
use vial_gateway.Config.Routes.{validate_gateway}
use vial_gateway.Manager.{Manager, Snapshot, CompileError, compile, activate}
use vial_gateway.Manager.Swap.{Installed, Kept, activate_all_or_nothing, activate-environment}
use vial_gateway.Application.{
  Running, validate_application, check_admin, check_redis_url, one_of_two, certificate_of,
}
use vial_gateway.Command.{
  Process, App, new_manager, app_valid, activated, new_app, at_start, configure_telemetry, start_up,
  control_without_redis,
}

module _ {B C : Type 0} (w : Process B C) where
  -- What runs is of one configuration: it is valid, and both the snapshot that serves and the
  -- certificate of the listener are its own.
  pub record IsOf (c : ApplicationConfig) (s : Running B C) : Type 0 where
    pub valid : validate_application w.host.std c ≡ ok tt
    pub snapshot : Snapshot B
    pub compiled :
        compile w.host s.manager.environment s.manager.allow_no_routes c.gateway ≡ ok snapshot
    pub current : s.manager.current ≡ some snapshot
    pub certificate : certificate_of w.host w.load_certificate c.tls ≡ ok s.certificate

  activated-cases :
      (c : ApplicationConfig) (m n : Manager B)
      → activated w (activate w.host m c.gateway) ≡ ok n
      → (snapshot : Snapshot B) × (compile w.host n.environment n.allow_no_routes c.gateway
          ≡ ok snapshot)
        × (n.current ≡ some snapshot)
  activated-cases c m n h =
      go (activate w.host m c.gateway) (activate-environment w.host m c.gateway)
        (activate_all_or_nothing w.host m c.gateway) h
    where
      go :
          (a : Manager B × Result CompileError (Unit {0}))
          → (a.0.environment ≡ m.environment) × (a.0.allow_no_routes ≡ m.allow_no_routes)
          → ((a.1 ≡ ok tt) × Installed w.host m c.gateway a.0)
            ⊎ ((e : CompileError) × (a.1 ≡ err e) × Kept w.host m a.0)
          → activated w a ≡ ok n
          → (snapshot : Snapshot B) × (compile w.host n.environment n.allow_no_routes c.gateway
              ≡ ok snapshot)
            × (n.current ≡ some snapshot)
      go (a, err e) same i h = cc
      go (a, ok u) same (inr (e, failed, kept)) h = cc
      go (a, ok u) (env, allow) (inl (done, (s, compiled, current, _, _, _))) h =
          let met : a ≡ n = ok-injective h in
          subst
            (λ n.
              (snapshot : Snapshot B) × (compile w.host n.environment n.allow_no_routes c.gateway
                ≡ ok snapshot)
              × (n.current ≡ some snapshot))
            met (s, rw (env, allow) compiled, current)

  app_valid-ok : (r : Result ConfigError (Unit {0})) → app_valid w r ≡ ok tt → r ≡ ok tt
  app_valid-ok (ok tt) h = refl
  app_valid-ok (err e) h = cc

  -- The application that newApp makes is of its configuration, but for the certificate.
  new_app-IsOf :
      (c : ApplicationConfig) (a : App B) (certificate : Option C)
      → new_app w c ≡ ok a
      → certificate_of w.host w.load_certificate c.tls ≡ ok certificate
      → IsOf c (record { manager = a.manager; certificate = certificate })
  unfolding new_app
  new_app-IsOf c a certificate h loaded =
      let (valid, h₁) = >>-eq-ok _ _ h in
      let (_, h₂) = >>-eq-ok _ _ h₁ in
      let (m, made, h₃) = >>=-eq-ok _ _ h₂ in
      let (_, h₄) = >>-eq-ok _ _ h₃ in
      let same : m ≡ a.manager = ap (λ x. x.manager) (ok-injective h₄) in
      let (s, compiled, current) = activated-cases c (new_manager c) m made in
      record {
        valid = app_valid-ok _ valid;
        snapshot = s;
        compiled =
            subst (λ n. compile w.host n.environment n.allow_no_routes c.gateway ≡ ok s) same
              compiled;
        current = subst (λ n. n.current ≡ some s) same current;
        certificate = loaded;
      }

  at_start-ok :
      (c : ApplicationConfig) (a : App B) (s : Running B C)
      → at_start w c a ≡ ok s
      → (certificate : Option C) × (certificate_of w.host w.load_certificate c.tls ≡ ok certificate)
        × (s ≡ record { manager = a.manager; certificate = certificate })
  at_start-ok c a s h = elim (Result-cases (certificate_of w.host w.load_certificate c.tls)) [
    | inr (e, bad) ↦ absurd (ground arith)
    | inl (certificate, loaded) ↦ (certificate, loaded, ground arith)
  ]

  -- What run starts with is of the configuration that was loaded.
  pub start_up-IsOf :
      (loaded : Option ApplicationConfig) (s : Running B C)
      → start_up w loaded ≡ ok s
      → (c : ApplicationConfig) × (loaded ≡ some c) × IsOf c s
  unfolding start_up
  start_up-IsOf none s h = cc
  start_up-IsOf (some c) s h = elim (Result-cases (validate_application w.host.std c)) [
    | inr (e, bad) ↦ absurd (ground arith)
    | inl (u, valid) ↦ elim (Option-cases (configure_telemetry w.exports c.gateway.telemetry)) [
      | inl mute ↦ absurd (ground arith)
      | inr (service, exporting) ↦ elim (Result-cases (new_app w c)) [
        | inr (e, bad) ↦ absurd (ground arith)
        | inl (a, made) ↦
            let started : at_start w c a ≡ ok s = ground arith in
            let (certificate, read, same) = at_start-ok c a s started in
            (c, refl, subst (IsOf c) (sym same) (new_app-IsOf c a certificate made read))
      ]
    ]
  ]

  enabled-redis :
      (c : ApplicationConfig)
      → validate_application w.host.std c ≡ ok tt
      → (c.admin.enabled && is_empty c.redis_url) ≡ false
  unfolding validate_application check_admin
  enabled-redis c h =
      let (_, h₁) =
        >>-eq-ok (refuse_if (is_empty (trim_space w.host.std.unicode c.environment)) no_environment)
          _ h in
      let (_, h₂) =
        >>-eq-ok (validate_gateway w.host.std c.environment c.control_only c.gateway) _ h₁ in
      let (_, h₃) = >>-eq-ok (check_redis_url w.host.std c.redis_url) _ h₂ in
      let (admin, _) =
        >>-eq-ok
          (if c.admin.enabled
            then check_admin w.host.std c.environment c.redis_url c.admin
            else ok tt)
          (refuse_if (one_of_two w.host.std c.tls) incomplete_tls) h₃ in
      elim (Bool-cases c.admin.enabled) [
        | inr off ↦ rw off refl
        | inl on ↦
            let checked = rw on at admin in
            let (redis, _) = >>-eq-ok _ _ checked in rw on (refuse_if-eq-ok _ _ redis)
      ]

  -- newControlPlane never misses Redis: a valid configuration with the control plane has its URL.
  new_app-control : (c : ApplicationConfig) → new_app w c ≢ err control_without_redis
  unfolding new_app
  new_app-control c h = elim (Result-cases (validate_application w.host.std c)) [
    | inr (e, bad) ↦ absurd (ground arith)
    | inl (u, valid) ↦ let there = enabled-redis c valid in absurd (ground arith)
  ]
