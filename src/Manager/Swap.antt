-- ===== src/Manager/Swap.antt =====
-- How the manager's snapshot changes: it is swapped for a compiled one, or stays.
use vial_gateway.Prelude.{
  ◌+◌, ◌≡◌, refl, ◌⊎◌, inl, inr, Bool, some, Result, ok, err, [], >>-eq-ok, >>=-eq-ok, ok-injective,
  sym, ap, ◌∙◌,
}
use vial_gateway.Text.{Text}
use vial_gateway.Config.Routes.{validate_gateway}
use vial_gateway.Trust.{parse_trusted_proxies}
use vial_gateway.Config.Types.{GatewayConfig}
use vial_gateway.Manager.{
  Host, Snapshot, Manager, CompileError, compile, install, activate, validate, retire, valid_or,
  proxies_of, compile_routes, compiled_or,
}

module _ {B : Type 0} (host : Host B) where
  -- Every snapshot that serves was compiled from the configuration that it shows.
  abbrev pub IsServing : Manager B → Type 0
  IsServing m =
      (s : Snapshot B)
      → m.current ≡ some s
      → compile host m.environment m.allow_no_routes s.config ≡ ok s

  abbrev pub Installed : Manager B → GatewayConfig → Manager B → Type 0
  Installed m g n =
      (s : Snapshot B) × (compile host m.environment m.allow_no_routes g ≡ ok s)
      × (n.current ≡ some s)
      × (n.retired ≡ retire host m.current m.retired)
      × (n.activated ≡ m.activated + 1)
      × (n.rejected ≡ m.rejected)

  abbrev pub Kept : Manager B → Manager B → Type 0
  Kept m n =
      (n.current ≡ m.current)
      × (n.retired ≡ m.retired)
      × (n.workers ≡ m.workers)
      × (n.activated ≡ m.activated)
      × (n.rejected ≡ m.rejected + 1)

  install-cases :
      (m : Manager B) (g : GatewayConfig) (r : Result CompileError (Snapshot B))
      → compile host m.environment m.allow_no_routes g ≡ r
      → (((install host m g r).1 ≡ ok tt) × Installed m g (install host m g r).0)
        ⊎ ((e : CompileError) × ((install host m g r).1 ≡ err e) × Kept m (install host m g r).0)
  install-cases m g (ok s) h = inl (refl, (s, h, refl, refl, refl, refl))
  install-cases m g (err e) h = inr (e, refl, (refl, refl, refl, refl, refl))

  -- An activation installs the compiled snapshot and retires the one before, or fails and leaves the
  -- snapshot, its context and the workers as they were; the reload counters tell which.
  pub activate_all_or_nothing :
      (m : Manager B) (g : GatewayConfig)
      → (((activate host m g).1 ≡ ok tt) × Installed m g (activate host m g).0)
        ⊎ ((e : CompileError) × ((activate host m g).1 ≡ err e) × Kept m (activate host m g).0)
  unfolding activate
  activate_all_or_nothing m g = install-cases m g _ refl

  pub compile-config :
      (environment : Text) (allow : Bool) (g : GatewayConfig) (s : Snapshot B)
      → compile host environment allow g ≡ ok s
      → s.config ≡ g
  unfolding compile
  compile-config environment allow g s h =
      let (_, h₁) = >>-eq-ok (valid_or host (validate_gateway host.std environment allow g)) _ h in
      let (trusted, _, h₂) =
        >>=-eq-ok (proxies_of host (parse_trusted_proxies host.std g.trusted_proxies)) _ h₁ in
      let (built, _, last) = >>=-eq-ok (compile_routes host g trusted g.routes []) _ h₂ in
      sym (ap (λ t. t.config) (ok-injective last))

  pub activate-environment :
      (m : Manager B) (g : GatewayConfig)
      → ((activate host m g).0.environment ≡ m.environment)
        × ((activate host m g).0.allow_no_routes ≡ m.allow_no_routes)
  unfolding activate
  activate-environment m g = go (compile host m.environment m.allow_no_routes g)
    where
      go :
          (r : Result CompileError (Snapshot B))
          → ((install host m g r).0.environment ≡ m.environment)
            × ((install host m g r).0.allow_no_routes ≡ m.allow_no_routes)
      go (ok s) = (refl, refl)
      go (err e) = (refl, refl)

  -- A manager whose snapshot was compiled from the configuration that it shows stays one, whatever
  -- configuration is activated and whether that succeeds or not.
  pub activate-IsServing :
      (m : Manager B) (g : GatewayConfig) → IsServing m → IsServing (activate host m g).0
  activate-IsServing m g serving s at =
      let (env, allow) = activate-environment m g in
      rw (env, allow)
        (elim (activate_all_or_nothing m g) [
          | inl (_, (t, compiled, now, _, _, _)) ↦
              let same : t ≡ s = cc (sym now ∙ at) in
              rw (← same) (
                ap (compile host m.environment m.allow_no_routes)
                  (compile-config m.environment m.allow_no_routes g t compiled)
                ∙ compiled)
          | inr (_, _, (kept, _, _, _, _)) ↦ serving s (sym kept ∙ at)
        ])

  -- A configuration that the manager's Validate accepts is activated without an error.
  pub activate_of_validate :
      (m : Manager B) (g : GatewayConfig)
      → validate host m g ≡ ok tt
      → (activate host m g).1 ≡ ok tt
  unfolding activate validate
  activate_of_validate m g h = go (compile host m.environment m.allow_no_routes g) h
    where
      go :
          (r : Result CompileError (Snapshot B))
          → compiled_or host r ≡ ok tt
          → (install host m g r).1 ≡ ok tt
      go (ok s) e = refl
      go (err x) e = cc
