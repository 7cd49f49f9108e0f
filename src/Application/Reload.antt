-- ===== src/Application/Reload.antt =====
-- A reload is all or nothing.
use vial_gateway.Prelude.{
  ◌≡◌, refl, Bool, true, false, not, Option, none, some, Result, ok, err, arith, Result-cases,
  Bool-cases, inl, inr, ◌⊎◌, sym, if◌then◌else◌, subst,
}
use vial_gateway.Text.{Text, is_empty}
use vial_gateway.Config.Types.{ApplicationConfig}
use vial_gateway.Manager.{Host, Manager, CompileError, activate}
use vial_gateway.Manager.Swap.{Installed, Kept, activate_all_or_nothing}
use vial_gateway.Application.{
  Running, ReloadError, invalid, tls_mode_changed, refused, is_some, certificate_of, or_current,
  swapped, reload_gateway, validate_application,
}

module _ {B C : Type 0} (host : Host B) (load_certificate : Text → Text → Option C) where
  -- What a reload that succeeds has done.
  pub record Reloaded (c : ApplicationConfig) (s t : Running B C) : Type 0 where
    pub valid : validate_application host.std c ≡ ok tt
    pub installed : Installed host s.manager c.gateway t.manager
    pub certificate :
        (loaded : Option C) × (certificate_of host load_certificate c.tls ≡ ok loaded)
        × (t.certificate ≡ or_current host load_certificate loaded s.certificate)
    pub mode : is_some t.certificate ≡ is_some s.certificate

  mode-kept :
      (loaded current : Option C)
      → (is_some loaded ≡ true → is_some current ≡ true)
      → is_some (or_current host load_certificate loaded current) ≡ is_some current
  mode-kept none current h = refl
  mode-kept (some x) current h = sym (h refl)

  swapped-cases :
      (c : ApplicationConfig) (s : Running B C) (loaded : Option C)
      (a : Manager B × Result CompileError (Unit {0}))
      → validate_application host.std c ≡ ok tt
      → certificate_of host load_certificate c.tls ≡ ok loaded
      → (is_some loaded ≡ true → is_some s.certificate ≡ true)
      → ((a.1 ≡ ok tt) × Installed host s.manager c.gateway a.0)
        ⊎ ((e : CompileError) × (a.1 ≡ err e) × Kept host s.manager a.0)
      → let r = swapped host load_certificate s loaded a in
        ((r.1 ≡ ok tt) × Reloaded c s r.0)
        ⊎ ((e : ReloadError) × (r.1 ≡ err e)
            × (r.0.certificate ≡ s.certificate)
            × ((r.0.manager ≡ s.manager) ⊎ Kept host s.manager r.0.manager))
  swapped-cases c s loaded (m, ok u) valid read mode (inl (done, i)) = inl (
    refl,
    record {
      valid = valid;
      installed = i;
      certificate = (loaded, read, refl);
      mode = mode-kept loaded s.certificate mode;
    },
  )
  swapped-cases c s loaded (m, ok u) valid read mode (inr (e, failed, k)) = cc
  swapped-cases c s loaded (m, err e) valid read mode (inl (done, i)) = cc
  swapped-cases c s loaded (m, err e) valid read mode (inr (x, failed, k)) =
      inr (refused e, refl, refl, inr k)

  -- Whether the replacement has TLS where the listener has none, or the other way around.
  abbrev pub mode_changed : ApplicationConfig → Running B C → Bool
  mode_changed c s =
      if not (is_empty c.tls.cert_file) then not (is_some s.certificate) else is_some s.certificate

  goes_on :
      (c : ApplicationConfig) (s : Running B C) (u : Unit {0}) (loaded : Option C)
      → validate_application host.std c ≡ ok u
      → mode_changed c s ≡ false
      → certificate_of host load_certificate c.tls ≡ ok loaded
      → reload_gateway host load_certificate c s
        ≡ swapped host load_certificate s loaded (activate host s.manager c.gateway)
  unfolding reload_gateway
  goes_on c s u loaded valid kept read = ground arith

  tls_only :
      (c : ApplicationConfig) (s : Running B C) (loaded : Option C)
      → mode_changed c s ≡ false
      → certificate_of host load_certificate c.tls ≡ ok loaded
      → is_some loaded ≡ true
      → is_some s.certificate ≡ true
  tls_only c s loaded kept read some_loaded = ground arith

  -- A reload that succeeds has a valid configuration, installs its snapshot and its certificate, and
  -- keeps the mode of the listener; one that fails keeps the certificate and the snapshot.
  pub reload_gateway_all_or_nothing :
      (c : ApplicationConfig) (s : Running B C)
      → let r = reload_gateway host load_certificate c s in
        ((r.1 ≡ ok tt) × Reloaded c s r.0)
        ⊎ ((e : ReloadError) × (r.1 ≡ err e)
            × (r.0.certificate ≡ s.certificate)
            × ((r.0.manager ≡ s.manager) ⊎ Kept host s.manager r.0.manager))
  unfolding reload_gateway
  reload_gateway_all_or_nothing c s = elim (Result-cases (validate_application host.std c)) [
    | inr (e, bad) ↦ rw (bad, reload_gateway) (inr (invalid e, refl, refl, inl refl))
    | inl (u, valid) ↦ elim (Bool-cases (mode_changed c s)) [
      | inl changed ↦
          rw (valid, reload_gateway) (rw changed (inr (tls_mode_changed, refl, refl, inl refl)))
      | inr kept ↦ elim (Result-cases (certificate_of host load_certificate c.tls)) [
        | inr (e, unread) ↦
            rw (valid, reload_gateway) (rw (kept, unread) (inr (e, refl, refl, inl refl)))
        | inl (loaded, read) ↦
            subst
              (λ r.
                ((r.1 ≡ ok tt) × Reloaded c s r.0)
                ⊎ ((e : ReloadError) × (r.1 ≡ err e)
                    × (r.0.certificate ≡ s.certificate)
                    × ((r.0.manager ≡ s.manager) ⊎ Kept host s.manager r.0.manager)))
              (sym (goes_on c s u loaded valid kept read))
              (swapped-cases c s loaded (activate host s.manager c.gateway) valid read
                (tls_only c s loaded kept read) (activate_all_or_nothing host s.manager c.gateway))
      ]
    ]
  ]
