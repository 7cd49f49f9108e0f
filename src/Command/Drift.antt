-- ===== src/Command/Drift.antt =====
-- A reload by SIGHUP, cmd/gateway/main.go, of a gateway that watches Redis, cmd/gateway/control.go.
use vial_gateway.Prelude.{◌≡◌, refl, Bool, List, Result, ok, err, inl, inr, All, ap, ◌∙◌}
use vial_gateway.Prelude.Int.{ℤ}
use vial_gateway.Config.Types.{ApplicationConfig, GatewayConfig}
use vial_gateway.Manager.{Manager, Snapshot, CompileError, compile, install, activate}
use vial_gateway.Control.{Codec}
use vial_gateway.Control.Watch.{WatchEvent, watch_loop, Shows, watch_loop-idle}
use vial_gateway.Application.{Running, reload_gateway}
use vial_gateway.Command.{Process}
use vial_gateway.Command.Signals.{reload-manager}

module _ {B C : Type 0} (w : Process B C) (codec : Codec) where
  activate-redis_version :
      (m : Manager B) (g : GatewayConfig) → (activate w.host m g).0.redis_version ≡ m.redis_version
  unfolding activate
  activate-redis_version m g = go (compile w.host m.environment m.allow_no_routes g)
    where
      go :
          (r : Result CompileError (Snapshot B))
          → (install w.host m g r).0.redis_version ≡ m.redis_version
      go (ok s) = refl
      go (err e) = refl

  -- What a reload brought in stays while the active version of Redis is the one that the gateway had
  -- loaded before: no tick and no message takes the gateway back to the stored configuration.
  reload_is_not_healed :
      (c : ApplicationConfig) (s : Running B C) (open_ : Bool) (events : List WatchEvent)
      (version : ℤ)
      → s.manager.redis_version ≡ version
      → All (Shows w.host codec version) events
      → let m = (reload_gateway w.host w.load_certificate c s).0.manager in
        watch_loop w.host codec open_ events m ≡ m
  reload_is_not_healed c s open_ events version at shown =
      let m = (reload_gateway w.host w.load_certificate c s).0.manager in
      let kept : m.redis_version ≡ s.manager.redis_version = elim (reload-manager w c s) [
        | inl same ↦ ap (λ m. m.redis_version) same
        | inr new ↦ ap (λ m. m.redis_version) new ∙ activate-redis_version s.manager c.gateway
      ] in
      watch_loop-idle w.host codec open_ events m version (kept ∙ at) shown
