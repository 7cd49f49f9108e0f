-- ===== src/System.antt =====
-- Several gateways and one Redis: the handlers of the control plane, the requests to the routes, the
-- logins and what each gateway does by itself, as the steps of one system. A handler is one step; what
-- it read before its transaction is any store.
pub mod Versioned
pub mod Elsewhere
pub mod Cached
pub mod Invariant
use vial_gateway.Prelude.{ℕ, ◌≡◌, Bool, true, List, Option, if◌then◌else◌, ◌==◌, ◌++◌}
use vial_gateway.Prelude.Int.{ℤ, pos}
use vial_gateway.Text.{Text, elem}
use vial_gateway.Config.Types.{GatewayConfig, AdminConfig}
use vial_gateway.Route.{CompiledRoute}
use vial_gateway.RateLimit.Request.{Link}
use vial_gateway.Manager.{Host, Manager, activate}
use vial_gateway.Store.{Store}
use vial_gateway.Control.{Codec, Calls, Response, create_config, delete_config, activate_config}
use vial_gateway.Control.Boot.{start, load}
use vial_gateway.Auth.{create_api_key, revoke_api_key, AdminIdentity}
use vial_gateway.Session.{SessionCodec, Oidc, Visit, login, callback, logout}
use vial_gateway.Cache.{cache_prefix}
use vial_gateway.Cache.Invalidate.{ScanPage, all_keys, pattern_of, invalidate_cache}
use vial_gateway.Serve.Exchange.{Deps, Request, Site, serve_http}

pub record World (B : Type 0) : Type 0 where
  pub store : Store
  -- the router manager of each gateway
  pub gateways : ℕ → Manager B

abbrev pub set_gateway : {B : Type 0} → ℕ → Manager B → (ℕ → Manager B) → ℕ → Manager B
set_gateway i m f j = if i == j then m else f j

-- What the gateways share of packages and of their configuration.
pub record Setting (B W : Type 0) : Type 0 where
  pub host : Host B
  pub configs : Codec
  pub sessions : SessionCodec
  pub deps : Deps W
  pub admin : AdminConfig

module _ {B W : Type 0} (g : Setting B W) where
  abbrev pub with_store : World B → Store → World B
  with_store w s = record w { store = s }

  abbrev pub with_manager : World B → ℕ → Manager B → World B
  with_manager w i m = record w { gateways = set_gateway i m w.gateways }

  abbrev pub activated_at : World B → ℕ → Store × Manager B × Response → World B
  activated_at w i (s, m, r) = with_manager (with_store w s) i m

  pub data Step : World B → World B → Type 0 where
    -- Start; where the SETNX of the active version is answered, that of the configuration was too
    starts :
        (w : World B) (c : Calls) (control_only : Bool) (config : GatewayConfig) (n : ℕ)
        → (c.second ≡ true → c.first ≡ true)
        → config.version ≡ pos n
        → Step w (with_store w (start g.host g.configs c control_only config w.store))
    -- load, by the ticker or a message, and a reload by SIGHUP
    loads :
        (w : World B) (i : ℕ) (c : Calls)
        → Step w (with_manager w i (load g.host g.configs c w.store (w.gateways i)))
    reloads :
        (w : World B) (i : ℕ) (config : GatewayConfig)
        → Step w (with_manager w i (activate g.host (w.gateways i) config).0)
    creates :
        (w : World B) (i : ℕ) (c : Calls) (actor : Text) (body : Option GatewayConfig)
        → Step w
            (with_store w (create_config g.host g.configs c (w.gateways i) actor body w.store).0)
    deletes :
        (w : World B) (c : Calls) (actor path_value : Text)
        → Step w (with_store w (delete_config c actor path_value w.store).0)
    activates :
        (w : World B) (i : ℕ) (c : Calls) (actor action path_value if_match : Text) (seen : Store)
        → Step w (
            activated_at w i (
              activate_config g.host g.configs c actor action path_value if_match seen w.store
                (w.gateways i)))
    creates_key :
        (w : World B) (c : Calls) (actor : Text) (body : Option (Text × List Text))
        (token : Option Text)
        → Step w (with_store w (create_api_key g.deps.std c actor body token w.store).0)
    revokes_key :
        (w : World B) (c : Calls) (actor id : Text)
        → Step w (with_store w (revoke_api_key c actor id w.store).0)
    logs_in :
        (w : World B) (oidc : Oidc) (c : Calls) (v : Visit) (state : Option Text) (verifier : Text)
        (id : Option Text)
        → Step w (
            with_store w (login g.deps.std g.sessions g.admin oidc c v state verifier id w.store).0)
    calls_back :
        (w : World B) (oidc : Oidc) (c : Calls) (v : Visit) (csrf id : Option Text)
        → Step w (with_store w (callback g.deps.std g.sessions g.admin oidc c v csrf id w.store).0)
    logs_out :
        (w : World B) (c : Calls) (v : Visit) (identity : AdminIdentity)
        → Step w (with_store w (logout g.deps.std g.sessions g.admin c v identity w.store).0)
    -- invalidateCache; the keys that a SCAN of its pattern gives are keys of the cache
    invalidates :
        (w : World B) (scan : Text → List (Option ScanPage)) (c : Calls) (actor : Text)
        (body : Option Text)
        → ((route k : Text)
            → elem k (all_keys (scan (pattern_of route))) ≡ true
            → (rest : Text) × (k ≡ cache_prefix ++ rest))
        → Step w (with_store w (invalidate_cache scan c actor body w.store).0)
    -- a request to a route, whose gate and pool are any
    serves :
        (w : World B) (route : CompiledRoute B) (link : Link) (answered : Bool) (q : Request)
        (site : Site B W)
        → site.store ≡ w.store
        → Step w (with_store w (serve_http g.deps route link answered q site).0.store)

  pub data Reach (start : World B) : World B → Type 0 where
    here : Reach start start
    next : {v w : World B} → Reach start v → Step v w → Reach start w
