-- ===== src/Console/Status.antt =====
-- status of cmd/gateway/admin_ui.go: what the control plane shows of the snapshot that serves.
use vial_gateway.Prelude.{
  ℕ, ◌+◌, Bool, not, List, [], ◌∷◌, ◌++◌, Option, none, some, length, if◌then◌else◌,
}
use vial_gateway.Prelude.Int.{ℤ}
use vial_gateway.Text.{Text, is_empty}
use vial_gateway.Std.{Std}
use vial_gateway.Config.Types.{RouteConfig}
use vial_gateway.Pool.{Endpoint}
use vial_gateway.Route.{CompiledRoute}
use vial_gateway.Manager.{Snapshot, Manager}

-- adminEndpointStatus, adminRouteStatus, and the answer of status
pub record EndpointStatus : Type 0 where
  pub url : Text
  pub healthy : Bool
  pub breaker : Text

pub record RouteStatus : Type 0 where
  pub name : Text
  pub hosts : List Text
  pub methods : List Text
  pub path_prefix : Text
  pub auth_policy : Text
  pub rate_policy : Text
  pub cache_policy : Text
  pub concurrency : ℤ
  pub retries : ℤ
  pub streaming : Bool
  pub upstreams : List EndpointStatus
  pub healthy : ℕ

pub record Status : Type 0 where
  pub active_version : ℤ
  pub schema_version : ℤ
  pub route_count : ℕ
  pub healthy_upstreams : ℕ
  pub total_upstreams : ℕ
  pub auth_policy_count : ℕ
  pub rate_policy_count : ℕ
  pub cache_policy_count : ℕ
  pub service_name : Text
  pub tracing_enabled : Bool
  pub dynamic_dns_enabled : Bool
  pub bearer_configured : Bool
  pub routes : List RouteStatus

-- The variables of the loop: routes, healthy and total.
pub record Tally : Type 0 where
  pub routes : List RouteStatus
  pub healthy : ℕ
  pub total : ℕ

module _ {B : Type 0} (std : Std) (breaker_state : B → Text) where
  abbrev pub shown_endpoint : Endpoint B → EndpointStatus
  shown_endpoint e = record {
    url = std.urls.to_string e.url;
    healthy = e.healthy;
    breaker = breaker_state e.breaker;
  }

  -- The loop over the endpoints of a pool.
  unfoldable pub tally_pool : List (Endpoint B) → RouteStatus → ℕ → ℕ → RouteStatus × ℕ × ℕ
  tally_pool [] state healthy total = (state, healthy, total)
  tally_pool (e ∷ es) state healthy total =
      let up : ℕ = if e.healthy then 1 else 0 in
      tally_pool es
        (record state {
          upstreams = state.upstreams ++ (shown_endpoint e ∷ []);
          healthy = state.healthy + up;
        })
        (healthy + up) (total + 1)

  abbrev pub fresh : RouteConfig → RouteStatus
  fresh route = record {
    name = route.name;
    hosts = route.hosts;
    methods = route.methods;
    path_prefix = route.path_prefix;
    auth_policy = route.auth_policy;
    rate_policy = route.rate_policy;
    cache_policy = route.cache_policy;
    concurrency = route.concurrency;
    retries = route.retries;
    streaming = route.streaming;
    upstreams = [];
    healthy = 0;
  }

  abbrev pub with_route : Tally → RouteStatus × ℕ × ℕ → Tally
  with_route t (state, healthy, total) = record {
    routes = t.routes ++ (state ∷ []);
    healthy = healthy;
    total = total;
  }

  -- The loop over the routes, with the compiled routes whose pools are left.
  unfoldable pub tally_routes : List RouteConfig → List (CompiledRoute B) → Tally → Tally
  unfolding tally_pool
  tally_routes [] compiled t = t
  tally_routes (route ∷ routes) [] t =
      tally_routes routes [] (with_route t (fresh route, t.healthy, t.total))
  tally_routes (route ∷ routes) (c ∷ compiled) t =
      tally_routes routes compiled
        (with_route t (tally_pool c.pool.endpoints (fresh route) t.healthy t.total))

  abbrev pub nothing : Tally
  nothing = record { routes = []; healthy = 0; total = 0 }

  abbrev pub status_of : Text → Snapshot B → Status
  status_of bearer s =
      let t = tally_routes s.config.routes s.routes nothing in
      record {
        active_version = s.config.version;
        schema_version = s.config.schema_version;
        route_count = length t.routes;
        healthy_upstreams = t.healthy;
        total_upstreams = t.total;
        auth_policy_count = length s.config.auth_policies;
        rate_policy_count = length s.config.rate_policies;
        cache_policy_count = length s.config.cache_policies;
        service_name = s.config.telemetry.service_name;
        tracing_enabled = not (is_empty s.config.telemetry.otlp_endpoint);
        dynamic_dns_enabled = s.config.dynamic_dns.enabled;
        bearer_configured = not (is_empty bearer);
        routes = t.routes;
      }

  -- status; `none` is answered by 503
  unfoldable pub status : Text → Manager B → Option Status
  unfolding tally_routes
  status bearer m = elim m.current [ none ↦ none | some s ↦ some (status_of bearer s) ]
