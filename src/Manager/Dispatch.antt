-- ===== src/Manager/Dispatch.antt =====
-- Which route answers a request: ServeHTTP of the router manager, cmd/gateway/app.go, over the mux that
-- compile filled. `mux` is what http.ServeMux finds for a request.
use vial_gateway.Header.{Header}
use vial_gateway.Answer.{cors}
use vial_gateway.Prelude.{Bool, ◌≡◌, true, false, List, [], ◌∷◌, Option, none, some, if◌then◌else◌}
use vial_gateway.Text.{Text, codes, elem}
use vial_gateway.Config.Types.{RouteConfig}
use vial_gateway.Route.{CompiledRoute, route_patterns}
use vial_gateway.Manager.{Host, Snapshot, Manager}

-- What http.ServeMux finds for a request among patterns: one of them, a redirect to a clean path, or
-- nothing.
pub data Found : Type 0 where
  found redirect : Text → Found
  missing : Found

pub data Routed (B : Type 0) : Type 0 where
  -- 503 not_configured, and the 404 of the mux
  unconfigured unmatched : Routed B
  redirected : Text → Routed B
  -- the 204 of corsHandler, and the handler of a route, with the header that the writer has
  preflight : Header → Routed B
  routed : Header → CompiledRoute B → Routed B

module _ {B : Type 0} (host : Host B) where
  -- The handler that was registered under a pattern.
  unfoldable pub route_for :
      Text → List RouteConfig → List (CompiledRoute B) → Option (CompiledRoute B)
  route_for pattern [] compiled = none
  route_for pattern (r ∷ routes) [] = none
  route_for pattern (r ∷ routes) (c ∷ compiled) =
      if elem pattern (route_patterns host.std r) then some c else route_for pattern routes compiled

  abbrev pub handled : Header → Option (CompiledRoute B) → Routed B
  handled h none = unmatched
  handled h (some c) = routed h c

  -- The mux of the routes.
  abbrev pub inner : {Q : Type 0} → (List Text → Q → Found) → Q → Snapshot B → Header → Routed B
  inner mux q s h = elim (mux s.patterns q) [
    | missing ↦ unmatched
    | redirect to ↦ redirected to
    | found pattern ↦ handled h (route_for pattern s.config.routes s.routes)
  ]

  abbrev pub after_cors : Header × Bool → (Header → Routed B) → Routed B
  after_cors (h, true) next = preflight h
  after_cors (h, false) next = next h

  -- The pattern of the mux around corsHandler.
  abbrev pub root : List Text
  root = codes "/" ∷ []

  -- The mux of a snapshot: that of the routes, or the one around corsHandler.
  abbrev pub outer :
      {Q : Type 0} → (List Text → Q → Found) → Text → Text → Q → Snapshot B → List Text → Routed B
  outer mux origin method q s [] = inner mux q s []
  outer mux origin method q s (o ∷ os) = elim (mux root q) [
    | missing ↦ unmatched
    | redirect to ↦ redirected to
    | found pattern ↦ after_cors (cors (o ∷ os) origin method []) (inner mux q s)
  ]

  -- ServeHTTP of the manager, up to the handler of the route, for a request with an Origin and a method
  unfoldable pub route_request :
      {Q : Type 0} → (List Text → Q → Found) → Text → Text → Q → Manager B → Routed B
  route_request mux origin method q m = elim m.current [
    | none ↦ unconfigured
    | some s ↦ outer mux origin method q s s.config.cors_allowed_origins
  ]

  -- http.ServeMux refuses a pattern that is there.
  abbrev pub NoDuplicates : Type 0
  NoDuplicates =
      (taken : List Text) (p : Text) → elem p taken ≡ true → host.registers taken p ≡ false
