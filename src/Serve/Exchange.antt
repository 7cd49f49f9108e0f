-- ===== src/Serve/Exchange.antt =====
-- A whole request to a route: serveHTTP of cmd/gateway/app.go, from the guards over the cache and the
-- upstreams to the answer. The header fields of a fault are left out.
use vial_gateway.Prelude.{ℕ, ◌-◌, Bool, true, false, [], Option, none, some, Result, ok, err}
use vial_gateway.Prelude.Int.{ℤ}
use vial_gateway.Text.{Text, codes}
use vial_gateway.Std.{Std}
use vial_gateway.Header.{Header}
use vial_gateway.Trust.{Peer}
use vial_gateway.Route.{Principal, CompiledRoute}
use vial_gateway.RateLimit.Request.{Link}
use vial_gateway.Store.{Store}
use vial_gateway.Transform.{ObjectCodec}
use vial_gateway.Cache.{Asked, CachedResponse, ResponseCodec, cache_key, serve_cached, store_cached}
use vial_gateway.Forward.{
  Stream, Incoming, Response, Upstream, Sending, ForwardError, body_too_large, invalid_json,
  no_healthy_upstream, upstream_status, transport_failed, nothing, forward,
}
use vial_gateway.Answer.{Answer, fault, sent, write_response}
use vial_gateway.Serve.{Arrival, Gate, refused, admitted, admit}

pub record Request : Type 0 where
  pub method : Text
  pub path : Text
  pub raw_path : Text
  pub query : Text
  -- URL.RequestURI()
  pub uri : Text
  pub header : Header
  pub peer : Peer
  pub content_length : ℤ
  pub body : Option Stream
  pub ms : ℕ

abbrev pub arrival_of : Request → Arrival
arrival_of q = record {
  header = q.header;
  peer = q.peer;
  content_length = q.content_length;
  ms = q.ms;
}

abbrev pub asked_of : Request → Asked
asked_of q = record { method = q.method; uri = q.uri; header = q.header }

abbrev pub incoming_of : Request → Incoming
incoming_of q = record {
  method = q.method;
  path = q.path;
  raw_path = q.raw_path;
  query = q.query;
  header = q.header;
  peer = q.peer;
  body = q.body;
}

-- What the handler calls of packages.
pub record Deps (W : Type 0) : Type 0 where
  pub std : Std
  pub verify_jwt : Text → Option Principal
  pub upstream : Upstream W
  pub objects : ObjectCodec
  pub responses : ResponseCodec
  -- an int by way of a float64
  pub whole : ℕ → ℕ

-- What a route shares between its requests, and Redis.
pub record Site (B W : Type 0) : Type 0 where
  pub gate : Gate
  pub sending : Sending B W
  pub store : Store

-- The end of a request: an answer, or the panic on a response that is nil.
pub data Served : Type 0 where
  answer : Answer → Served
  panicked : Served

unfoldable pub fault_of : ForwardError → Served
fault_of body_too_large = answer (fault 413 (codes "body_too_large"))
fault_of invalid_json = answer (fault 400 (codes "invalid_json"))
fault_of (transport_failed true) = answer (fault 413 (codes "body_too_large"))
fault_of (transport_failed false) = answer (fault 502 (codes "bad_gateway"))
fault_of no_healthy_upstream = answer (fault 502 (codes "bad_gateway"))
fault_of upstream_status = answer (fault 502 (codes "bad_gateway"))
fault_of nothing = panicked

-- <-route.sem
abbrev pub release : Gate → Gate
release g = record g { taken = g.taken - 1 }

abbrev pub is_keyed : Option Text → Bool
is_keyed none = false
is_keyed (some key) = true

module _ {W : Type 0} (deps : Deps W) where
  -- What serveCached finds.
  abbrev pub hit : Link → Option Text → Request → Store → Option CachedResponse
  hit link none q s = none
  hit link (some key) q s = serve_cached deps.std deps.responses link key [] (asked_of q) s

module _ {B W : Type 0} (deps : Deps W) where
  -- What writeResponse hands to storeCached.
  abbrev pub stored : CompiledRoute B → Bool → Option Text → Option CachedResponse → Store → Store
  stored route answered key page s = elim route.cache [
    | none ↦ s
    | some policy ↦ elim key [
      | none ↦ s
      | some k ↦ elim page [
        | none ↦ s
        | some r ↦ store_cached deps.std deps.responses deps.whole policy answered k r s
      ]
    ]
  ]

  -- The answer to an upstream's response.
  unfoldable pub conclude :
      CompiledRoute B
      → Bool
      → Option Text
      → Text
      → Result ForwardError Response
      → Store
      → Store × Served
  conclude route answered key method (err e) s = (s, fault_of e)
  conclude route answered key method (ok r) s =
      let (a, page) = write_response deps.std deps.objects route (is_keyed key) [] method r in
      (stored route answered key page s, answer a)

  -- What follows the guards; `answered` says that Redis takes the write of the cache.
  unfoldable pub respond :
      CompiledRoute B → Link → Bool → Request → Principal → Site B W → Site B W × Served
  respond route link answered q p s =
      let key = cache_key deps.std route link (asked_of q) p.id in
      elim (hit deps link key q s.store) [
        | some page ↦ (s, answer (sent page.status page.header page.body))
        | none ↦
            let (sending, result) =
              forward deps.upstream deps.std deps.objects route.config route.trusted (incoming_of q)
                s.sending in
            let (store, served) = conclude route answered key q.method result s.store in
            (record s { sending = sending; store = store }, served)
      ]

  abbrev pub released : Site B W × Served → Site B W × Served
  released (s, served) = (record s { gate = release s.gate }, served)

  -- serveHTTP
  unfoldable pub serve_http : CompiledRoute B → Link → Bool → Request → Site B W → Site B W × Served
  serve_http route link answered q s =
      let (gate, verdict) =
        admit deps.std deps.verify_jwt route link s.store (arrival_of q) s.gate in
      elim verdict [
        | refused status code ↦ (record s { gate = gate }, answer (fault status code))
        | admitted p ↦ released (respond route link answered q p (record s { gate = gate }))
      ]
