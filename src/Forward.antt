-- ===== src/Forward.antt =====
-- One request sent upstream: forward, cloneUpstreamRequest, readBounded and isIdempotent of
-- cmd/gateway/app.go. The breakers and the network are the world `W`, which `Upstream` steps.
pub mod Attempts
use vial_gateway.Prelude.{
  ℕ, zero, suc, Bool, true, false, not, ◌&&◌, ◌||◌, List, [], ◌∷◌, Option, none, some,
  if◌then◌else◌, leb, ltb, get_elem?, ◌==◌, Result, ok, err, ◌>>=◌, length, take,
}
use vial_gateway.Prelude.Int.{ℤ, pos, pos_part, leb_ℤ, ◌+ℤ◌, wrap_i64}
use vial_gateway.Text.{Text, codes, is_empty, text_eq}
use vial_gateway.Url.{Url}
use vial_gateway.Std.{Std, IpNet}
use vial_gateway.Path.{join_url_path, rewrite_path}
use vial_gateway.Header.{Header, apply_header_transform, remove_hop_headers}
use vial_gateway.Header
use vial_gateway.Trust.{Peer, set_forwarded_headers}
use vial_gateway.Pool.{Pool, pick}
use vial_gateway.Config.Types.{RouteConfig}
use vial_gateway.Transform.{ObjectCodec, transform_json}
use vial_gateway.Config.Validate.{json_empty}

unfoldable pub is_idempotent : Text → Bool
is_idempotent method =
    text_eq method (codes "GET")
    || text_eq method (codes "HEAD")
    || text_eq method (codes "PUT")
    || text_eq method (codes "DELETE")
    || text_eq method (codes "OPTIONS")

-- A body to be read: the bytes that come, and whether it then ends without an error.
pub record Stream : Type 0 where
  pub bytes : Text
  pub complete : Bool

-- io.LimitReader with maximum + 1, which wraps; an error behind the limit is not met. Then the length
-- against the maximum.
unfoldable pub read_bounded : ℤ → Stream → Option Text
read_bounded maximum body =
    let limit = pos_part (wrap_i64 (maximum +ℤ pos 1)) in
    let read = take limit body.bytes in
    if not body.complete && ltb (length body.bytes) limit
    then none
    else if leb_ℤ (pos (length read)) maximum
    then some read
    else none

pub data ForwardError : Type 0 where
  -- requestFault
  body_too_large invalid_json : ForwardError
  no_healthy_upstream upstream_status : ForwardError
  -- whether the error is an http.MaxBytesError
  transport_failed : Bool → ForwardError
  -- no attempt at all: a nil response and a nil error
  nothing : ForwardError

-- The body of the request that is kept for every attempt, where it is not streamed.
unfoldable pub prepare_body : ObjectCodec → RouteConfig → Option Stream → Result ForwardError Text
prepare_body codec r none = ok []
prepare_body codec r (some sent) =
    if r.streaming then ok [] else elim (read_bounded r.max_body_bytes sent) [
      | none ↦ err body_too_large
      | some body ↦
          if json_empty r.request_transform.json || is_empty body
          then ok body
          else elim (transform_json codec r.request_transform.json body) [
            | none ↦ err invalid_json
            | some changed ↦ ok changed
          ]
    ]

-- What forward reads of a request.
pub record Incoming : Type 0 where
  pub method : Text
  pub path : Text
  pub raw_path : Text
  pub query : Text
  pub header : Header
  pub peer : Peer
  pub body : Option Stream

-- A request as it goes upstream.
pub record Outgoing : Type 0 where
  pub method : Text
  pub url : Url
  pub header : Header
  pub body : Stream

abbrev sent_whole : Text → Stream
sent_whole bytes = record { bytes = bytes; complete = true }

-- request.Body as it stands, where nil is http.NoBody
abbrev or_no_body : Option Stream → Stream
or_no_body none = sent_whole []
or_no_body (some body) = body

-- cloneUpstreamRequest; the URL of a server's request has no user and no fragment
unfoldable pub clone_request : Std → RouteConfig → List IpNet → Incoming → Text → Url → Outgoing
clone_request std r trusted q body target =
    let stripped = Header.del (remove_hop_headers q.header) (codes "Proxy-Authorization") in
    let changed = apply_header_transform stripped r.request_transform in
    record {
      method = q.method;
      url = record {
        scheme = target.scheme;
        has_user = false;
        host = target.host;
        path = join_url_path target.path (rewrite_path q.path r.path_prefix r.path_rewrite);
        raw_path = q.raw_path;
        raw_query = q.query;
        fragment = [];
      };
      header = set_forwarded_headers std changed q.peer trusted;
      body = if r.streaming then or_no_body q.body else sent_whole body;
    }

-- http.Response; `asked` is the URL of its Request
pub record Response : Type 0 where
  pub status : ℕ
  pub header : Header
  pub body : Stream
  pub asked : Option Url

-- The end of a round trip: a response, or an error, which may be an http.MaxBytesError.
pub data Reply : Type 0 where
  replied : Response → Reply
  broken : Bool → Reply

-- What gobreaker and net/http do with the endpoint of an index: whether the breaker lets the call
-- through, the end of the round trip, and the breaker's note of its success.
pub record Upstream (W : Type 0) : Type 0 where
  pub lets_through : W → ℕ → Bool
  pub round_trip : W → ℕ → Outgoing → W × Reply
  pub settle : W → ℕ → Bool → W

pub data Attempt : Type 0 where
  answered rejected : Response → Attempt
  failed : Bool → Attempt

abbrev pub is_ok : Attempt → Bool
is_ok (answered r) = true
is_ok (rejected r) = false
is_ok (failed over) = false

-- response.StatusCode >= 500 is an error, and keeps the response
unfoldable pub judge : Reply → Attempt
judge (broken over) = failed over
judge (replied r) = if leb 500 r.status then rejected r else answered r

module _ {W : Type 0} (up : Upstream W) where
  -- endpoint.breaker.Execute; a breaker that is open gives an error of its own
  unfoldable pub execute : W → ℕ → Outgoing → W × Attempt
  execute w i out =
      let (w', reply) = up.round_trip w i out in
      if up.lets_through w i
      then (up.settle w' i (is_ok (judge reply)), judge reply)
      else (w, failed false)

-- `tried` is the counter metrics.upstream: the attempts with their endpoints and results, newest first.
pub record Sending (B W : Type 0) : Type 0 where
  pub pool : Pool B
  pub world : W
  pub tried : List (ℕ × Bool)

abbrev pub Outcome : Type 0 → Type 0 → Type 0
Outcome B W = Sending B W × Result ForwardError Response

-- What follows an attempt: the last one returns the response even of an error.
abbrev pub settled :
    {B W : Type 0} → ℕ → Attempt → Sending B W → Outcome B W → (Bool → Outcome B W) → Outcome B W
settled left (answered r) s after_status after_failure = (s, ok r)
settled zero (rejected r) s after_status after_failure = (s, ok r)
settled (suc left) (rejected r) s after_status after_failure = after_status
settled left (failed over) s after_status after_failure = after_failure over

-- attempts, whose sum wraps around
unfoldable pub attempts_of : RouteConfig → Text → ℕ
attempts_of r method =
    if is_idempotent method && not r.streaming then pos_part (wrap_i64 (pos 1 +ℤ r.retries)) else 1

abbrev no_url : Url
no_url = record {
  scheme = [];
  has_user = false;
  host = [];
  path = [];
  raw_path = [];
  raw_query = [];
  fragment = [];
}

-- endpoint.url; pick gives no index out of range
abbrev pub url_at : {B : Type 0} → Pool B → ℕ → Url
url_at pool i = elim (get_elem? pool.endpoints i) [ none ↦ no_url | some e ↦ e.url ]

module _ {B W : Type 0} (up : Upstream W) where
  abbrev pub tried_once : Sending B W → Pool B → ℕ → W × Attempt → Sending B W
  tried_once s pool i (w, a) = record { pool = pool; world = w; tried = (i, is_ok a) ∷ s.tried }

  -- The loop over the attempts, with those left; `make` is the request for an endpoint's URL.
  unfoldable pub try_upstreams : (Url → Outgoing) → ℕ → ForwardError → Sending B W → Outcome B W
  try_upstreams make zero last s = (s, err last)
  try_upstreams make (suc left) last s = elim (pick s.pool).1 [
    | none ↦ (record s { pool = (pick s.pool).0 }, err no_healthy_upstream)
    | some i ↦
        let e = execute up s.world i (make (url_at s.pool i)) in
        let s' = tried_once s (pick s.pool).0 i e in
        let after_status = try_upstreams make left upstream_status s' in
        let after_failure = λ (over : Bool). try_upstreams make left (transport_failed over) s' in
        settled left e.1 s' after_status after_failure
  ]

  -- forward
  unfoldable pub forward :
      Std → ObjectCodec → RouteConfig → List IpNet → Incoming → Sending B W → Outcome B W
  forward std codec r trusted q s = elim (prepare_body codec r q.body) [
    | err e ↦ (s, err e)
    | ok body ↦
        try_upstreams (clone_request std r trusted q body) (attempts_of r q.method) nothing s
  ]
