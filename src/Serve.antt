-- ===== src/Serve.antt =====
-- The guards of a route in front of the upstreams: serveHTTP of cmd/gateway/app.go, up to the cache.
-- A request that they admit holds one of the route's slots until it is answered.
pub mod Admission
pub mod Exchange
pub mod Isolation
pub mod Principals
pub mod Answers
use vial_gateway.Prelude.{
  ℕ, ◌+◌, Bool, true, false, not, ◌&&◌, ◌||◌, List, Option, none, some, if◌then◌else◌, leb,
}
use vial_gateway.Prelude.Int.{ℤ, pos, not_pos, leb_ℤ}
use vial_gateway.Text.{Text, codes}
use vial_gateway.Std.{Std}
use vial_gateway.Header.{Header, header_bytes}
use vial_gateway.Trust.{Peer}
use vial_gateway.Scopes.{has_scopes}
use vial_gateway.Route.{Principal, CompiledRoute}
use vial_gateway.RateLimit.Request.{Link, Limits, rate_key, rate_identity, allow_request}
use vial_gateway.Store.{Store}
use vial_gateway.Auth.{authenticate}

pub record Arrival : Type 0 where
  pub header : Header
  pub peer : Peer
  pub content_length : ℤ
  -- the time of Redis, in milliseconds
  pub ms : ℕ

-- The rate limits, and the number of slots of the route that are taken.
pub record Gate : Type 0 where
  pub limits : Limits
  pub taken : ℕ

pub data Verdict : Type 0 where
  refused : ℕ → Text → Verdict
  admitted : Principal → Verdict

-- `select` on the channel: whether a slot is free
abbrev pub slot_free : Option ℕ → ℕ → Bool
slot_free none taken = true
slot_free (some capacity) taken = not (leb capacity taken)

abbrev pub rated : Principal → Limits × Bool → Gate → Gate × Verdict
rated p (limits, false) s = (record s { limits = limits }, refused 429 (codes "rate_limited"))
rated p (limits, true) s = (record { limits = limits; taken = s.taken + 1 }, admitted p)

module _ {B : Type 0} (std : Std) (verify_jwt : Text → Option Principal) where
  -- The principal of the request, if it has the route's scopes.
  abbrev pub rate_of : CompiledRoute B → Link → Arrival → Principal → Limits → Limits × Bool
  rate_of route link a p limits =
      allow_request route.rate link
        (rate_key std route.config.name (rate_identity std p.id a.peer a.header route.trusted)) a.ms
        limits

  abbrev pub within : CompiledRoute B → Arrival → Bool
  within route a =
      (not_pos route.max_header || leb_ℤ (pos (header_bytes a.header)) route.max_header)
      && leb_ℤ a.content_length route.config.max_body_bytes

  unfoldable pub admit : CompiledRoute B → Link → Store → Arrival → Gate → Gate × Verdict
  admit route link store a s =
      if not (not_pos route.max_header)
        && not (leb_ℤ (pos (header_bytes a.header)) route.max_header)
      then (s, refused 431 (codes "headers_too_large"))
      else if not (leb_ℤ a.content_length route.config.max_body_bytes)
      then (s, refused 413 (codes "body_too_large"))
      else if not (slot_free route.sem s.taken)
      then (s, refused 429 (codes "concurrency_limited"))
      else elim (authenticate std verify_jwt route.auth link store a.header) [
        | none ↦ (s, refused 401 (codes "unauthorized"))
        | some p ↦
            if not (has_scopes p.scopes route.config.scopes)
            then (s, refused 403 (codes "insufficient_scope"))
            else rated p (rate_of route link a p s.limits) s
      ]
