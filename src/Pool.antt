-- ===== src/Pool.antt =====
-- The upstream pool of cmd/gateway/app.go: upstreamPool.pick and hasHealthy. The counter `next` is
-- an atomic.Uint64 and wraps; `B` is the state of an endpoint's circuit breaker.
pub mod Pick
pub mod Health
pub mod RoundRobin
use vial_gateway.Prelude.{
  ℕ, zero, suc, ◌+◌, ◌-◌, ◌%◌, ◌^◌, Bool, true, false, ◌||◌, List, [], ◌∷◌, Option, none, some,
  length, get_elem?, if◌then◌else◌, any,
}
use vial_gateway.Text.{Text}
use vial_gateway.Url.{Url}

pub record Endpoint (B : Type 0) : Type 0 where
  pub url : Url
  pub healthy : Bool
  pub breaker : B

pub record Pool (B : Type 0) : Type 0 where
  pub name : Text
  pub endpoints : List (Endpoint B)
  pub next : ℕ

abbrev pub u64_mod : ℕ
u64_mod = 2 ^ 64

abbrev pub u64_max : ℕ
u64_max = 2 ^ 64 - 1

module _ {B : Type 0} where
  -- Whether endpoints[index] is healthy.
  abbrev pub is_up : Option (Endpoint B) → Bool
  is_up none = false
  is_up (some e) = e.healthy

  -- The loop of pick, with `rounds` left: the index of the first healthy endpoint from `start`.
  unfoldable pub scan : List (Endpoint B) → ℕ → ℕ → ℕ → Option ℕ
  scan endpoints start offset zero = none
  scan endpoints start offset (suc rounds) =
      let index = ((start + offset) % u64_mod) % length endpoints in
      let rest = scan endpoints start (suc offset) rounds in
      if is_up (get_elem? endpoints index) then some index else rest

  -- pool.next.Add(1), and the endpoint picked, by its index
  unfoldable pub pick : Pool B → Pool B × Option ℕ
  pick pool =
      let added = (pool.next + 1) % u64_mod in
      let start = (added + u64_max) % u64_mod in
      (record pool { next = added }, scan pool.endpoints start 0 (length pool.endpoints))

  unfoldable pub has_healthy : Pool B → Bool
  has_healthy pool = any (λ e. e.healthy) pool.endpoints
