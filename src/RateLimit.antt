-- ===== src/RateLimit.antt =====
-- The rate limit of cmd/gateway/app.go: tokenBucketScript, which Redis runs as one step, and
-- compiledRoute.allowRequest. Tokens are counted in units of 1/window, in exact arithmetic where
-- the script has doubles, and the key's expiry is the time from which Redis holds it for missing.
pub mod Script
pub mod Request
pub mod Laws
use vial_gateway.Prelude.{
  ℕ, zero, suc, ◌+◌, ◌*◌, Bool, true, false, Option, none, some, leb, ◌==◌, if◌then◌else◌, List, [],
  ◌∷◌,
}
use vial_gateway.Prelude.Int.{ℤ, pos, negsuc, ◌+ℤ◌, sub_ℕ, scale, min_ℤ, leb_ℤ}

-- The hash at KEYS[1].
pub record Bucket : Type 0 where
  pub tokens : ℤ
  pub updated : ℕ
  pub expires : ℕ

-- The key as Redis holds it at the time `ms`.
unfoldable pub live : ℕ → Option Bucket → Option Bucket
live ms none = none
live ms (some b) = if leb b.expires ms then none else some b

module _ (capacity requests window : ℕ) where
  -- tokens and updated, after the refill
  unfoldable pub refill : ℕ → Option Bucket → ℤ
  unfolding min_ℤ ◌+ℤ◌ scale
  refill ms none = pos (capacity * window)
  refill ms (some b) =
      min_ℤ (pos (capacity * window)) (b.tokens +ℤ scale requests (sub_ℕ ms b.updated))

  -- if tokens >= 1 then tokens = tokens - 1; allowed = 1 end, and the two writes
  unfoldable pub take_token : ℕ → ℤ → Bucket × Bool
  unfolding ◌+ℤ◌
  take_token ms tokens =
      if leb_ℤ (pos window) tokens
      then (
        record { tokens = tokens +ℤ sub_ℕ 0 window; updated = ms; expires = ms + window * 2 },
        true,
      )
      else (record { tokens = tokens; updated = ms; expires = ms + window * 2 }, false)

  -- Windows below a millisecond arrive as 0. The quotient is then not a number or infinite, and
  -- math.min gives the capacity; PEXPIRE with 0 deletes the key.
  unfoldable pub token_bucket : ℕ → Option Bucket → Option Bucket × Bool
  unfolding refill take_token live
  token_bucket ms key = elim window [
    | zero ↦ (none, leb 1 capacity)
    | suc w ↦ let (b, allowed) = take_token ms (refill ms (live ms key)) in (some b, allowed)
  ]
