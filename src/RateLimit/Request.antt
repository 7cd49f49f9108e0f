-- ===== src/RateLimit/Request.antt =====
-- The rate limit of one request: compiledRoute.allowRequest and sha256Text of cmd/gateway/app.go.
-- `Link` is the state of route.redis: nil, failing, or answering.
use vial_gateway.Prelude.{
  ℕ, ◌+◌, ◌/◌, Bool, true, List, ◌∷◌, ◌++◌, Option, none, some, if◌then◌else◌,
}
use vial_gateway.Prelude.Int.{ℤ, pos_part, ◌+ℤ◌, wrap_i64}
use vial_gateway.Text.{Text, codes, text_eq}
use vial_gateway.Hex.{hex_encode}
use vial_gateway.Std.{Std, IpNet}
use vial_gateway.Header.{Header}
use vial_gateway.Trust.{Peer, client_ip}
use vial_gateway.Config.Types.{RatePolicy}
use vial_gateway.RateLimit.{Bucket, token_bucket}

pub data Link : Type 0 where
  absent down up : Link

-- The keys in Redis, and the counter of checks that were skipped.
pub record Limits : Type 0 where
  pub buckets : Text → Option Bucket
  pub fail_open : ℕ

abbrev pub rate_prefix : Text
rate_prefix = codes "vial-gateway:rate:"

abbrev pub anonymous : Text
anonymous = codes "anonymous"

module _ (std : Std) where
  unfoldable pub sha256_text : Text → Text
  sha256_text value = hex_encode (std.sha256 value)

  -- fmt.Sprintf("vial-gateway:rate:%s:%s", route.config.Name, sha256Text(keyID))
  unfoldable pub rate_key : Text → Text → Text
  unfolding sha256_text
  rate_key name key_id = rate_prefix ++ (name ++ (b':' ∷ sha256_text key_id))

  -- keyID
  unfoldable pub rate_identity : Text → Peer → Header → List IpNet → Text
  rate_identity id peer header trusted =
      if text_eq id anonymous then client_ip std peer header trusted else id

-- time.Duration.Milliseconds, of a duration that is not negative
abbrev pub milliseconds : ℤ → ℕ
milliseconds d = pos_part d / 1000000

-- int of Requests + Burst. A sum that wraps is negative, and lets nothing through, as 0 does.
unfoldable pub capacity_of : RatePolicy → ℕ
unfolding wrap_i64 ◌+ℤ◌
capacity_of rate = pos_part (wrap_i64 (rate.requests +ℤ rate.burst))

abbrev write_key : (Text → Option Bucket) → Text → Option Bucket → Text → Option Bucket
write_key buckets key b k = if text_eq key k then b else buckets k

-- Eval of the script at the time `ms`, where Redis answers.
unfoldable pub eval_bucket : RatePolicy → Text → ℕ → Limits → Limits × Bool
eval_bucket rate key ms s =
    let (b, allowed) =
      token_bucket (capacity_of rate) (pos_part rate.requests) (milliseconds rate.window) ms
        (s.buckets key) in
    (record s { buckets = write_key s.buckets key b }, allowed)

unfoldable pub allow_request : Option RatePolicy → Link → Text → ℕ → Limits → Limits × Bool
allow_request none link key ms s = (s, true)
allow_request (some rate) absent key ms s = (record s { fail_open = s.fail_open + 1 }, true)
allow_request (some rate) down key ms s = (record s { fail_open = s.fail_open + 1 }, true)
allow_request (some rate) up key ms s = eval_bucket rate key ms s
