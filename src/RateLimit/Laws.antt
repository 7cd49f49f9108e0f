-- ===== src/RateLimit/Laws.antt =====
-- When the rate limit refuses, whom it counts together, and where it does not limit.
use vial_gateway.Prelude.{
  ℕ, zero, suc, ◌+◌, ◌*◌, ◌<◌, ◌≡◌, refl, true, false, List, [], ◌∷◌, ◌++◌, Option, none, some,
  arith, length, All, length-append, ap, ok, ◌^◌,
}
use vial_gateway.Prelude.Int.{pos}
use vial_gateway.Text.{Text}
use vial_gateway.Hex.{hex_encode}
use vial_gateway.Hex.RoundTrip.{encode-injective}
use vial_gateway.Std.{Std}
use vial_gateway.Config.Types.{RatePolicy}
use vial_gateway.Config.Validate.{check_rate_policy}
use vial_gateway.RateLimit.{Bucket, token_bucket}
use vial_gateway.RateLimit.Request.{
  Link, absent, down, up, Limits, rate_key, sha256_text, rate_prefix, capacity_of, eval_bucket,
  allow_request,
}

-- A request is refused only by a bucket that Redis holds: with no policy, no Redis or a failing one
-- it passes, and the counter tells the skipped checks.
refused_by_bucket :
    (rate : Option RatePolicy) (link : Link) (key : Text) (ms : ℕ) (s : Limits)
    → (allow_request rate link key ms s).1 ≡ false
    → (link ≡ up) × ((allow_request rate link key ms s).0.fail_open ≡ s.fail_open)
unfolding allow_request eval_bucket
refused_by_bucket none link key ms s h = cc
refused_by_bucket (some rate) absent key ms s h = cc
refused_by_bucket (some rate) down key ms s h = cc
refused_by_bucket (some rate) up key ms s h = (refl, refl)

length-hex : (bytes : List ℕ) → length (hex_encode bytes) ≡ 2 * length bytes
unfolding hex_encode
length-hex [] = omega arith
length-hex (b ∷ bytes) = omega (arith, length-hex bytes)

append_inj : (s t u v : Text) → length u ≡ length v → s ++ u ≡ t ++ v → (s ≡ t) × (u ≡ v)
append_inj [] [] u v h e = (refl, e)
append_inj [] (b ∷ t) u v h e = absurd (omega (arith, ap length e, length-append t v))
append_inj (a ∷ s) [] u v h e = absurd (omega (arith, ap length e, length-append s u))
append_inj (a ∷ s) (b ∷ t) u v h e = let (same, rest) = append_inj s t u v h (cc) in (cc same, rest)

append_cancel : (s u v : Text) → s ++ u ≡ s ++ v → u ≡ v
append_cancel [] u v e = e
append_cancel (a ∷ s) u v e = append_cancel s u v (cc)

-- Two requests share a bucket only if they are of one route, and of identities with one digest.
rate_key-injective :
    (std : Std) (name name' id id' : Text)
    → ((t : Text) → (length (std.sha256 t) ≡ 32) × All (λ b. b < 256) (std.sha256 t))
    → rate_key std name id ≡ rate_key std name' id'
    → (name ≡ name') × (std.sha256 id ≡ std.sha256 id')
unfolding rate_key
rate_key-injective std name name' id id' digests e =
    let same_length : length (hex_encode (std.sha256 id)) ≡ length (hex_encode (std.sha256 id')) =
      omega (
        arith,
        length-hex (std.sha256 id),
        length-hex (std.sha256 id'),
        (digests id).0,
        (digests id').0,
      ) in
    let (names, rest) =
      append_inj name name' (b':' ∷ sha256_text std id) (b':' ∷ sha256_text std id')
        (ap suc same_length) (append_cancel rate_prefix _ _ e) in
    (names, encode-injective _ _ (digests id).1 (digests id').1 (cc rest))

capacity_of-small :
    (requests burst window : ℕ)
    → requests + burst < 2 ^ 63
    → capacity_of (record { requests = pos requests; burst = pos burst; window = pos window })
      ≡ requests + burst
unfolding capacity_of
capacity_of-small requests burst window h = ground arith

bucket-unlimited :
    (capacity requests w ms : ℕ) (key : Option Bucket)
    → w ≡ 0
    → 0 < capacity
    → (token_bucket capacity requests w ms key).1 ≡ true
unfolding token_bucket
bucket-unlimited capacity requests zero ms key z h = ground arith
bucket-unlimited capacity requests (suc w) ms key z h = absurd (omega arith)

-- A policy whose window is under a millisecond passes the validation, and limits nothing.
window_too_short :
    (name : Text) (requests burst window : ℕ) (link : Link) (key : Text) (ms : ℕ) (s : Limits)
    → 0 < requests
    → 0 < window
    → window < 1000000
    → requests + burst < 2 ^ 63
    → let rate : RatePolicy = record {
      requests = pos requests;
      burst = pos burst;
      window = pos window;
    } in
      (check_rate_policy (name, rate) ≡ ok tt)
      × ((allow_request (some rate) link key ms s).1 ≡ true)
unfolding check_rate_policy allow_request eval_bucket
window_too_short name requests burst window absent key ms s p q r small = (ground arith, refl)
window_too_short name requests burst window down key ms s p q r small = (ground arith, refl)
window_too_short name requests burst window up key ms s p q r small = (
  ground arith,
  bucket-unlimited _ requests _ ms (s.buckets key) (omega arith)
      (rw (capacity_of-small requests burst window small) (omega arith)),
)
