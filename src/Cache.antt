-- ===== src/Cache.antt =====
-- The response cache of a route: cacheKey, cacheMaxAge, serveCached and storeCached of
-- cmd/gateway/app.go. Redis holds the cached responses as string values; how long it keeps one is the
-- time to live that goes with the write.
pub mod Keys
pub mod Entries
pub mod Invalidate
use vial_gateway.Prelude.{
  ℕ, ◌*◌, ◌-◌, ◌^◌, Bool, true, false, not, ◌&&◌, ◌||◌, List, [], ◌∷◌, ◌++◌, Option, none, some,
  if◌then◌else◌, leb, ltb, ◌==◌, length,
}
use vial_gateway.Prelude.Int.{ℤ, pos, negsuc, pos_part, not_pos, leb_ℤ, wrap_i64}
use vial_gateway.Text.{
  Text, Unicode, codes, text_eq, is_empty, to_lower, contains, split_on, trim_space, cut, join,
}
use vial_gateway.Number.{parse_int, parse_nat}
use vial_gateway.Std.{Std}
use vial_gateway.Header.{Header, canonical_key, copy_header}
use vial_gateway.Header
use vial_gateway.Route.{CompiledRoute}
use vial_gateway.Config.Types.{CachePolicy, second}
use vial_gateway.RateLimit.Request.{Link, absent, down, up, sha256_text}
use vial_gateway.Store.{Store, put}

abbrev pub cache_prefix : Text
cache_prefix = codes "vial-gateway:cache:"

-- What cacheKey reads of a request; `uri` is URL.RequestURI().
pub record Asked : Type 0 where
  pub method : Text
  pub uri : Text
  pub header : Header

pub record CachedResponse : Type 0 where
  pub status : ℕ
  pub header : Header
  pub body : Text

-- encoding/json on a cachedResponse.
pub record ResponseCodec : Type 0 where
  pub encode : CachedResponse → Option Text
  pub decode : Text → Option CachedResponse

-- The header fields by which the policy varies, with their values.
unfoldable pub vary_parts : List Text → Header → List Text
vary_parts [] h = []
vary_parts (name ∷ names) h = canonical_key name ∷ (Header.get h name ∷ vary_parts names h)

abbrev pub principal_parts : Bool → Text → List Text
principal_parts true id = id ∷ []
principal_parts false id = []

abbrev pub is_get : Text → Bool
is_get method = text_eq method (codes "GET")

abbrev pub is_head : Text → Bool
is_head method = text_eq method (codes "HEAD")

abbrev asks_afresh : Unicode → Header → Bool
asks_afresh unicode h =
    let control = to_lower unicode (Header.get h (codes "Cache-Control")) in
    contains control (codes "no-cache") || contains control (codes "no-store")

abbrev pub is_absent : Link → Bool
is_absent absent = true
is_absent down = false
is_absent up = false

-- The number that strconv.Atoi gives, whose error is dropped: 0 for bad syntax, and the nearest bound
-- for a number out of range.
abbrev at_least : Option ℕ → Option ℤ → ℤ
at_least digits (some v) = v
at_least none none = pos 0
at_least (some n) none = pos (2 ^ 63 - 1)

unfoldable pub atoi_not_neg : Text → ℕ
atoi_not_neg [] = 0
atoi_not_neg (c ∷ s) =
    if c == b'-'
    then 0
    else pos_part (at_least (parse_nat (if c == b'+' then s else c ∷ s)) (parse_int (c ∷ s)))

-- parts
abbrev pub key_parts : Text → CachePolicy → Asked → Text → List Text
key_parts name policy a id =
    name
    ∷ (a.method
        ∷ (a.uri
            ∷ (principal_parts policy.per_principal id ++ vary_parts policy.vary_headers a.header)))

abbrev pub key_text : Text → CachePolicy → Asked → Text → Text
key_text name policy a id = join (0 ∷ []) (key_parts name policy a id)

module _ (std : Std) where
  unfoldable pub key_of : Text → CachePolicy → Asked → Text → Text
  key_of name policy a id =
      cache_prefix ++ (name ++ (b':' ∷ sha256_text std (key_text name policy a id)))

  -- cacheKey; `none` is the empty key
  unfoldable pub cache_key : {B : Type 0} → CompiledRoute B → Link → Asked → Text → Option Text
  cache_key route link a id = elim route.cache [
    | none ↦ none
    | some policy ↦
        if is_absent link || not (is_get a.method || is_head a.method)
        then none
        else if asks_afresh std.unicode a.header
        then none
        else some (key_of route.config.name policy a id)
  ]

  -- time.Duration(math.Max(0, float64(seconds))) * time.Second; `whole` is what an int becomes by way
  -- of a float64, which is the compiler's to say beyond 2^53.
  abbrev in_seconds : (ℕ → ℕ) → Text → ℤ
  in_seconds whole value = wrap_i64 (pos (whole (atoi_not_neg value) * second))

  unfoldable pub max_age_of : (ℕ → ℕ) → List Text → ℤ
  max_age_of whole [] = pos 0
  max_age_of whole (directive ∷ directives) =
      let later = max_age_of whole directives in
      elim (cut b'=' (trim_space std.unicode directive)) [
        | none ↦ later
        | some (name, value) ↦
            if text_eq name (codes "max-age") then in_seconds whole value else later
      ]

  -- cacheMaxAge
  unfoldable pub cache_max_age : (ℕ → ℕ) → Text → ℤ
  unfolding max_age_of
  cache_max_age whole control = max_age_of whole (split_on b',' control)

  -- serveCached: the stored response, where Redis has one that decodes.
  unfoldable pub serve_cached :
      ResponseCodec → Link → Text → Header → Asked → Store → Option CachedResponse
  serve_cached codec absent key base a s = none
  serve_cached codec down key base a s = none
  serve_cached codec up key base a s = elim (s.strings key) [
    | none ↦ none
    | some bytes ↦ elim (codec.decode bytes) [
      | none ↦ none
      | some cached ↦ some (record {
        status = cached.status;
        header = Header.set (copy_header base cached.header) (codes "X-Cache") (codes "HIT");
        body = if is_head a.method then [] else cached.body;
      })
    ]
  ]

  abbrev time_to_live : (ℕ → ℕ) → CachePolicy → Text → ℤ
  time_to_live whole policy control =
      let age = cache_max_age whole control in
      if not (not_pos age) && not (leb_ℤ policy.ttl age) then age else policy.ttl

  -- The value and the time to live that storeCached writes, if it writes.
  unfoldable pub cache_entry :
      ResponseCodec → (ℕ → ℕ) → CachePolicy → CachedResponse → Option (Text × ℤ)
  cache_entry codec whole policy r =
      let control = to_lower std.unicode (Header.get r.header (codes "Cache-Control")) in
      if not (r.status == 200)
        || not (leb_ℤ (pos (length r.body)) policy.max_body_bytes)
        || not (is_empty (Header.get r.header (codes "Set-Cookie")))
      then none
      else if contains control (codes "no-store") || contains control (codes "private")
      then none
      else elim (codec.encode r) [
        | none ↦ none
        | some bytes ↦ some (bytes, time_to_live whole policy control)
      ]

  -- storeCached; `answered` says that SET did not fail
  unfoldable pub store_cached :
      ResponseCodec → (ℕ → ℕ) → CachePolicy → Bool → Text → CachedResponse → Store → Store
  store_cached codec whole policy answered key r s = elim (cache_entry codec whole policy r) [
    | none ↦ s
    | some (bytes, ttl) ↦ if answered then put key bytes s else s
  ]
