-- ===== src/Cache/Entries.antt =====
-- What is written to the cache, and what comes back from it.
use vial_gateway.Prelude.{
  ℕ, ◌≡◌, refl, ◌≢◌, Bool, true, false, ◌||◌, [], some, arith, length, ◌==◌, ==_iff, Bool-cases,
  Option-cases, inl, inr,
}
use vial_gateway.Prelude.Int.{ℤ, pos, not_pos, leb_ℤ, wrap_i64}
use vial_gateway.Text.{Text, codes, text_eq, to_lower, contains, split_on, trim_space, cut}
use vial_gateway.Number.{parse_nat, parse_int}
use vial_gateway.Text.Equality.{is_empty-nil}
use vial_gateway.Std.{Std}
use vial_gateway.Header.{Header, copy_header}
use vial_gateway.Header
use vial_gateway.Config.Types.{CachePolicy}
use vial_gateway.Store.Writes.{write-other}
use vial_gateway.Store.{Store, put}
use vial_gateway.Cache.{
  CachedResponse, ResponseCodec, cache_entry, store_cached, cache_max_age, max_age_of, atoi_not_neg,
}

-- A response that may be cached: with status 200, of at most the policy's size, without cookies.
pub record IsCacheable (policy : CachePolicy) (r : CachedResponse) : Type 0 where
  pub status : r.status ≡ 200
  pub size : leb_ℤ (pos (length r.body)) policy.max_body_bytes ≡ true
  pub cookies : Header.get r.header (codes "Set-Cookie") ≡ []

module _ (std : Std) (codec : ResponseCodec) (whole : ℕ → ℕ) where
  -- What is written is a cacheable response, for a positive time of at most the policy's.
  pub cache_entry_bounds :
      (policy : CachePolicy) (r : CachedResponse) (bytes : Text) (ttl : ℤ)
      → cache_entry std codec whole policy r ≡ some (bytes, ttl)
      → not_pos policy.ttl ≡ false
      → IsCacheable policy r
        × (codec.encode r ≡ some bytes)
        × (not_pos ttl ≡ false)
        × (leb_ℤ ttl policy.ttl ≡ true)
  unfolding cache_entry
  cache_entry_bounds policy r bytes ttl h positive = (
    record {
      status = ground (arith);
      size = ground arith;
      cookies = is_empty-nil _ (ground arith);
    },
    ground arith,
    ground arith,
    ground arith,
  )

  -- What is cached under one key leaves the entries of the others.
  pub store_cached-other :
      (policy : CachePolicy) (answered : Bool) (key other : Text) (r : CachedResponse) (s : Store)
      → key ≢ other
      → (store_cached std codec whole policy answered key r s).strings other ≡ s.strings other
  unfolding store_cached put
  store_cached-other policy answered key other r s apart =
      elim (Option-cases (cache_entry std codec whole policy r)) [
        | inl nothing_written ↦ rw (nothing_written, store_cached) refl
        | inr ((bytes, ttl), entry) ↦ elim (Bool-cases answered) [
          | inr lost ↦ rw (entry, store_cached) (rw lost refl)
          | inl set ↦
              rw (entry, store_cached) (rw set (write-other key other (some bytes) s.strings apart))
        ]
      ]

  zero_age : whole 0 ≡ 0 → cache_max_age std whole (codes "max-age=0") ≡ pos 0
  unfolding cache_max_age max_age_of split_on trim_space cut text_eq atoi_not_neg parse_nat
      parse_int wrap_i64
  zero_age h = rw h refl

  zero_lower : to_lower std.unicode (codes "max-age=0") ≡ codes "max-age=0"
  unfolding to_lower
  zero_lower = refl

  zero_allowed :
      (contains (codes "max-age=0") (codes "no-store")
        || contains (codes "max-age=0") (codes "private"))
      ≡ false
  unfolding contains
  zero_allowed = refl

  -- A cacheable response that says max-age=0 is kept for the policy's whole time to live.
  zero_age_is_kept :
      (policy : CachePolicy) (r : CachedResponse) (bytes : Text)
      → whole 0 ≡ 0
      → Header.get r.header (codes "Cache-Control") ≡ codes "max-age=0"
      → IsCacheable policy r
      → codec.encode r ≡ some bytes
      → cache_entry std codec whole policy r ≡ some (bytes, policy.ttl)
  unfolding cache_entry
  zero_age_is_kept policy r bytes exact says fits encodes =
      let found : (r.status == 200) ≡ true = (==_iff r.status 200).1 fits.status in
      rw (found, fits.size, fits.cookies, says, zero_lower, cache_entry)
        (rw (zero_allowed, encodes, cache_entry) (rw (says, zero_lower, zero_age exact) refl))
