-- ===== src/Cache/Keys.antt =====
-- Which requests share a key of the cache.
use vial_gateway.Prelude.{
  ◌≡◌, refl, ◌≢◌, Bool, true, false, List, [], ◌∷◌, ◌++◌, arith, All, length, ap, ◌<◌,
}
use vial_gateway.Text.{Text, join}
use vial_gateway.Std.{Std}
use vial_gateway.Hex.{hex_encode}
use vial_gateway.Hex.RoundTrip.{encode-injective}
use vial_gateway.Store.Keys.{append_cancel}
use vial_gateway.RateLimit.Request.{sha256_text}
use vial_gateway.Header.{Header}
use vial_gateway.Config.Types.{CachePolicy}
use vial_gateway.Cache.{
  Asked, vary_parts, principal_parts, key_parts, key_text, key_of, cache_prefix,
}

-- A text without the byte that separates the parts.
abbrev pub IsPlain : Text → Type 0
IsPlain t = All (λ c. c ≢ 0) t

plain_split :
    (s t u v : Text) → IsPlain s → IsPlain t → s ++ (0 ∷ u) ≡ t ++ (0 ∷ v) → (s ≡ t) × (u ≡ v)
plain_split [] [] u v p q e = (refl, cc)
plain_split [] (c ∷ t) u v p (q, qs) e = absurd (q (cc))
plain_split (c ∷ s) [] u v (p, ps) q e = absurd (p (cc))
plain_split (c ∷ s) (d ∷ t) u v (p, ps) (q, qs) e =
    let (same, rest) = plain_split s t u v ps qs (cc) in (cc, rest)

-- Lists of plain parts, equally many, are told apart by their joins.
join-injective :
    (xs ys : List Text)
    → length xs ≡ length ys
    → All IsPlain xs
    → All IsPlain ys
    → join (0 ∷ []) xs ≡ join (0 ∷ []) ys
    → xs ≡ ys
unfolding join
join-injective [] [] l p q e = refl
join-injective [] (b ∷ ys) l p q e = absurd (omega arith)
join-injective (a ∷ xs) [] l p q e = absurd (omega arith)
join-injective (a ∷ []) (b ∷ []) l p q e = ap (λ t. t ∷ []) e
join-injective (a ∷ []) (b ∷ b' ∷ ys) l p q e = absurd (omega arith)
join-injective (a ∷ a' ∷ xs) (b ∷ []) l p q e = absurd (omega arith)
join-injective (a ∷ a' ∷ xs) (b ∷ b' ∷ ys) l (p, ps) (q, qs) e =
    let (same, rest) = plain_split a b _ _ p q e in
    let more = join-injective (a' ∷ xs) (b' ∷ ys) (omega arith) ps qs rest in cc

length-vary_parts :
    (names : List Text) (h k : Header) → length (vary_parts names h) ≡ length (vary_parts names k)
unfolding vary_parts
length-vary_parts [] h k = refl
length-vary_parts (name ∷ names) h k = omega (arith, length-vary_parts names h k)

length-key_parts :
    (name : Text) (p : Bool) (names : List Text) (h k : Header) (id id' : Text)
    → length (principal_parts p id ++ vary_parts names h)
      ≡ length (principal_parts p id' ++ vary_parts names k)
length-key_parts name true names h k id id' = omega (arith, length-vary_parts names h k)
length-key_parts name false names h k id id' = length-vary_parts names h k

-- What two requests that share a key have in common.
pub record Alike (policy : CachePolicy) (a b : Asked) (id id' : Text) : Type 0 where
  pub method : a.method ≡ b.method
  pub uri : a.uri ≡ b.uri
  pub principal : policy.per_principal ≡ true → id ≡ id'
  pub varied : vary_parts policy.vary_headers a.header ≡ vary_parts policy.vary_headers b.header

tails-alike :
    (p : Bool) (names : List Text) (h k : Header) (id id' : Text)
    → principal_parts p id ++ vary_parts names h ≡ principal_parts p id' ++ vary_parts names k
    → (p ≡ true → id ≡ id') × (vary_parts names h ≡ vary_parts names k)
tails-alike true names h k id id' e = (λ q. cc, cc)
tails-alike false names h k id id' e = (λ q. cc, e)

module _ (std : Std) (small : (t : Text) → All (λ b. b < 256) (std.sha256 t)) where
  -- Two requests of one route share a key of the cache only if they have the method, the URI, the
  -- varied headers and, where the policy caches by principal, the principal in common: as long as
  -- their parts hold no NUL and their digests do not collide.
  pub key_of-Alike :
      (name : Text) (policy : CachePolicy) (a b : Asked) (id id' : Text)
      → All IsPlain (key_parts name policy a id)
      → All IsPlain (key_parts name policy b id')
      → (std.sha256 (key_text name policy a id) ≡ std.sha256 (key_text name policy b id')
          → key_text name policy a id ≡ key_text name policy b id')
      → key_of std name policy a id ≡ key_of std name policy b id'
      → Alike policy a b id id'
  unfolding key_of sha256_text
  key_of-Alike name policy a b id id' p q collides e =
      let digests : b':' ∷ hex_encode (std.sha256 (key_text name policy a id))
          ≡ b':' ∷ hex_encode (std.sha256 (key_text name policy b id')) =
        append_cancel name _ _ (append_cancel cache_prefix _ _ e) in
      let texts = collides (encode-injective _ _ (small _) (small _) (cc (digests))) in
      let parts =
        join-injective (key_parts name policy a id) (key_parts name policy b id')
          (omega (
            arith,
            length-key_parts name policy.per_principal policy.vary_headers a.header b.header id id',
          ))
          p q texts in
      let (principal, varied) =
        tails-alike policy.per_principal policy.vary_headers a.header b.header id id' (cc parts) in
      record { method = cc parts; uri = cc parts; principal = principal; varied = varied }
