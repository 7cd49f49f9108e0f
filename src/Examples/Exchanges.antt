-- ===== src/Examples/Exchanges.antt =====
-- Whole requests: guarded, served from the cache or an upstream, transformed and answered.
use vial_gateway.Prelude.{
  ℕ, ◌<◌, ◌≡◌, refl, true, false, [], ◌∷◌, ◌++◌, none, some, ◌⊎◌, arith, replicate, All,
  if◌then◌else◌, Bool, Bool-cases, inl, inr, zero, suc, ◌==◌,
}
use vial_gateway.Prelude.Int.{pos, wrap_i64}
use vial_gateway.Text.{
  Text, codes, text_eq, elem, trim_suffix, to_lower, contains, join, has_prefix, has_suffix,
  split_on, trim_space, cut,
}
use vial_gateway.Number.{parse_int, parse_nat}
use vial_gateway.Dict.{lookup}
use vial_gateway.Std.{Std}
use vial_gateway.Path.{slash, join_url_path, rewrite_path}
use vial_gateway.Config.Types.{CachePolicy, JsonTransform, null, boolean}
use vial_gateway.Scopes.{has_scopes}
use vial_gateway.Header.{header_bytes, copy_header, canonical_key}
use vial_gateway.Header
use vial_gateway.Route.{Principal, CompiledRoute}
use vial_gateway.Auth.{authenticate}
use vial_gateway.RateLimit.Request.{up, allow_request}
use vial_gateway.Transform.{transform_object}
use vial_gateway.Transform.Laws.{lookup-transform_object, last_of}
use vial_gateway.Cache.{
  CachedResponse, ResponseCodec, vary_parts, cache_max_age, max_age_of, atoi_not_neg, key_parts,
  key_text, key_of, cache_entry,
}
use vial_gateway.Cache.Keys.{key_of-Alike, Alike, IsPlain}
use vial_gateway.Answer.{Answer, fault, client_path}
use vial_gateway.Answer.Redirects.{client_path-upstream_path}
use vial_gateway.Serve.{admit, admitted}
use vial_gateway.Serve.Exchange.{Request, Deps, Site, answer, asked_of, serve_http}
use vial_gateway.Serve.Isolation.{serve_http_cases, guards, ChargedTo}
use vial_gateway.Serve.Principals.{serve_http_isolates}
use vial_gateway.Serve.Answers.{serve_http-answers}
use vial_gateway.Examples.Setup.{std, store}
use vial_gateway.Examples.Requests.{sevens}
use vial_gateway.Examples.Clients.{network, objects, sending, retrying, open_route, gate}

abbrev per_user : CachePolicy
per_user = record {
  ttl = pos 60;
  max_body_bytes = pos 100;
  per_principal = true;
  vary_headers = [];
}

abbrev pub cached_route : CompiledRoute (Unit {0})
cached_route = record open_route { cache = some per_user }

-- Every stored text decodes to one page.
abbrev page : CachedResponse
page = record {
  status = 200;
  header = (codes "Cache-Control", codes "max-age=0" ∷ []) ∷ [];
  body = codes "hello";
}

abbrev pages : ResponseCodec
pages = record { encode = λ r. some (codes "page"); decode = λ t. some page }

abbrev pub request : Request
request = record {
  method = codes "GET";
  path = codes "/app/x";
  raw_path = [];
  query = [];
  uri = codes "/app/x";
  header = [];
  peer = record { remote_addr = codes "1.2.3.4"; host = codes "h"; tls = true };
  content_length = pos 0;
  body = none;
  ms = 0;
}

abbrev alice : Text
alice = codes "anonymous"

abbrev bob : Text
bob = codes "bob"

-- Digests that tell one text from the others.
abbrev telling : Std
telling = record std {
  sha256 = λ t.
      if text_eq t (key_text (codes "app") per_user (asked_of request) bob)
      then replicate 32 8
      else replicate 32 7;
}

abbrev pub deps : Deps ℕ
deps = record {
  std = telling;
  verify_jwt = λ t. none;
  upstream = network;
  objects = objects;
  responses = pages;
  whole = λ n. n;
}

abbrev pub site : Site (Unit {0}) ℕ
site = record { gate = gate; sending = sending; store = store }

serve_http_cases_example :
    let r = serve_http deps cached_route up true request site in
    (r.0.gate.taken ≡ site.gate.taken)
    × (r.0.gate.limits ≡ (guards deps cached_route up request site).0.limits)
    × (((status : ℕ) × (code : Text) × (r.1 ≡ answer (fault status code))
          × (r.0.sending ≡ site.sending)
          × (r.0.store ≡ site.store)
          × ((r.0.gate.limits ≡ site.gate.limits)
              ⊎ ((p : Principal) × ChargedTo deps cached_route up request site p)))
        ⊎ ((p : Principal) × ((guards deps cached_route up request site).1 ≡ admitted p)
            × ChargedTo deps cached_route up request site p))
serve_http_cases_example = serve_http_cases deps cached_route up true request site

serve_http-answers_example :
    (a : Answer) × ((serve_http deps cached_route up true request site).1 ≡ answer a)
serve_http-answers_example =
    serve_http-answers deps cached_route up true request site 2 refl (omega arith)

eights : (n : ℕ) → All (λ b. b < 256) (replicate n 8)
eights zero = tt
eights (suc n) = (omega arith, eights n)

small : (t : Text) → All (λ b. b < 256) (telling.sha256 t)
small t = elim (Bool-cases (text_eq t (key_text (codes "app") per_user (asked_of request) bob))) [
  | inl same ↦ rw same (eights 32)
  | inr other ↦ rw other (sevens 32)
]

abbrev has_nul : Text → Bool
has_nul [] = false
has_nul (c ∷ s) = if c == 0 then true else has_nul s

text-IsPlain : (s : Text) → has_nul s ≡ false → IsPlain s
text-IsPlain [] h = tt
text-IsPlain (c ∷ s) h = (λ e. ground arith, text-IsPlain s (ground arith))

key_parts-IsPlain :
    (id : Text)
    → has_nul id ≡ false
    → All IsPlain (key_parts (codes "app") per_user (asked_of request) id)
unfolding vary_parts
key_parts-IsPlain id h = (
  text-IsPlain (codes "app") refl,
  (text-IsPlain (codes "GET") refl, (text-IsPlain (codes "/app/x") refl, (text-IsPlain id h, tt))),
)

serve_http_isolates_example :
    let key = key_of telling (codes "app") per_user (asked_of request) bob in
    (serve_http deps cached_route up true request site).0.store.strings key ≡ site.store.strings key
unfolding admit header_bytes authenticate has_scopes allow_request text_eq join vary_parts
serve_http_isolates_example =
    serve_http_isolates deps cached_route up true request site (record { id = alice; scopes = [] })
      per_user (asked_of request) bob small (λ same. cc) refl refl refl (λ e. cc)
      (key_parts-IsPlain alice refl) (key_parts-IsPlain bob refl)

key_of-Alike_example : Alike per_user (asked_of request) (asked_of request) bob bob
key_of-Alike_example =
    key_of-Alike telling small (codes "app") per_user (asked_of request) (asked_of request) bob bob
      (key_parts-IsPlain bob refl) (key_parts-IsPlain bob refl) (λ same. refl) refl

page_kept : cache_entry std pages (λ n. n) per_user page ≡ some (codes "page", pos 60)
unfolding cache_entry to_lower contains Header.get lookup canonical_key text_eq has_prefix
    cache_max_age max_age_of split_on trim_space cut atoi_not_neg parse_int parse_nat wrap_i64
page_kept = refl

abbrev change : JsonTransform
change = record {
  add = (codes "new", boolean true) ∷ [];
  remove = codes "old" ∷ [];
  rename = (codes "a", codes "b") ∷ [];
}

lookup-transform_object_example :
    lookup (codes "old") (transform_object change ((codes "old", null) ∷ []))
    ≡ last_of (codes "old") change.add (
        if elem (codes "old") change.remove
        then none
        else lookup (codes "old") ((codes "old", null) ∷ []))
unfolding text_eq
lookup-transform_object_example =
    lookup-transform_object change ((codes "old", null) ∷ []) (codes "old") refl

client_path-upstream_path_example :
    let asked = trim_suffix retrying.path_prefix slash ++ (slash ++ codes "users") in
    client_path retrying
      (join_url_path [] (rewrite_path asked retrying.path_prefix retrying.path_rewrite))
    ≡ asked
unfolding trim_suffix has_suffix has_prefix text_eq
client_path-upstream_path_example =
    client_path-upstream_path retrying (codes "users") (λ e. cc) refl refl
