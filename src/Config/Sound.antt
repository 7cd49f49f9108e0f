-- ===== src/Config/Sound.antt =====
-- What holds of every configuration that GatewayConfig.Validate of cmd/gateway/config.go accepts,
-- and so of every configuration that a router is compiled from.
use vial_gateway.Prelude.{
  ◌≡◌, refl, ◌≢◌, true, false, not, ◌&&◌, ◌||◌, [], Option, none, some, ok, Option-cases, ◌>>◌,
  refuse_if, arith, subst, if◌then◌else◌, ◌⊎◌, inl, inr, ◌≤◌, ◌+◌,
}
use vial_gateway.Prelude.Int.{not_pos}
use vial_gateway.Text.{Text, is_empty, trim_space}
use vial_gateway.Text.Equality.{text_eq_iff, is_empty-nil, is_empty-ne-nil, ne-nil-is_empty}
use vial_gateway.Url.{Url}
use vial_gateway.Dict.{lookup}
use vial_gateway.Std.{Std}
use vial_gateway.Config.Types.{RouteConfig, GatewayConfig, AuthPolicy, RatePolicy, CachePolicy}
use vial_gateway.Config.Validate.{
  http, https, parse_http_url, is_http, is_none, not_http_url, url_with_credentials, operations,
  json_empty,
}
use vial_gateway.Config.Routes.{check_cache, check_policies}

-- An absolute HTTP or HTTPS URL without credentials, query or fragment.
pub record IsPlainHttp (u : Url) : Type 0 where
  pub scheme : (u.scheme ≡ http) ⊎ (u.scheme ≡ https)
  pub host : u.host ≢ []
  pub no_user : u.has_user ≡ false
  pub no_query : u.raw_query ≡ []
  pub no_fragment : u.fragment ≡ []

parsed-IsPlainHttp :
    (name : Text) (u v : Url)
    → (refuse_if (not (is_http u) || is_empty u.host) (not_http_url name)
        >> (refuse_if
              (u.has_user || not (is_empty u.raw_query) || not (is_empty u.fragment))
              (url_with_credentials name)
            >> ok u))
      ≡ ok v
    → IsPlainHttp v
parsed-IsPlainHttp name u v h =
    let same : u ≡ v = ground arith in
    let absolute : is_http u ≡ true = ground arith in
    subst IsPlainHttp {x = u} same (record {
      scheme = ground (arith, text_eq_iff u.scheme http, text_eq_iff u.scheme https);
      host = is_empty-ne-nil u.host (ground arith);
      no_user = ground arith;
      no_query = is_empty-nil u.raw_query (ground arith);
      no_fragment = is_empty-nil u.fragment (ground arith);
    })

pub parse_http_url-IsPlainHttp :
    (std : Std) (name raw : Text) (u : Url) → parse_http_url std name raw ≡ ok u → IsPlainHttp u
unfolding parse_http_url
parse_http_url-IsPlainHttp std name raw u h =
    elim (Option-cases (std.urls.parse (trim_space std.unicode raw))) [
      | inl missing ↦ cc (rw (missing, parse_http_url) at h)
      | inr (parsed, found) ↦ parsed-IsPlainHttp name parsed u (rw (found, parse_http_url) at h)
    ]

-- The policies that a route names exist, and fit the route.
pub record RefersWell (g : GatewayConfig) (r : RouteConfig) : Type 0 where
  pub auth : r.auth_policy ≢ [] → (p : AuthPolicy) × (lookup r.auth_policy g.auth_policies ≡ some p)
  pub rate : r.rate_policy ≢ [] → (p : RatePolicy) × (lookup r.rate_policy g.rate_policies ≡ some p)
  pub cache :
      r.cache_policy ≢ []
      → (c : CachePolicy) × (lookup r.cache_policy g.cache_policies ≡ some c)
        × (r.auth_policy ≢ [] → c.per_principal ≡ true)
        × (r.streaming ≡ false)
  pub streaming :
      r.streaming ≡ true
      → (not_pos r.retries ≡ true)
        × (json_empty r.request_transform.json ≡ true)
        × (json_empty r.response_transform.json ≡ true)
  pub transforms : operations r.request_transform + operations r.response_transform ≤ 128

found_of {ℓ} :
    {A : Type ℓ} (t : Text) (o : Option A)
    → (not (is_empty t) && is_none o) ≡ false
    → t ≢ []
    → (a : A) × (o ≡ some a)
found_of t none h named = cc (h, ne-nil-is_empty t named)
found_of t (some a) h named = (a, refl)

cache_of :
    (r : RouteConfig) (o : Option CachePolicy)
    → (if is_empty r.cache_policy then ok tt else check_cache r o) ≡ ok tt
    → r.cache_policy ≢ []
    → (c : CachePolicy) × (o ≡ some c)
      × (r.auth_policy ≢ [] → c.per_principal ≡ true)
      × (r.streaming ≡ false)
unfolding check_cache
cache_of r none h named = cc (h, ne-nil-is_empty r.cache_policy named)
cache_of r (some c) h named =
    let checks = rw (ne-nil-is_empty r.cache_policy named) at h in
    (
      c,
      refl,
      (λ auth. ground (arith, checks, ne-nil-is_empty r.auth_policy auth)),
      ground (arith, checks),
    )

pub check_policies-RefersWell :
    (g : GatewayConfig) (r : RouteConfig) → check_policies g r ≡ ok tt → RefersWell g r
unfolding check_policies
check_policies-RefersWell g r h =
    let auth : (not (is_empty r.auth_policy) && is_none (lookup r.auth_policy g.auth_policies))
        ≡ false =
      ground arith in
    let rate : (not (is_empty r.rate_policy) && is_none (lookup r.rate_policy g.rate_policies))
        ≡ false =
      ground arith in
    let cache : (if is_empty r.cache_policy
          then ok tt
          else check_cache r (lookup r.cache_policy g.cache_policies))
        ≡ ok tt =
      ground arith in
    record {
      auth = found_of r.auth_policy _ auth;
      rate = found_of r.rate_policy _ rate;
      cache = cache_of r (lookup r.cache_policy g.cache_policies) cache;
      streaming = λ s. ground arith;
      transforms = ground arith;
    }
