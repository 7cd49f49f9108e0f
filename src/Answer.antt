-- ===== src/Answer.antt =====
-- What a client gets of an upstream's response: writeResponse and rewriteRedirectLocation of
-- cmd/gateway/app.go, and corsHandler.
pub mod Redirects
use vial_gateway.Prelude.{
  ℕ, Bool, true, false, not, ◌&&◌, ◌||◌, List, [], ◌∷◌, ◌++◌, Option, none, some, if◌then◌else◌,
  ◌==◌,
}
use vial_gateway.Prelude.Int.{ℤ, leb_ℤ}
use vial_gateway.Text.{Text, codes, text_eq, is_empty, elem, has_prefix, trim_prefix, trim_suffix}
use vial_gateway.Url.{Url, UrlLib}
use vial_gateway.Std.{Std}
use vial_gateway.Path.{slash, join_url_path}
use vial_gateway.Header.{Header, apply_header_transform, remove_hop_headers, copy_header}
use vial_gateway.Header
use vial_gateway.Config.Types.{RouteConfig, CachePolicy}
use vial_gateway.Config.Validate.{json_empty}
use vial_gateway.Route.{CompiledRoute}
use vial_gateway.Transform.{ObjectCodec, transform_json}
use vial_gateway.Forward.{Stream, Response, read_bounded}
use vial_gateway.Cache.{CachedResponse, is_head}

-- The path of a redirect, as a client sees it: below the route's rewrite it is put below the prefix.
unfoldable pub client_path : RouteConfig → Text → Text
client_path r path =
    let rewrite = trim_suffix r.path_rewrite slash in
    let below =
      not (is_empty rewrite)
      && not (text_eq rewrite slash)
      && (text_eq path rewrite || has_prefix path (rewrite ++ slash)) in
    join_url_path r.path_prefix (if below then trim_prefix path rewrite else path)

abbrev location : Text
location = codes "Location"

-- rewriteRedirectLocation, on the response's header
unfoldable pub rewrite_redirect_location : UrlLib → RouteConfig → Option Url → Header → Header
rewrite_redirect_location urls r none h = h
rewrite_redirect_location urls r (some asked) h = elim (urls.parse (Header.get h location)) [
  | none ↦ h
  | some to ↦
      let resolved = urls.resolve asked to in
      if is_empty (urls.to_string to) || not (urls.equal_fold resolved.host asked.host)
      then h
      else Header.set h location (
          urls.to_string (record resolved {
            scheme = [];
            host = [];
            has_user = false;
            path = client_path r resolved.path;
            raw_path = [];
          }))
]

-- A response as the gateway writes it; `written` is its header, and `cached` what may go to the cache.
pub data Answer : Type 0 where
  fault : ℕ → Text → Answer
  sent : ℕ → Header → Text → Answer

abbrev pub smaller_limit : Option CachePolicy → ℤ → ℤ
smaller_limit none limit = limit
smaller_limit (some policy) limit =
    if not (leb_ℤ limit policy.max_body_bytes) then policy.max_body_bytes else limit

module _ {B : Type 0} (std : Std) (codec : ObjectCodec) (route : CompiledRoute B) where
  -- The header up to the copy, but for Content-Length.
  unfoldable pub response_header : Response → Header
  response_header r =
      let bare =
        Header.del (Header.del (remove_hop_headers r.header) (codes "Server"))
          (codes "X-Powered-By") in
      let changed = apply_header_transform bare route.config.response_transform in
      if route.config.rewrite_redirects
      then rewrite_redirect_location std.urls route.config r.asked changed
      else changed

  -- The body where it is buffered; an error is the code of its fault.
  unfoldable pub buffered_body : Response → Option Text × Text
  buffered_body r =
      elim (read_bounded (smaller_limit route.cache route.config.max_body_bytes) r.body) [
        | none ↦ (none, codes "response_too_large")
        | some body ↦
            if json_empty route.config.response_transform.json || is_empty body
            then (some body, [])
            else (
              transform_json codec route.config.response_transform.json body,
              codes "invalid_upstream_json",
            )
      ]

  -- writeResponse, on a writer that holds the header `base`: the answer, and the response that is
  -- handed to storeCached. `keyed` says that the request has a cache key.
  unfoldable pub write_response : Bool → Header → Text → Response → Answer × Option CachedResponse
  write_response keyed base method r =
      let h = response_header r in
      let h' = Header.del h (codes "Content-Length") in
      let shown = λ (body : Text). if is_head method then [] else body in
      if not keyed && json_empty route.config.response_transform.json
      then (sent r.status (copy_header base h) (shown r.body.bytes), none)
      else elim (buffered_body r).0 [
        | none ↦ (fault 502 (buffered_body r).1, none)
        | some body ↦ (
          sent r.status (copy_header base h') (shown body),
          if keyed then some (record { status = r.status; header = h'; body = body }) else none,
        )
      ]

-- corsHandler: the header that the writer has, and whether the request is answered here, by 204.
unfoldable pub cors : List Text → Text → Text → Header → Header × Bool
cors origins origin method h =
    let h₁ = Header.set h (codes "Access-Control-Allow-Origin") origin in
    let h₂ = Header.add h₁ (codes "Vary") (codes "Origin") in
    let h₃ =
      Header.set h₂ (codes "Access-Control-Allow-Headers")
        (codes "Authorization, Content-Type, X-API-Key, X-Request-ID") in
    let h₄ =
      Header.set h₃ (codes "Access-Control-Allow-Methods")
        (codes "GET, HEAD, POST, PUT, PATCH, DELETE, OPTIONS") in
    if not (is_empty origin) && (elem origin origins || elem (codes "*") origins)
    then (h₄, text_eq method (codes "OPTIONS"))
    else (h, false)
