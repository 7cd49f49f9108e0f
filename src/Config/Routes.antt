-- ===== src/Config/Routes.antt =====
-- The loop of GatewayConfig.Validate over the routes: cmd/gateway/config.go.
use vial_gateway.Prelude.{
  ◌+◌, Bool, not, ◌&&◌, ◌||◌, List, [], ◌∷◌, ◌++◌, Option, none, some, ltb, if◌then◌else◌,
  or_default, Result, ok, err, ◌>>=◌, ◌>>◌, refuse_if, each,
}
use vial_gateway.Prelude.Int.{pos, is_neg, not_pos, eq_ℤ}
use vial_gateway.Text.{
  Text, text_eq, is_empty, elem, has_prefix, trim_suffix, to_lower, to_upper, codes,
}
use vial_gateway.Path.{slash}
use vial_gateway.Dict.{lookup, insert, or_empty}
use vial_gateway.Std.{Std}
use vial_gateway.Config.Types.{RouteConfig, CachePolicy, GatewayConfig}
use vial_gateway.Config.Validate.{
  ConfigError, unsupported_schema_version, version_not_positive, no_routes,
  negative_max_header_bytes, bad_route_name, bad_path_prefix, bad_path_rewrite, no_upstream,
  negative_limit, unknown_auth_policy, unknown_rate_policy, unknown_cache_policy,
  cache_not_per_principal, streaming_and_caching, streaming_with_retries_or_transforms,
  too_many_transforms, proxies_connect, route_conflict, Check, star, connect, parse_http_url,
  checked, is_none, is_nil, json_empty, operations, validate_auth_policy, validate_dynamic_dns,
  check_cors, check_proxy, check_rate_policy, check_cache_policy,
}

-- seenNames and seenRoutes
pub record Seen : Type 0 where
  pub names : List Text
  pub routes : List (Text × Text)

abbrev pub nothing_seen : Seen
nothing_seen = record { names = []; routes = [] }

-- method + "\x00" + strings.ToLower(host) + "\x00" + strings.TrimSuffix(route.PathPrefix, "/")
unfoldable pub route_key : Std → Text → Text → Text → Text
route_key std method host path_prefix =
    method ++ (0 ∷ (to_lower std.unicode host ++ (0 ∷ trim_suffix path_prefix slash)))

-- The checks on the cache policy that a route names.
unfoldable pub check_cache : RouteConfig → Option CachePolicy → Check
check_cache r none = err (unknown_cache_policy r.name r.cache_policy)
check_cache r (some cache) = do
  refuse_if (not (is_empty r.auth_policy) && not cache.per_principal)
      (cache_not_per_principal r.name)
  refuse_if r.streaming (streaming_and_caching r.name)

-- The shape of the path, the upstreams and the limits.
unfoldable pub check_shape : Std → RouteConfig → Check
check_shape std r = do
  refuse_if (not (has_prefix r.path_prefix slash)) (bad_path_prefix r.name)
  refuse_if (not (is_empty r.path_rewrite) && not (has_prefix r.path_rewrite slash))
      (bad_path_rewrite r.name)
  refuse_if (is_nil r.upstreams) (no_upstream r.name)
  each (λ raw. checked (parse_http_url std (r.name ++ codes " upstream") raw)) r.upstreams
  refuse_if
      (is_neg r.timeout || is_neg r.max_body_bytes || is_neg r.concurrency || is_neg r.retries)
      (negative_limit r.name)

-- The policies that the route names, and what streaming excludes.
unfoldable pub check_policies : GatewayConfig → RouteConfig → Check
check_policies g r = do
  refuse_if (not (is_empty r.auth_policy) && is_none (lookup r.auth_policy g.auth_policies))
      (unknown_auth_policy r.name r.auth_policy)
  refuse_if (not (is_empty r.rate_policy) && is_none (lookup r.rate_policy g.rate_policies))
      (unknown_rate_policy r.name r.rate_policy)
  if is_empty r.cache_policy then ok tt else check_cache r (lookup r.cache_policy g.cache_policies)
  refuse_if
      (r.streaming
        && (not (not_pos r.retries)
            || not (json_empty r.request_transform.json)
            || not (json_empty r.response_transform.json)))
      (streaming_with_retries_or_transforms r.name)
  refuse_if (ltb 128 (operations r.request_transform + operations r.response_transform))
      (too_many_transforms r.name)

module _ (std : Std) where
  -- The loop over the hosts, for one method in upper case.
  unfoldable pub claim_hosts :
      RouteConfig → Text → List Text → List (Text × Text) → Result ConfigError (List (Text × Text))
  claim_hosts r method [] seen = ok seen
  claim_hosts r method (host ∷ hosts) seen =
      let key = route_key std method host r.path_prefix in
      let previous = or_empty (lookup key seen) in
      do
        refuse_if (not (is_empty previous)) (route_conflict previous r.name)
        claim_hosts r method hosts (insert key r.name seen)

  unfoldable pub claim_methods :
      RouteConfig → List Text → List (Text × Text) → Result ConfigError (List (Text × Text))
  claim_methods r [] seen = ok seen
  claim_methods r (method ∷ methods) seen =
      let upper = to_upper std.unicode method in
      do
        refuse_if (not (text_eq upper star) && text_eq upper connect) (proxies_connect r.name)
        seen' ← claim_hosts r upper (or_default r.hosts (star ∷ [])) seen
        claim_methods r methods seen'

  -- One round of the loop.
  unfoldable pub check_route : GatewayConfig → RouteConfig → Seen → Result ConfigError Seen
  check_route g r seen = do
    refuse_if (is_empty r.name || elem r.name seen.names) (bad_route_name r.name)
    check_shape std r
    check_policies g r
    routes ← claim_methods r (or_default r.methods (star ∷ [])) seen.routes
    ok (record { names = r.name ∷ seen.names; routes = routes })

  unfoldable pub check_routes : GatewayConfig → List RouteConfig → Seen → Result ConfigError Seen
  check_routes g [] seen = ok seen
  check_routes g (r ∷ rs) seen = do seen' ← check_route g r seen; check_routes g rs seen'

  -- GatewayConfig.Validate
  unfoldable pub validate_gateway : Text → Bool → GatewayConfig → Check
  validate_gateway environment allow_no_routes g = do
    refuse_if (not (eq_ℤ g.schema_version (pos 1))) unsupported_schema_version
    refuse_if (not_pos g.version) version_not_positive
    refuse_if (is_nil g.routes && not allow_no_routes) no_routes
    refuse_if (is_neg g.max_header_bytes) negative_max_header_bytes
    each (check_cors environment) g.cors_allowed_origins
    each (check_proxy std) g.trusted_proxies
    validate_dynamic_dns std environment g.dynamic_dns
    each (λ (name, policy). validate_auth_policy std name policy) g.auth_policies
    each check_rate_policy g.rate_policies
    each check_cache_policy g.cache_policies
    checked (check_routes g g.routes nothing_seen)
