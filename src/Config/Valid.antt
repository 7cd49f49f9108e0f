-- ===== src/Config/Valid.antt =====
-- The properties of the configurations that GatewayConfig.Validate of cmd/gateway/config.go accepts.
use vial_gateway.Prelude.{
  ◌≡◌, refl, Bool, List, [], ◌∷◌, ◌++◌, map, some, Result, ok, err, arith, All, each-All,
  Option-cases, inl, inr, ap, ℕ,
}
use vial_gateway.Text.{Text, codes}
use vial_gateway.Text.Equality.{text_eq_iff}
use vial_gateway.Url.{Url}
use vial_gateway.Hex.{hash_bytes}
use vial_gateway.Std.{Std}
use vial_gateway.Config.Types.{RouteConfig, GatewayConfig, AuthPolicy, StaticApiKey}
use vial_gateway.Config.Validate.{
  checked, parse_http_url, check_key, validate_auth_policy, ConfigError,
}
use vial_gateway.Config.Routes.{check_shape, validate_gateway}
use vial_gateway.Config.Claims.{Distinct, all_keys}
use vial_gateway.Config.Accepted.{validate_gateway-Passed}
use vial_gateway.Config.Sound.{
  IsPlainHttp, parse_http_url-IsPlainHttp, RefersWell, check_policies-RefersWell,
}

All-map {ℓ κ μ} :
    {A : Type ℓ} (P : A → Type κ) (Q : A → Type μ) (f : (a : A) → P a → Q a) (xs : List A)
    → All P xs
    → All Q xs
All-map P Q f [] h = tt
All-map P Q f (x ∷ xs) (p, h) = (f x p, All-map P Q f xs h)

-- The text as a URL that parseHTTPURL accepts.
abbrev pub ParsesAs : Std → Text → Text → Type 0
ParsesAs std name raw = (u : Url) × (parse_http_url std name raw ≡ ok u) × IsPlainHttp u

checked-ParsesAs :
    (std : Std) (name raw : Text)
    → checked (parse_http_url std name raw) ≡ ok tt
    → ParsesAs std name raw
checked-ParsesAs std name raw h = go (parse_http_url std name raw) refl
  where
    go : (m : Result ConfigError Url) → parse_http_url std name raw ≡ m → ParsesAs std name raw
    go (ok u) e = (u, e, parse_http_url-IsPlainHttp std name raw u e)
    go (err x) e = cc (ap checked e, h)

check_shape-upstreams :
    (std : Std) (r : RouteConfig)
    → check_shape std r ≡ ok tt
    → All (ParsesAs std (r.name ++ codes " upstream")) r.upstreams
unfolding check_shape
check_shape-upstreams std r h =
    All-map _ _ (λ raw. checked-ParsesAs std (r.name ++ codes " upstream") raw) r.upstreams
      (each-All _ _ (ground arith))

-- What the keys of a policy of type api_key are.
abbrev pub HasHashes : AuthPolicy → Type 0
HasHashes policy =
    policy.type ≡ codes "api_key"
    → All (λ k. (bytes : List ℕ) × (hash_bytes k.sha256 ≡ some bytes)) policy.keys

check_key-hash :
    (name : Text) (k : StaticApiKey)
    → check_key name k ≡ ok tt
    → (bytes : List ℕ) × (hash_bytes k.sha256 ≡ some bytes)
unfolding check_key
check_key-hash name k h = elim (Option-cases (hash_bytes k.sha256)) [
  | inl missing ↦ ground arith
  | inr found ↦ found
]

validate_auth_policy-HasHashes :
    (std : Std) (name : Text) (policy : AuthPolicy)
    → validate_auth_policy std name policy ≡ ok tt
    → HasHashes policy
unfolding validate_auth_policy
validate_auth_policy-HasHashes std name policy h is_key =
    All-map _ _ (check_key-hash name) policy.keys (
      each-All _ _ (
        ground (
          arith,
          text_eq_iff policy.type (codes "none"),
          text_eq_iff policy.type (codes "api_key"),
        )))

module _ (std : Std) (environment : Text) (allow : Bool) (g : GatewayConfig)
    (accepted : validate_gateway std environment allow g ≡ ok tt) where
  -- The routes of an accepted configuration have distinct names, and no two of them, or of their
  -- methods and hosts, share a key of method, host and path prefix.
  pub validate_gateway-Distinct :
      Distinct (map (λ r. r.name) g.routes) × Distinct (all_keys std g.routes)
  validate_gateway-Distinct =
      let p = validate_gateway-Passed std g environment allow accepted in
      (p.routes.names, p.routes.keys.distinct)

  -- Every policy that a route of an accepted configuration names is defined; a cached route does not
  -- stream, and caches by principal if it authenticates; a streaming route has neither retries nor
  -- JSON transforms; and no route has more than 128 transform operations.
  pub validate_gateway-RefersWell : All (RefersWell g) g.routes
  validate_gateway-RefersWell =
      All-map _ _ (check_policies-RefersWell g) g.routes
        (validate_gateway-Passed std g environment allow accepted).routes.policies

  -- Every upstream of every route of an accepted configuration parses, as an absolute HTTP or HTTPS
  -- URL without credentials, query or fragment: the compilation may drop the parser's error.
  pub validate_gateway-upstreams :
      All (λ r. All (ParsesAs std (r.name ++ codes " upstream")) r.upstreams) g.routes
  validate_gateway-upstreams =
      All-map _ _ (check_shape-upstreams std) g.routes
        (validate_gateway-Passed std g environment allow accepted).routes.shapes

  -- Every key of every API-key policy of an accepted configuration decodes to 32 bytes: the
  -- compilation may drop the decoder's error.
  validate_gateway-HasHashes : All (λ e. HasHashes e.1) g.auth_policies
  validate_gateway-HasHashes =
      All-map _ _ (λ e. validate_auth_policy-HasHashes std e.0 e.1) g.auth_policies
        (validate_gateway-Passed std g environment allow accepted).auths
