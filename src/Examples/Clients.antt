-- ===== src/Examples/Clients.antt =====
-- API keys created and revoked, requests admitted and forwarded.
use vial_gateway.Prelude.{
  any, ◌⊎◌, ℕ, ◌+◌, ◌≤◌, ◌≡◌, refl, true, false, [], ◌∷◌, none, some, ok, length, All, get_elem?,
  replicate,
}
use vial_gateway.Prelude.Int.{wrap_i64, pos, ◌+ℤ◌}
use vial_gateway.Text.{Text, codes, text_eq, trim_space}
use vial_gateway.Dict.{lookup}
use vial_gateway.Hex.{hex_encode, hash_bytes}
use vial_gateway.Config.Types.{RouteConfig}
use vial_gateway.Pool.{pick, scan, is_up}
use vial_gateway.Route.{CompiledAuth, CompiledRoute}
use vial_gateway.RateLimit.Request.{up, sha256_text}
use vial_gateway.Store.{Store}
use vial_gateway.Control.Activation.{is_json}
use vial_gateway.Auth.{key_principal, create_api_key, revoke_api_key}
use vial_gateway.Auth.Keys.{revoked_is_refused}
use vial_gateway.Forward.{
  Upstream, Response, replied, Incoming, Sending, forward, try_upstreams, attempts_of, prepare_body,
  execute, judge, is_idempotent,
}
use vial_gateway.Forward.Attempts.{forward-tries-le, retried, forward-AllUp}
use vial_gateway.Transform.{ObjectCodec}
use vial_gateway.Serve.{Gate}
use vial_gateway.Examples.Setup.{std, route, keys_policy, calls, fresh_store, store, pool, endpoint}

abbrev auth : CompiledAuth
auth = record { policy = keys_policy; keys = [] }

abbrev digest_text : Text
digest_text = hex_encode (replicate 32 7)

abbrev with_key : Store
with_key = record store { hashes = λ k. some ((codes "name", codes "ci") ∷ []) }

revokes : is_json (revoke_api_key calls (codes "root") digest_text with_key).1 ≡ true
unfolding revoke_api_key hash_bytes hex_encode
revokes = refl

revoked_is_refused_example :
    key_principal std auth up
      (revoke_api_key calls (codes "root") digest_text with_key).0
      (codes "vgk_1")
    ≡ none
unfolding sha256_text
revoked_is_refused_example =
    revoked_is_refused std calls (codes "root") digest_text (codes "vgk_1") auth with_key revokes
      refl (unfold lookup in refl)

creates :
    is_json
      (create_api_key std calls
        (codes "root")
        (some (codes "ci", codes "read" ∷ []))
        (some (codes "1"))
        fresh_store).1
    ≡ true
unfolding create_api_key trim_space
creates = refl

-- A network that answers every call with status 503, and counts them.
abbrev unwell : Response
unwell = record {
  status = 503;
  header = [];
  body = record { bytes = []; complete = true };
  asked = none;
}

abbrev pub network : Upstream ℕ
network = record {
  lets_through = λ w i. true;
  round_trip = λ w i out. (w + 1, replied unwell);
  settle = λ w i good. w;
}

-- Nothing is an object.
abbrev pub objects : ObjectCodec
objects = record { decode = λ t. none; encode = λ o. none }

abbrev get : Incoming
get = record {
  method = codes "GET";
  path = codes "/app/x";
  raw_path = [];
  query = [];
  header = [];
  peer = record { remote_addr = codes "1.2.3.4"; host = codes "h"; tls = true };
  body = none;
}

abbrev pub sending : Sending (Unit {0}) ℕ
sending = record { pool = pool 0 (endpoint true ∷ endpoint false ∷ []); world = 0; tried = [] }

abbrev pub retrying : RouteConfig
retrying = record route { retries = pos 2; path_rewrite = codes "/app" }

forwards : (forward network std objects retrying [] get sending).1 ≡ ok unwell
unfolding forward try_upstreams attempts_of prepare_body execute judge is_idempotent text_eq pick
    scan ◌+ℤ◌ wrap_i64
forwards = refl

forward-tries-le_example :
    (length (forward network std objects retrying [] get sending).0.tried
      ≤ 1 + length sending.tried)
    ⊎ ((any (λ m. text_eq get.method m) retried ≡ true)
        × (retrying.streaming ≡ false)
        × (length (forward network std objects retrying [] get sending).0.tried
            ≤ 1 + 2 + length sending.tried))
forward-tries-le_example = forward-tries-le network std objects retrying [] get sending 2 refl

forward-AllUp_example :
    All
      (λ t. is_up (get_elem? sending.pool.endpoints t.0) ≡ true)
      (forward network std objects retrying [] get sending).0.tried
forward-AllUp_example = forward-AllUp network std objects retrying [] get sending refl

abbrev pub open_route : CompiledRoute (Unit {0})
open_route = record {
  config = retrying;
  pool = sending.pool;
  auth = none;
  rate = none;
  cache = none;
  sem = some 1;
  trusted = [];
  max_header = pos 0;
}

abbrev pub gate : Gate
gate = record { limits = record { buckets = λ k. none; fail_open = 0 }; taken = 0 }
