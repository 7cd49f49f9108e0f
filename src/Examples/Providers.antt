-- ===== src/Examples/Providers.antt =====
-- A login at the demo provider.
use vial_gateway.Prelude.{◌≡◌, refl, true, false, [], ◌∷◌, ◌++◌, some, ◌⊎◌, arith}
use vial_gateway.Text.{Text, codes, text_eq, fields, ascii_fields, is_space, replace_byte}
use vial_gateway.Dict.{lookup, insert, remove, or_empty}
use vial_gateway.Scopes.{scope_set, add_scopes, split_space}
use vial_gateway.Store.{Store, put}
use vial_gateway.Auth.{session_prefix}
use vial_gateway.Session.{
  SessionCodec, redirect, login, login_elsewhere, cookie_of, session_ttl, ten_minutes, callback,
}
use vial_gateway.Provider.{
  Provider, FormRequest, Signer, tokens, authorize, is_invalid, wrong_password, contains_scope,
  token, redeem, sign, code_of, redirected,
}
use vial_gateway.Provider.Codes.{is_tokens, without_code, Redeemed, token_cases}
use vial_gateway.Provider.Traffic.{is_found, authorize_cases, discover, show_keys, serve_all}
use vial_gateway.Provider.Redeem.{code_once, code_redeemed, Presents}
use vial_gateway.Provider.Login.{Wire, oidc_at, demo_claims, login_completes}
use vial_gateway.Examples.Setup.{std, store, calls}
use vial_gateway.Examples.Sessions.{admin, oidc, waiting, returning}

abbrev signer : Signer
signer = record {
  encode64 = λ t. t;
  header = codes "h";
  encode_claims = λ c. c.scope;
  sign_digest = λ d. some (codes "g");
  set_query = λ k v u. u;
}

abbrev provider : Provider
provider = record {
  issuer = codes "https://idp";
  client_id = codes "vial";
  client_secret = codes "secret";
  redirect_uri = codes "http://app/admin/callback";
  username = codes "ann";
  password = codes "pw";
  granted = [];
}

abbrev form : Text → Text
form key = or_empty (
    lookup key (
      (codes "client_id", codes "vial")
      ∷ (codes "redirect_uri", codes "http://app/admin/callback")
      ∷ (codes "response_type", codes "code")
      ∷ (codes "scope", codes "openid gateway.admin")
      ∷ (codes "state", codes "st")
      ∷ (codes "code_challenge", std.sha256 (codes "v"))
      ∷ (codes "code_challenge_method", codes "S256")
      ∷ (codes "username", codes "ann")
      ∷ (codes "password", codes "pw")
      ∷ (codes "grant_type", codes "authorization_code")
      ∷ (codes "code", codes "c")
      ∷ (codes "code_verifier", codes "v")
      ∷ []))

abbrev request : FormRequest
request = record {
  method = codes "POST";
  parses = true;
  form = form;
  basic = some (codes "vial", codes "secret");
}

abbrev granting : Provider
granting = (authorize std signer 0 (some (codes "c")) request provider).0

authorize_cases_example :
    let r = authorize std signer 0 (some (codes "c")) request provider in
    ((is_found r.1 ≡ false) × (r.0 ≡ provider))
    ⊎ ((code : Text) × (some (codes "c") ≡ some code)
        × (is_invalid std signer provider request ≡ false)
        × (wrong_password std signer provider request ≡ false)
        × (r.1 ≡ redirected std signer request code)
        × (r.0 ≡ record provider { granted = insert code (code_of std signer 0 request) [] }))
authorize_cases_example = authorize_cases std signer 0 (some (codes "c")) request provider

token_cases_example :
    let r = token std signer 5 (some (codes "a")) request granting in
    ((is_tokens r.1 ≡ false) × ((r.0 ≡ granting) ⊎ (r.0 ≡ without_code request granting)))
    ⊎ ((r.0 ≡ without_code request granting) × Redeemed std signer 5 request granting r.1)
token_cases_example = token_cases std signer 5 (some (codes "a")) request granting

code_once_example :
    is_tokens
      (token std signer 6 (some (codes "b")) request (
        serve_all std signer
          (discover ∷ show_keys ∷ [])
          (token std signer 5 (some (codes "a")) request granting).0)).1
    ≡ false
unfolding authorize is_invalid contains_scope fields ascii_fields is_space text_eq lookup insert
    remove token redeem sign
code_once_example =
    code_once std signer 5 6 (some (codes "a")) (some (codes "b")) request request
      (discover ∷ show_keys ∷ []) granting refl (refl, (refl, tt)) refl

abbrev id_token : Text
id_token = codes "h.openid gateway.admin.g"

presented :
    Presents std signer provider (codes "c") (codes "http://app/admin/callback") (codes "v") request
unfolding lookup text_eq
presented = record {
  parses = refl;
  client = refl;
  secret = refl;
  grant = refl;
  coded = refl;
  sent_to = refl;
  verified_by = refl;
}

code_redeemed_example :
    (token std signer 5
      (some (codes "a"))
      request
      (serve_all std signer (discover ∷ show_keys ∷ []) granting)).1
    ≡ tokens (codes "a") (form (codes "scope")) id_token
unfolding authorize is_invalid contains_scope fields ascii_fields is_space text_eq lookup insert
    sign
code_redeemed_example =
    code_redeemed std signer 0 5 (codes "c") (codes "a") id_token (codes "app") (codes "v") request
      request (discover ∷ show_keys ∷ []) provider refl (refl, (refl, tt)) (refl, (refl, tt))
      (omega arith) refl presented refl

abbrev wire : Wire
wire = record {
  auth_code_url = λ c st v. st;
  post = λ c code v. request;
  verify = λ raw. some raw;
  claims = λ raw. some (demo_claims (codes "openid gateway.admin"));
}

-- Every text is the pending login.
abbrev pendings : SessionCodec
pendings = record { encode = λ s. codes "p"; decode = λ t. some waiting }

abbrev pending_store : Store
pending_store =
    (login std pendings admin oidc calls returning (some (codes "st")) (codes "v")
      (some (codes "k")) store).0

login_completes_example :
    let r =
      callback std pendings admin
        (oidc_at std pendings admin signer wire 5
          (codes "a")
          (serve_all std signer (discover ∷ []) granting))
        calls
        returning
        (some (codes "t"))
        (some (codes "new"))
        pending_store in
    (r.0.strings (session_prefix ++ codes "new") ≡ some (codes "p"))
    × (r.1
        ≡ redirect
            (codes "/admin")
            (some (cookie_of std pendings admin (codes "new") (session_ttl std pendings admin))))
unfolding authorize is_invalid contains_scope fields ascii_fields is_space text_eq lookup insert
    sign login login_elsewhere cookie_of put scope_set add_scopes split_space replace_byte
login_completes_example =
    login_completes std pendings admin signer wire oidc calls calls returning returning (codes "st")
      (codes "v") (codes "k") (codes "st") (codes "app") (codes "c") (codes "a") id_token id_token
      (codes "t") (codes "new")
      (cookie_of std pendings admin (codes "k") (ten_minutes std pendings admin)) 0 5 request
      (discover ∷ []) provider store pending_store refl refl refl refl refl (refl, tt) (refl, tt)
      (omega arith) presented refl refl refl refl refl refl refl refl refl
