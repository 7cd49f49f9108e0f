-- ===== src/Examples/Sessions.antt =====
-- Logins, the guard of the control plane, JWTs and the Dynamic DNS worker.
use vial_gateway.Prelude.{
  ℕ, ◌≡◌, refl, true, ◌==◌, [], ◌∷◌, ◌++◌, List, Option, none, some, ok, ◌⊎◌, ◌↔◌, if◌then◌else◌,
}
use vial_gateway.Prelude.Int.{pos}
use vial_gateway.Text.{Text, codes, text_eq, fields, ascii_fields, replace_byte}
use vial_gateway.Scopes.{scope_set, split_space, audience_matches}
use vial_gateway.Config.Types.{AdminConfig, AuthPolicy, DynamicDnsConfig}
use vial_gateway.Store.{Store, write}
use vial_gateway.Auth.{AdminSession, session_prefix}
use vial_gateway.Auth.Jwt.{
  JwtClaims, Jwx, verify_jwt, refresh, token_principal, token_scopes, Verified, verify_jwt-Verified,
}
use vial_gateway.Session.{SessionCodec, Token, Claims, Oidc, Page, Visit, passed, protect, callback}
use vial_gateway.Session.Guard.{Checked, protect-Checked}
use vial_gateway.Session.Callback.{Ends, callback_cases}
use vial_gateway.DynamicDns.{Replies, is_public, is_success, replace_ip, sync, sync_cases}
use vial_gateway.Examples.Setup.{std, store, calls}

abbrev pub admin : AdminConfig
admin = record {
  enabled = true;
  external_url = codes "http://app";
  bootstrap_key_sha = [];
  oidc_issuer = codes "https://idp";
  oidc_client_id = codes "vial";
  oidc_client_secret = [];
  oidc_scopes = codes "gateway.admin" ∷ [];
  prometheus_url = [];
  session_ttl = pos 3600;
}

abbrev pub waiting : AdminSession
waiting = record { subject = []; scopes = []; csrf = []; state = codes "st"; verifier = codes "v" }

abbrev ann : AdminSession
ann = record {
  subject = codes "ann";
  scopes = codes "gateway.admin" ∷ [];
  csrf = codes "t";
  state = [];
  verifier = [];
}

-- The text "p" is the pending login, and every other the session of ann.
abbrev pub sessions : SessionCodec
sessions = record {
  encode = λ s. codes "s";
  decode = λ t. if text_eq t (codes "p") then some waiting else some ann;
}

abbrev token : Token
token = record { id_token = some (codes "id"); scope = none }

abbrev ann_claims : Claims
ann_claims = record { subject = codes "ann"; scope = codes "gateway.admin" }

abbrev pub oidc : Oidc
oidc = record {
  reachable = true;
  auth_code_url = λ s v. s;
  exchange = λ c v. some token;
  verify = λ raw. some raw;
  claims = λ raw. some ann_claims;
}

abbrev pub returning : Visit
returning = record {
  method = codes "GET";
  path = codes "/admin/callback";
  host = codes "app";
  header = [];
  cookie = some (codes "k");
  form_csrf = [];
  state = codes "st";
  code = codes "c";
}

abbrev pub login_store : Store
login_store = record store {
  strings = write (session_prefix ++ codes "k") (some (codes "p")) store.strings;
}

abbrev after_callback : Store × Page
after_callback =
    callback std sessions admin oidc calls returning (some (codes "t")) (some (codes "new"))
      login_store

callback_cases_example : Ends std sessions admin oidc returning login_store after_callback
callback_cases_example =
    callback_cases std sessions admin oidc calls returning (some (codes "t")) (some (codes "new"))
      login_store

-- A session is stored as 0 and its CSRF token; every other text is the pending login.
abbrev keeping : SessionCodec
keeping = record {
  encode = λ s. 0 ∷ s.csrf;
  decode = λ t. elim t [
    | [] ↦ none
    | c ∷ rest ↦ if c == 0 then some (record ann { csrf = rest }) else some waiting
  ];
}

abbrev none_text : Option Text → Text
none_text none = []
none_text (some t) = t

abbrev after_keeping : Store × Page
after_keeping =
    callback std keeping admin oidc calls returning (some (codes "t")) (some (codes "new"))
      login_store

protect-Checked_example :
    (protect std sessions admin calls login_store returning
      ≡ passed (record { subject = codes "ann"; csrf = codes "t"; session = true }))
    ↔ Checked std sessions admin calls login_store returning
        (record { subject = codes "ann"; csrf = codes "t"; session = true })
protect-Checked_example =
    protect-Checked std sessions admin calls login_store returning
      (record { subject = codes "ann"; csrf = codes "t"; session = true })

abbrev claims : JwtClaims
claims = record {
  audience = some (codes "api" ∷ []);
  subject = some (codes "ann");
  scope = none;
  scp = some (codes "read" ∷ []);
}

-- Every text is a token of the issuer.
abbrev jwx : Jwx ℕ Text
jwx = record {
  parse = λ k now raw. some raw;
  issued_by = λ issuer now t. true;
  claims = λ t. claims;
}

abbrev policy : AuthPolicy
policy = record {
  type = codes "jwt";
  keys = [];
  issuer = codes "i";
  jwks_url = codes "u";
  audiences = codes "api" ∷ [];
}

verify_jwt-Verified_example :
    Verified std jwx policy 5
      (codes "raw")
      (verify_jwt std jwx policy 5 (some 1) (codes "raw") none).0
      (record { id = codes "ann"; scopes = scope_set (codes "read" ∷ []) })
unfolding verify_jwt refresh token_principal token_scopes text_eq split_space fields replace_byte
    ascii_fields audience_matches
verify_jwt-Verified_example =
    verify_jwt-Verified std jwx policy 5 (some 1) (codes "raw") none
      (record { id = codes "ann"; scopes = scope_set (codes "read" ∷ []) }) refl

abbrev replies : Replies
replies = record {
  check = λ url. some (200, record { bytes = codes "1.2.3.4"; complete = true });
  update = λ url. some 204;
  escape = λ t. t;
}

abbrev dns : DynamicDnsConfig
dns = record {
  enabled = true;
  check_url = codes "https://ip";
  update_url = codes "https://dns/{ip}";
  interval = pos 0;
  timeout = pos 0;
}

sync_cases_example :
    let r = sync std replies dns [] in
    (r.0 ≡ [])
    ⊎ ((address : List ℕ) × (status : ℕ) × (is_public std address ≡ true)
        × (r.0 ≡ std.nets.ip_string address)
        × (r.1 ≡ some (replace_ip (replies.escape r.0) 0 dns.update_url))
        × (replies.update (replace_ip (replies.escape r.0) 0 dns.update_url) ≡ some status)
        × (is_success status ≡ true)
        × (r.2 ≡ ok true))
sync_cases_example = sync_cases std replies dns []
