-- ===== src/Provider.antt =====
-- The demo OIDC provider, cmd/demo-oidc/main.go: its endpoints over the codes that it keeps. The
-- clock stands still within a request, in nanoseconds; randomToken gives `none` where it fails.
pub mod Codes
pub mod Traffic
pub mod Redeem
pub mod Login
use vial_gateway.Prelude.{
  ℕ, ◌+◌, ◌*◌, ◌/◌, Bool, true, false, not, ◌||◌, List, [], ◌∷◌, ◌++◌, map, Option, none, some,
  if◌then◌else◌, ltb,
}
use vial_gateway.Text.{Text, codes, text_eq, is_empty, elem, fields, trim_suffix}
use vial_gateway.Url.{Url}
use vial_gateway.Std.{Std}
use vial_gateway.Dict.{lookup, insert, remove}
use vial_gateway.Config.Types.{second}

pub record AuthorizationCode : Type 0 where
  pub challenge : Text
  pub redirect_uri : Text
  pub scope : Text
  pub subject : Text
  pub expires : ℕ

-- provider; its key is in `Signer`
pub record Provider : Type 0 where
  pub issuer : Text
  pub client_id : Text
  pub client_secret : Text
  pub redirect_uri : Text
  pub username : Text
  pub password : Text
  pub granted : List (Text × AuthorizationCode)

-- What a handler reads of a request: whether ParseForm succeeds, Form.Get, and BasicAuth.
pub record FormRequest : Type 0 where
  pub method : Text
  pub parses : Bool
  pub form : Text → Text
  pub basic : Option (Text × Text)

pub record IdClaims : Type 0 where
  pub issuer : Text
  pub audience : Text
  pub subject : Text
  pub email : Text
  pub scope : Text
  pub issued_at : ℕ
  pub expires : ℕ

-- What the standard library brings: base64.RawURLEncoding, encoding/json on the header and the claims
-- of a token, rsa.SignPKCS1v15, and url.Values.Set on the query of a URL.
pub record Signer : Type 0 where
  pub encode64 : Text → Text
  pub header : Text
  pub encode_claims : IdClaims → Text
  pub sign_digest : List ℕ → Option Text
  pub set_query : Text → Text → Url → Url

pub data Reply : Type 0 where
  -- http.Error, the login page with the hidden fields and whether it shows an error, and a redirect
  failed : ℕ → Text → Reply
  login_page : ℕ → List (Text × Text) → Bool → Reply
  found : Text → Reply
  -- a nil URL is used
  panicked : Reply
  oauth_error : Text → ℕ → Reply
  -- access token, scope and ID token
  tokens : Text → Text → Text → Reply
  discovery : (issuer authorization token jwks : Text) → Reply
  jwks : Reply
  no_content : Reply

abbrev field_names : List Text
field_names =
    codes "client_id"
    ∷ codes "redirect_uri"
    ∷ codes "response_type"
    ∷ codes "scope"
    ∷ codes "state"
    ∷ codes "code_challenge"
    ∷ codes "code_challenge_method"
    ∷ []

abbrev pub fields_of : FormRequest → List (Text × Text)
fields_of q = map (λ name. (name, q.form name)) field_names

-- newProvider
unfoldable pub new_provider : Text → Text → Text → Text → Text → Text → Provider
new_provider issuer client_id client_secret redirect_uri username password = record {
  issuer = trim_suffix issuer (codes "/");
  client_id = client_id;
  client_secret = client_secret;
  redirect_uri = redirect_uri;
  username = username;
  password = password;
  granted = [];
}

module _ (std : Std) (signer : Signer) where
  -- containsScope
  unfoldable pub contains_scope : Text → Text → Bool
  contains_scope scopes wanted = elem wanted (fields std.unicode scopes)

  -- The S256 challenge of a verifier.
  abbrev pub challenge_of : Text → Text
  challenge_of verifier = signer.encode64 (std.sha256 verifier)

  unfoldable pub is_invalid : Provider → FormRequest → Bool
  is_invalid p q =
      not (text_eq (q.form (codes "client_id")) p.client_id)
      || not (text_eq (q.form (codes "redirect_uri")) p.redirect_uri)
      || not (text_eq (q.form (codes "response_type")) (codes "code"))
      || not (text_eq (q.form (codes "code_challenge_method")) (codes "S256"))
      || is_empty (q.form (codes "code_challenge"))
      || not (contains_scope (q.form (codes "scope")) (codes "openid"))
      || not (contains_scope (q.form (codes "scope")) (codes "gateway.admin"))

  abbrev pub code_of : ℕ → FormRequest → AuthorizationCode
  code_of now q = record {
    challenge = q.form (codes "code_challenge");
    redirect_uri = q.form (codes "redirect_uri");
    scope = q.form (codes "scope");
    subject = codes "demo-admin";
    expires = now + 120 * second;
  }

  -- Where the browser is sent with a code; the error of url.Parse is not read.
  abbrev pub redirected : FormRequest → Text → Reply
  redirected q code = elim (std.urls.parse (q.form (codes "redirect_uri"))) [
    | none ↦ panicked
    | some target ↦ found (
        std.urls.to_string (
          signer.set_query (codes "state") (q.form (codes "state"))
            (signer.set_query (codes "code") code target)))
  ]

  abbrev pub wrong_password : Provider → FormRequest → Bool
  wrong_password p q =
      not (text_eq (q.form (codes "username")) p.username)
      || not (text_eq (q.form (codes "password")) p.password)

  -- authorize
  unfoldable pub authorize : ℕ → Option Text → FormRequest → Provider → Provider × Reply
  authorize now drawn q p =
      if not q.parses
      then (p, failed 400 (codes "invalid form"))
      else if is_invalid p q
      then (p, failed 400 (codes "invalid authorization request"))
      else if text_eq q.method (codes "GET")
      then (p, login_page 200 (fields_of q) false)
      else if wrong_password p q
      then (p, login_page 401 (fields_of q) true)
      else elim drawn [
        | none ↦ (p, failed 500 (codes "random failure"))
        | some code ↦
            (record p { granted = insert code (code_of now q) p.granted }, redirected q code)
      ]

  -- sign
  unfoldable pub sign : IdClaims → Option Text
  sign claims =
      let unsigned =
        signer.encode64 signer.header ++ (b'.' ∷ signer.encode64 (signer.encode_claims claims)) in
      elim (signer.sign_digest (std.sha256 unsigned)) [
        | none ↦ none
        | some signature ↦ some (unsigned ++ (b'.' ∷ signer.encode64 signature))
      ]

  abbrev pub claims_of : ℕ → Provider → AuthorizationCode → IdClaims
  claims_of now p code = record {
    issuer = p.issuer;
    audience = p.client_id;
    subject = code.subject;
    email = p.username;
    scope = code.scope;
    issued_at = now / second;
    expires = (now + 3600 * second) / second;
  }

  abbrev pub credentials : FormRequest → Text × Text
  credentials q = elim q.basic [
    | none ↦ (q.form (codes "client_id"), q.form (codes "client_secret"))
    | some pair ↦ pair
  ]

  abbrev pub mismatched : ℕ → FormRequest → AuthorizationCode → Bool
  mismatched now q code =
      ltb code.expires now
      || not (text_eq (q.form (codes "redirect_uri")) code.redirect_uri)
      || not (text_eq (challenge_of (q.form (codes "code_verifier"))) code.challenge)

  -- What token answers for the code that it took.
  unfoldable pub redeem :
      ℕ → Option Text → FormRequest → Provider → Option AuthorizationCode → Reply
  redeem now access q p none = oauth_error (codes "invalid_grant") 400
  redeem now access q p (some code) =
      if mismatched now q code
      then oauth_error (codes "invalid_grant") 400
      else elim (sign (claims_of now p code)) [
        | none ↦ oauth_error (codes "server_error") 500
        | some id_token ↦ elim access [
          | none ↦ oauth_error (codes "server_error") 500
          | some drawn ↦ tokens drawn code.scope id_token
        ]
      ]

  abbrev pub is_stranger : Provider → FormRequest → Bool
  is_stranger p q =
      not (text_eq (credentials q).0 p.client_id) || not (text_eq (credentials q).1 p.client_secret)

  -- token
  unfoldable pub token : ℕ → Option Text → FormRequest → Provider → Provider × Reply
  token now access q p =
      if not q.parses
      then (p, oauth_error (codes "invalid_request") 400)
      else if is_stranger p q
      then (p, oauth_error (codes "invalid_client") 401)
      else if not (text_eq (q.form (codes "grant_type")) (codes "authorization_code"))
      then (p, oauth_error (codes "unsupported_grant_type") 400)
      else (
        record p { granted = remove (q.form (codes "code")) p.granted },
        redeem now access q p (lookup (q.form (codes "code")) p.granted),
      )
