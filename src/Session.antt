-- ===== src/Session.antt =====
-- Sessions of the control plane: protect, login, callback, logout and setCookie of
-- cmd/gateway/control.go. The provider and package oauth2 are `Oidc`. That Redis drops a session when
-- its time is over is left out: it is a store in which the key is missing.
pub mod Guard
pub mod Client
pub mod Login
pub mod Callback
pub mod Lasting
use vial_gateway.Prelude.{
  ℕ, ◌*◌, ◌-◌, Bool, true, false, not, ◌&&◌, ◌||◌, List, [], ◌∷◌, ◌++◌, Option, none, some,
  if◌then◌else◌, Result, ok, err, ◌>>=◌, ◌>>◌, refuse_if,
}
use vial_gateway.Prelude.Int.{ℤ, pos, negsuc, not_pos}
use vial_gateway.Text.{Text, codes, text_eq, is_empty}
use vial_gateway.Url.{Url, UrlLib}
use vial_gateway.Std.{Std}
use vial_gateway.Scopes.{scope_set, split_space}
use vial_gateway.Header.{Header}
use vial_gateway.Header
use vial_gateway.Config.Types.{AdminConfig, second}
use vial_gateway.Store.{Store, put, delete}
use vial_gateway.Control.{Calls, audited}
use vial_gateway.Auth.{AdminSession, AdminIdentity, session_prefix, is_admin, admin_authenticate}

-- encoding/json on an adminSession.
pub record SessionCodec : Type 0 where
  pub encode : AdminSession → Text
  pub decode : Text → Option AdminSession

-- The strings that the token response has as id_token and scope.
pub record Token : Type 0 where
  pub id_token : Option Text
  pub scope : Option Text

pub record Claims : Type 0 where
  pub subject : Text
  pub scope : Text

pub record Oidc : Type 0 where
  -- whether initOIDC succeeds
  pub reachable : Bool
  -- AuthCodeURL of a state and a verifier
  pub auth_code_url : Text → Text → Text
  -- Exchange of a code with a verifier
  pub exchange : Text → Text → Option Token
  -- Verify of an ID token, and the claims of one that is verified
  pub verify : Text → Option Text
  pub claims : Text → Option Claims

-- The admin cookie; its MaxAge are the seconds of `ttl`.
pub record Cookie : Type 0 where
  pub value : Text
  pub secure : Bool
  pub ttl : ℤ

pub data Page : Type 0 where
  fault : ℕ → Text → Page
  redirect : Text → Option Cookie → Page

-- What a handler reads of a request.
pub record Visit : Type 0 where
  pub method : Text
  pub path : Text
  pub host : Text
  pub header : Header
  pub cookie : Option Text
  -- FormValue("csrf"), and the query's state and code
  pub form_csrf : Text
  pub state : Text
  pub code : Text

pub data Guarded : Type 0 where
  denied : Page → Guarded
  passed : AdminIdentity → Guarded

abbrev pub csrf_token : Visit → Text
csrf_token v =
    if is_empty (Header.get v.header (codes "X-CSRF-Token"))
    then v.form_csrf
    else Header.get v.header (codes "X-CSRF-Token")

abbrev pub changes : Text → Bool
changes method = not (text_eq method (codes "GET")) && not (text_eq method (codes "HEAD"))

module _ (std : Std) (codec : SessionCodec) (admin : AdminConfig) where
  -- protect: whether `next` runs, and for whom
  unfoldable pub protect : Calls → Store → Visit → Guarded
  protect c s v =
      elim (admin_authenticate std codec.decode admin.bootstrap_key_sha c s v.header v.cookie) [
        | none ↦
            if text_eq v.path (codes "/admin") && not (is_empty admin.oidc_issuer)
            then denied (redirect (codes "/admin/login") none)
            else denied (fault 401 (codes "admin_unauthorized"))
        | some identity ↦
            if identity.session && changes v.method && not (text_eq (csrf_token v) identity.csrf)
            then denied (fault 403 (codes "csrf_failed"))
            else passed identity
      ]

  -- setCookie
  unfoldable pub cookie_of : Text → ℤ → Cookie
  cookie_of value ttl = record {
    value = value;
    secure = elim (std.urls.parse admin.external_url) [
      | none ↦ false
      | some external ↦ text_eq external.scheme (codes "https")
    ];
    ttl = ttl;
  }

  abbrev pub ten_minutes : ℤ
  ten_minutes = pos (600 * second)

  abbrev pub pending : Text → Text → AdminSession
  pending state verifier = record {
    subject = [];
    scopes = [];
    csrf = [];
    state = state;
    verifier = verifier;
  }

  -- Where a login on another host than the external one is sent.
  unfoldable pub login_elsewhere : Visit → Option Text
  login_elsewhere v = elim (std.urls.parse admin.external_url) [
    | none ↦ none
    | some external ↦
        if not (is_empty external.host) && not (text_eq v.host external.host)
        then some (
            std.urls.to_string
              (record external { path = codes "/admin/login"; raw_query = []; fragment = [] }))
        else none
  ]

  -- login, with what randomToken gives for the state and the id, and the verifier
  unfoldable pub login :
      Oidc → Calls → Visit → Option Text → Text → Option Text → Store → Store × Page
  login oidc c v state verifier id s = elim (login_elsewhere v) [
    | some location ↦ (s, redirect location none)
    | none ↦
        if is_empty admin.oidc_issuer
        then (s, fault 404 (codes "oidc_disabled"))
        else if not oidc.reachable
        then (s, fault 503 (codes "oidc_unavailable"))
        else elim state [
          | none ↦ (s, fault 500 (codes "random_failed"))
          | some st ↦ elim id [
            | none ↦ (s, fault 500 (codes "random_failed"))
            | some key ↦ if not c.first then (s, fault 503 (codes "control_unavailable")) else (
              put (session_prefix ++ key) (codec.encode (pending st verifier)) s,
              redirect (oidc.auth_code_url st verifier) (some (cookie_of key ten_minutes)),
            )
          ]
        ]
  ]

  abbrev bad_state : Page
  bad_state = fault 400 (codes "oidc_state")

  abbrev pub or_fault {ℓ} : {A : Type ℓ} → ℕ → Text → Option A → Result Page A
  or_fault status code none = err (fault status code)
  or_fault status code (some a) = ok a

  -- splitSpace(claims.Scope), or the scope of the token response where there is none
  unfoldable pub granted_scopes : Claims → Token → List Text
  granted_scopes claims token = elim (split_space std.unicode claims.scope) [
    | [] ↦ elim token.scope [ none ↦ [] | some granted ↦ split_space std.unicode granted ]
    | scope ∷ scopes ↦ scope ∷ scopes
  ]

  -- What callback makes of the pending login that it took: the subject and its scopes.
  unfoldable pub granted : Oidc → Visit → Text → Result Page (Text × List Text)
  granted oidc v stored = do
    pending ← or_fault 400 (codes "oidc_state") (codec.decode stored)
    refuse_if (not (text_eq v.state pending.state)) bad_state
    token ← or_fault 401 (codes "oidc_exchange") (oidc.exchange v.code pending.verifier)
    raw ← or_fault 401 (codes "oidc_token") token.id_token
    verified ← or_fault 401 (codes "oidc_token") (oidc.verify raw)
    claims ← or_fault 401 (codes "oidc_token") (oidc.claims verified)
    refuse_if (not (is_admin (scope_set (granted_scopes claims token))))
        (fault 403 (codes "insufficient_scope"))
    ok (claims.subject, granted_scopes claims token)

  abbrev pub session_ttl : ℤ
  session_ttl = if not_pos admin.session_ttl then pos (8 * 3600 * second) else admin.session_ttl

  abbrev pub session_of : Text → Text → List Text → AdminSession
  session_of csrf subject scopes = record {
    subject = subject;
    scopes = scopes;
    csrf = csrf;
    state = [];
    verifier = [];
  }

  -- The rest of callback, with what randomToken gives for the CSRF token and the session's id.
  unfoldable pub sign_in :
      Calls → Option Text → Option Text → Text → List Text → Store → Store × Page
  sign_in c none id subject scopes s = (s, fault 500 (codes "random_failed"))
  sign_in c (some csrf) none subject scopes s = (s, fault 500 (codes "random_failed"))
  sign_in c (some csrf) (some id) subject scopes s =
      let kept = put (session_prefix ++ id) (codec.encode (session_of csrf subject scopes)) s in
      if not c.second then (s, fault 503 (codes "control_unavailable")) else (
        audited c subject (codes "session.login") [] kept,
        redirect (codes "/admin") (some (cookie_of id session_ttl)),
      )

  -- callback; GetDel fails where the key is missing
  unfoldable pub callback : Oidc → Calls → Visit → Option Text → Option Text → Store → Store × Page
  callback oidc c v csrf id s =
      if not oidc.reachable then (s, fault 503 (codes "oidc_unavailable")) else elim v.cookie [
        | none ↦ (s, bad_state)
        | some cookie ↦
            if not c.first then (s, bad_state) else elim (s.strings (session_prefix ++ cookie)) [
              | none ↦ (s, bad_state)
              | some stored ↦
                  let rest = delete (session_prefix ++ cookie) s in
                  elim (granted oidc v stored) [
                    | err page ↦ (rest, page)
                    | ok (subject, scopes) ↦ sign_in c csrf id subject scopes rest
                  ]
            ]
      ]

  -- logout
  unfoldable pub logout : Calls → Visit → AdminIdentity → Store → Store × Page
  logout c v identity s =
      let gone : Store = elim v.cookie [
        | none ↦ s
        | some cookie ↦ if c.first then delete (session_prefix ++ cookie) s else s
      ] in
      (
        audited c identity.subject (codes "session.logout") [] gone,
        redirect (codes "/admin") (some (cookie_of [] (negsuc (3600 * second - 1)))),
      )
