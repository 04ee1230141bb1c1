-- ===== src/Registry/TokenService.antt =====
-- internal/registry/auth.go: `requestToken` and `applyStaticAuth`; internal/registry/client.go:
-- the request that `send` makes, `stripAuthOnHostChange`;
-- `authScopeKey`. The package net/url is the record `TokenUrls`.
pub mod Query
pub mod Presented
pub mod Grants
pub mod Redirects
use maze_registry_ui.Prelude.{
  ℕ, zero, suc, ◌+◌, ◌*◌, List, [], ◌∷◌, ◌++◌, Bool, true, false, ◌&&◌, ◌||◌, not, Option, none,
  some, leb, ltb, ◌==◌, if◌then◌else◌, length,
}
use maze_registry_ui.Prelude.Assoc.{lookup, insert, remove}
use maze_registry_ui.Prelude.Bytes.{Bytes, codes, bytes_eq, is_empty}
use maze_registry_ui.Prelude.Int.{ℤ, le_zero}
use maze_registry_ui.Prelude.Text.{
  fields, to_lower, trim_space, trim_right, equal_fold, cut_prefix, cut_suffix, has_prefix,
}
use maze_registry_ui.Registry.Auth.{Response, Sent, response, send_error, cache_lifetime}
use maze_registry_ui.Registry.Challenges.{AuthChallenge, param}
use maze_registry_ui.Registry.Client.{
  Setup, Client, StatusError, ClientError, done, fail, status_of, read_limited,
}

-- `AuthConfig`
pub record Credentials : Type 0 where
  pub type : Bytes
  pub username : Bytes
  pub password : Bytes
  pub token : Bytes

-- the Authorization header of a request
pub data Authorization : Type 0 where
  anonymous : Authorization
  basic : Bytes → Bytes → Authorization
  bearer : Bytes → Authorization

pub record HttpRequest : Type 0 where
  pub method : Bytes
  pub url : Bytes
  pub user_agent : Bytes
  pub accept : Bytes
  pub authorization : Authorization

unfoldable pub apply_static_auth : Credentials → Authorization
unfolding to_lower trim_space
apply_static_auth c =
    let kind = to_lower (trim_space c.type) in
    if bytes_eq kind (codes "basic")
    then if not (is_empty c.username) || not (is_empty c.password)
      then basic c.username c.password
      else anonymous
    else if bytes_eq kind (codes "bearer")
    then if not (is_empty c.token) then bearer c.token else anonymous
    else anonymous

-- the request that `send` makes
unfoldable pub send_request : Credentials → Bytes → Bytes → Bytes → Bytes → Bytes → HttpRequest
unfolding apply_static_auth
send_request c user_agent method url accept token = record {
  method = method;
  url = url;
  user_agent = user_agent;
  accept = accept;
  authorization = if not (is_empty token) then bearer token else apply_static_auth c;
}

-- `url.Values`
abbrev pub Values : Type 0
Values = List (Bytes × List Bytes)

unfoldable pub values_of : Bytes → Values → List Bytes
unfolding lookup
values_of k q = elim (lookup k q) [ none ↦ [] | some vs ↦ vs ]

-- `url.Values.Add`
unfoldable pub add_value : Bytes → Bytes → Values → Values
unfolding insert values_of
add_value k v q = insert k (values_of k q ++ v ∷ []) q

-- the loop over the scopes
unfoldable pub add_scopes : List Bytes → Values → Values
unfolding add_value
add_scopes [] q = q
add_scopes (s ∷ ss) q = add_scopes ss (add_value (codes "scope") s q)

-- the query of the token endpoint, from that of the realm
unfoldable pub token_query : AuthChallenge → Values → Values
unfolding insert remove add_scopes fields param
token_query ch q =
    let service = param (codes "service") ch in
    let scope = param (codes "scope") ch in
    let q' = if not (is_empty service) then insert (codes "service") (service ∷ []) q else q in
    if not (is_empty scope) then add_scopes (fields scope) (remove (codes "scope") q') else q'

pub record TokenUrls : Type 1 where
  pub Url : Type 0
  pub parse : Bytes → Option Url
  pub scheme : Url → Bytes
  pub query : Url → Values
  -- the URL with another query, printed
  pub with_query : Values → Url → Bytes

-- `tokenResponse`; the time is `none` for the zero time
pub record TokenDocument : Type 0 where
  pub token : Bytes
  pub access_token : Bytes
  pub expires_in : ℤ
  pub issued_at : Option ℕ

-- the errors of `requestToken`
pub data TokenError (E : Type 0) : Type 0 where
  no_realm : TokenError E
  bad_realm : Bytes → TokenError E
  transport : E → TokenError E
  denied : StatusError → TokenError E
  unread : ClientError E → TokenError E
  undecoded : TokenError E
  no_token : TokenError E

pub data Grant (E : Type 0) : Type 0 where
  granted : Bytes → ℤ → Grant E
  failed : TokenError E → Grant E

abbrev pub max_token_bytes : ℕ
max_token_bytes = 1048576

-- the credentials that are sent to the token service
unfoldable pub token_auth : Credentials → Authorization
unfolding equal_fold
token_auth c =
    if not (is_empty c.username) || not (is_empty c.password)
    then basic c.username c.password
    else if equal_fold c.type (codes "bearer") && not (is_empty c.token)
    then bearer c.token
    else anonymous

module _ {E : Type 0} where
  -- the end of `requestToken`; the clock is read at `now`
  unfoldable pub grant_of : ℕ → TokenDocument → Grant E
  unfolding cache_lifetime
  grant_of now doc =
      let value = if is_empty doc.token then doc.access_token else doc.token in
      if is_empty value
      then failed no_token
      else granted value (cache_lifetime doc.expires_in doc.issued_at now)

module _ {E S : Type 0} (w : Setup E S) (client : Client S) (net : TokenUrls)
    (credentials : Credentials) (user_agent : Bytes) (token_document : Bytes → Option TokenDocument)
    (perform : HttpRequest → Sent E) (now : ℕ) where
  -- what `requestToken` makes of the response to its request
  unfoldable pub read_grant : Bytes → Response → Grant E
  read_grant endpoint r =
      if ltb r.status_code 200 || ltb 299 r.status_code
      then failed (denied (status_of w r (codes "GET") endpoint))
      else elim (read_limited w r max_token_bytes client).1 [
        | fail e ↦ failed (unread e)
        | done body ↦ elim (token_document body) [
          | none ↦ failed undecoded
          | some doc ↦ grant_of now doc
        ]
      ]

  unfoldable pub token_request : AuthChallenge → net.Url → HttpRequest
  unfolding token_query token_auth
  token_request ch u = record {
    method = codes "GET";
    url = net.with_query (token_query ch (net.query u)) u;
    user_agent = user_agent;
    accept = codes "application/json";
    authorization = token_auth credentials;
  }

  -- the URL of the realm, if it is usable
  unfoldable pub realm_url : Bytes → Option net.Url
  realm_url realm = elim (net.parse realm) [
    | none ↦ none
    | some u ↦
        if not (bytes_eq (net.scheme u) (codes "http"))
          && not (bytes_eq (net.scheme u) (codes "https"))
        then none
        else some u
  ]

  -- the request that was made, if there was one, and the outcome
  unfoldable pub request_token : AuthChallenge → Option HttpRequest × Grant E
  request_token ch =
      let realm = param (codes "realm") ch in
      if is_empty realm then (none, failed no_realm) else elim (realm_url realm) [
        | none ↦ (none, failed (bad_realm realm))
        | some u ↦
            let req = token_request ch u in
            elim (perform req) [
              | send_error e ↦ (some req, failed (transport e))
              | response r ↦ (some req, read_grant req.url r)
            ]
      ]

-- what stands before the first occurrence of a text, `strings.Index` and the slice up to it
unfoldable pub before_text : Bytes → Bytes → Option Bytes
unfolding has_prefix
before_text t [] = if has_prefix t [] then some [] else none
before_text t (c ∷ s) =
    let later = before_text t s in
    if has_prefix t (c ∷ s) then some [] else elim later [ none ↦ none | some b ↦ some (c ∷ b) ]

-- the loop of `authScopeKey`
unfoldable pub scope_of_path : List Bytes → Bytes → Bytes
unfolding before_text
scope_of_path [] path = path
scope_of_path (sep ∷ seps) path =
    let rest = scope_of_path seps path in elim (before_text sep path) [ none ↦ rest | some b ↦ b ]

-- `authScopeKey`; `url_path` is the path that `url.Parse` finds
unfoldable pub auth_scope_key : (Bytes → Option Bytes) → Bytes → Bytes
unfolding scope_of_path cut_prefix
auth_scope_key url_path raw = elim (url_path raw) [
  | none ↦ []
  | some p ↦
      let path : Bytes = elim (cut_prefix (codes "/v2/") p) [ none ↦ p | some s ↦ s ] in
      if is_empty path || bytes_eq path (codes "_catalog")
      then path
      else scope_of_path (codes "/manifests/" ∷ codes "/blobs/" ∷ codes "/tags/list" ∷ []) path
]

-- `stripAuthOnHostChange` for a request to `host`, with the hosts of the requests before it, the
-- latest first: the Authorization header that is left, or the error that stops the chain
unfoldable pub strip_auth_on_host_change : Bytes → List Bytes → Authorization → Option Authorization
strip_auth_on_host_change host via auth = if leb 10 (length via) then none else elim via [
  | [] ↦ some auth
  | last ∷ _ ↦ some (if not (bytes_eq host last) then anonymous else auth)
]
