-- ===== src/Tests/Tokens.antt =====
-- A token service that grants the token "t", and redirects.
use maze_registry_ui.Prelude.{
  ◌≡◌, ◌≤◌, ◌⊎◌, refl, ℕ, List, [], ◌∷◌, Bool, true, false, Option, none, some,
}
use maze_registry_ui.Prelude.Assoc.{lookup, insert, remove, keep}
use maze_registry_ui.Prelude.Bytes.{Bytes, codes, bytes_eq}
use maze_registry_ui.Prelude.Int.{ℤ, pos}
use maze_registry_ui.Prelude.Text.{fields, equal_fold, to_lower, trim_space}
use maze_registry_ui.Registry.Auth.{Sent, response, cache_lifetime}
use maze_registry_ui.Registry.Challenges.{AuthChallenge, param}
use maze_registry_ui.Registry.Client.{read_limited, read_size}
use maze_registry_ui.Registry.TokenService.{
  Credentials, anonymous, basic, bearer, HttpRequest, apply_static_auth, values_of, add_value,
  add_scopes, token_query, TokenUrls, TokenDocument, token_auth, grant_of, read_grant,
  token_request, realm_url, request_token, before_text, scope_of_path, auth_scope_key,
  strip_auth_on_host_change,
}
use maze_registry_ui.Registry.TokenService.Query.{token_query_values}
use maze_registry_ui.Registry.TokenService.Grants.{IsAsked, request_token-IsAsked}
use maze_registry_ui.Registry.TokenService.Redirects.{follow, follow_safe}
use maze_registry_ui.Tests.Client.{setup, fresh}

program : Unit {0}
unfolding lookup insert remove keep bytes_eq fields equal_fold to_lower trim_space param
    read_limited read_size apply_static_auth values_of add_value add_scopes token_query token_auth
    grant_of read_grant token_request realm_url request_token before_text scope_of_path
    auth_scope_key cache_lifetime strip_auth_on_host_change
program = tt

abbrev challenge : AuthChallenge
challenge = record {
  scheme = codes "bearer";
  params =
      (codes "realm", codes "https://t/token")
      ∷ (codes "service", codes "hub")
      ∷ (codes "scope", codes "repository:a:pull  repository:b:pull")
      ∷ [];
}

abbrev net : TokenUrls
net = record {
  Url = Bytes;
  parse = λ s. some s;
  scheme = λ u. codes "https";
  query = λ u. (codes "scope", codes "old" ∷ []) ∷ (codes "tenant", codes "x" ∷ []) ∷ [];
  with_query = λ q u. u;
}

abbrev credentials : Credentials
credentials = record {
  type = codes "basic";
  username = codes "u";
  password = codes "p";
  token = [];
}

abbrev document : Bytes → Option TokenDocument
document body =
    some record { token = []; access_token = codes "t"; expires_in = pos 300; issued_at = none }

abbrev perform : HttpRequest → Sent ℕ
perform req = response record {
  status_code = 200;
  www_authenticate = [];
  headers = [];
  content_length = pos 2;
  body = codes "{}";
  broken = false;
}

token_query_values_example :
    values_of (codes "scope") (token_query challenge (net.query []))
    ≡ codes "repository:a:pull" ∷ codes "repository:b:pull" ∷ []
unfolding program
token_query_values_example = token_query_values challenge (net.query []) (codes "scope")

abbrev asked : HttpRequest
asked = record {
  method = codes "GET";
  url = codes "https://t/token";
  user_agent = codes "ui";
  accept = codes "application/json";
  authorization = basic (codes "u") (codes "p");
}

abbrev lifetime : ℤ
lifetime = cache_lifetime (pos 300) none 5

request_token-IsAsked_example :
    IsAsked setup fresh net credentials
      (codes "ui")
      document
      perform
      5
      challenge
      (some asked)
      (codes "t")
      lifetime
unfolding program
request_token-IsAsked_example =
    request_token-IsAsked setup fresh net credentials (codes "ui") document perform 5 challenge
      (some asked) (codes "t") lifetime refl

abbrev copies : List Bytes → Bytes → Bool
copies via host = true

follow_safe_example :
    (((bearer (codes "t") ≡ anonymous) ⊎ (codes "a" ≡ codes "a"))
      × (((anonymous ≡ anonymous) ⊎ (codes "b" ≡ codes "a")) × Unit {0}))
    × (2 ≤ 9)
unfolding program
follow_safe_example =
    follow_safe copies (bearer (codes "t")) (codes "a") (codes "a" ∷ codes "b" ∷ [])

-- the credentials come back at the second redirect
subdomain_twice :
    follow copies
      (bearer (codes "t"))
      (codes "r.example" ∷ [])
      (codes "cdn.r.example" ∷ codes "cdn.r.example" ∷ [])
    ≡ (codes "cdn.r.example", anonymous) ∷ (codes "cdn.r.example", bearer (codes "t")) ∷ []
unfolding program
subdomain_twice = refl

abbrev whole : Bytes → Option Bytes
whole raw = some raw

scope_keys :
    (auth_scope_key whole (codes "/v2/a/b/manifests/x") ≡ codes "a/b")
    × (auth_scope_key whole (codes "/v2/a/manifests/b/tags/list") ≡ codes "a")
    × (auth_scope_key whole (codes "/v2/") ≡ [])
unfolding program
scope_keys = (refl, refl, refl)
