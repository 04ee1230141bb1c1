-- ===== src/Registry/TokenService/Grants.antt =====
-- internal/registry/auth.go: what a token that `requestToken` returns rests on.
use maze_registry_ui.Prelude.{
  ℕ, ◌≡◌, refl, subst, ◌⊎◌, [], ◌∷◌, true, false, ◌||◌, Option, some, ltb, ◌≤◌, arith, Bool-cases,
  Option-cases, inl, inr,
}
use maze_registry_ui.Prelude.Bytes.{Bytes, codes, bytes_eq, bytes_eq_iff, is_empty}
use maze_registry_ui.Prelude.Int.{ℤ}
use maze_registry_ui.Registry.Auth.{Response, Sent, response, send_error, cache_lifetime}
use maze_registry_ui.Registry.Challenges.{AuthChallenge, param}
use maze_registry_ui.Registry.Client.{Setup, Client}
use maze_registry_ui.Registry.Client.Limits.{IsWhole, read_limited-IsWhole}
use maze_registry_ui.Registry.TokenService.{
  Credentials, HttpRequest, TokenUrls, TokenDocument, Grant, granted, max_token_bytes, grant_of,
  read_grant, realm_url, token_request, request_token,
}
use maze_registry_ui.Registry.TokenService.Presented.{IsPresented, token_auth-IsPresented}

-- The token is that of the document, under either name, and lives as long as the document says.
pub record IsOf (E : Type 0) (now : ℕ) (doc : TokenDocument) (v : Bytes) (l : ℤ) : Type 0 where
  pub named : (v ≡ doc.token) ⊎ ((doc.token ≡ []) × (v ≡ doc.access_token))
  pub nonempty : is_empty v ≡ false
  pub lives : l ≡ cache_lifetime doc.expires_in doc.issued_at now

empty_text : (s : Bytes) → is_empty s ≡ true → s ≡ []
empty_text [] h = refl
empty_text (c ∷ s) h = cc

grant_of_granted :
    {E : Type 0} (now : ℕ) (doc : TokenDocument) (v : Bytes) (l : ℤ)
    → grant_of {E = E} now doc ≡ granted v l
    → IsOf E now doc v l
unfolding grant_of
grant_of_granted now doc v l h = elim (Bool-cases (is_empty doc.token)) [
  | inl e ↦ elim (Bool-cases (is_empty doc.access_token)) [
    | inl gone ↦ absurd (ground arith)
    | inr there ↦ record {
      named = inr (empty_text doc.token e, ground arith);
      nonempty = ground arith;
      lives = ground arith;
    }
  ]
  | inr e ↦ record { named = inl (ground arith); nonempty = ground arith; lives = ground arith }
]

Sent-cases :
    {E : Type 0} (s : Sent E) → ((e : E) × (s ≡ send_error e)) ⊎ ((r : Response) × (s ≡ response r))
Sent-cases (send_error e) = inl (e, refl)
Sent-cases (response r) = inr (r, refl)

module _ {E S : Type 0} (w : Setup E S) (client : Client S) (net : TokenUrls)
    (credentials : Credentials) (user_agent : Bytes) (token_document : Bytes → Option TokenDocument)
    (perform : HttpRequest → Sent E) (now : ℕ) where
  abbrev pub ask : AuthChallenge → Option HttpRequest × Grant E
  ask = request_token w client net credentials user_agent token_document perform now

  -- a response of status 200 to 299 with a whole document that holds the token
  pub record IsGrant (r : Response) (v : Bytes) (l : ℤ) : Type 0 where
    pub success : (200 ≤ r.status_code) × (r.status_code ≤ 299)
    pub whole : IsWhole r max_token_bytes
    pub doc : TokenDocument
    pub decodes : token_document r.body ≡ some doc
    pub token : IsOf E now doc v l

  read_grant_granted :
      (endpoint : Bytes) (r : Response) (v : Bytes) (l : ℤ)
      → read_grant w client net credentials user_agent token_document perform now endpoint r
        ≡ granted v l
      → IsGrant r v l
  unfolding read_grant
  read_grant_granted endpoint r v l h =
      elim (Bool-cases (ltb r.status_code 200 || ltb 299 r.status_code)) [
        | inl bad ↦ absurd (ground arith)
        | inr ok ↦ elim (read_limited-IsWhole w r max_token_bytes client (omega arith)) [
          | inl (whole, read) ↦ elim (Option-cases (token_document r.body)) [
            | inl e ↦ absurd (ground arith)
            | inr (doc, e) ↦ record {
              success = ground arith;
              whole = whole;
              doc = doc;
              decodes = e;
              token = grant_of_granted now doc v l (ground arith);
            }
          ]
          | inr (cut, inl long) ↦ absurd (ground arith)
          | inr (cut, inr broken) ↦ absurd (ground arith)
        ]
      ]

  -- the request to the token endpoint of a realm
  abbrev pub asks : AuthChallenge → net.Url → HttpRequest
  asks = token_request w client net credentials user_agent token_document perform now

  realm_url-some :
      (realm : Bytes) (u : net.Url)
      → realm_url w client net credentials user_agent token_document perform now realm ≡ some u
      → (net.parse realm ≡ some u)
        × ((net.scheme u ≡ codes "http") ⊎ (net.scheme u ≡ codes "https"))
  unfolding realm_url
  realm_url-some realm u h =
      let IsWeb : net.Url → Type 0 = λ x.
        (net.parse realm ≡ some x)
        × ((net.scheme x ≡ codes "http") ⊎ (net.scheme x ≡ codes "https")) in
      elim (Option-cases (net.parse realm)) [
        | inl e ↦ absurd (ground arith)
        | inr (u', e) ↦ elim (Bool-cases (bytes_eq (net.scheme u') (codes "http"))) [
          | inl a ↦ subst IsWeb (ground arith) (e, inl ((bytes_eq_iff _ _).0 a))
          | inr a ↦ elim (Bool-cases (bytes_eq (net.scheme u') (codes "https"))) [
            | inl b ↦ subst IsWeb (ground arith) (e, inr ((bytes_eq_iff _ _).0 b))
            | inr b ↦ absurd (ground arith)
          ]
        ]
      ]

  -- the one request that was made, and its answer
  pub record IsAsked (ch : AuthChallenge) (req : Option HttpRequest) (v : Bytes) (l : ℤ)
      : Type 0 where
    pub url : net.Url
    pub parses : net.parse (param (codes "realm") ch) ≡ some url
    pub web : (net.scheme url ≡ codes "http") ⊎ (net.scheme url ≡ codes "https")
    pub sent : req ≡ some (asks ch url)
    pub fetched : (asks ch url).method ≡ codes "GET"
    pub presented : IsPresented credentials (asks ch url).authorization
    pub answer : Response
    pub answered : perform (asks ch url) ≡ response answer
    pub grant : IsGrant answer v l

  -- If requestToken returns a token, then the realm of the challenge is an http or https URL,
  -- one request was made, a GET to this URL with the query of the challenge; it presents the
  -- user name and password of the registry if either is given, else its token if its auth type
  -- is bearer and the token is not empty, and else nothing; and it was answered by a status from
  -- 200 to 299 with a whole body of at most 2^20 bytes that decodes to a document; the token is
  -- not empty, is the "token" of the document, or its "access_token" if the former is empty, and
  -- its lifetime is computed from the dates of the document.
  pub request_token-IsAsked :
      (ch : AuthChallenge) (req : Option HttpRequest) (v : Bytes) (l : ℤ)
      → ask ch ≡ (req, granted v l)
      → IsAsked ch req v l
  unfolding request_token token_request
  request_token-IsAsked ch req v l h = elim (Bool-cases (is_empty (param (codes "realm") ch))) [
    | inl none_given ↦ absurd (ground arith)
    | inr given ↦
        elim (Option-cases (
          realm_url w client net credentials user_agent token_document perform now
            (param (codes "realm") ch))) [
              | inl unusable ↦ absurd (ground arith)
              | inr (u, usable) ↦ elim (Sent-cases (perform (asks ch u))) [
                | inl (e, lost) ↦ absurd (ground arith)
                | inr (r, back) ↦
                    let (parses, web) = realm_url-some (param (codes "realm") ch) u usable in
                    record {
                      url = u;
                      parses = parses;
                      web = web;
                      sent = ground arith;
                      fetched = refl;
                      presented = token_auth-IsPresented credentials;
                      answer = r;
                      answered = back;
                      grant = read_grant_granted (asks ch u).url r v l (ground arith);
                    }
              ]
            ]
  ]
