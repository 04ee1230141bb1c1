-- ===== src/Registry/Auth/Handshake.antt =====
-- internal/registry/client.go: how many requests `do` makes, and what it answers.
use maze_registry_ui.Prelude.{
  ◌+◌, ◌*◌, ◌≤◌, ◌<◌, ◌≡◌, ◌⊎◌, refl, ap, ◌∙◌, List, [], ◌∷◌, ◌++◌, Option, none, some, true, false,
  length, length-append, arith, inl, inr, Bool-cases, Option-cases,
}
use maze_registry_ui.Prelude.Assoc.{lookup, lookup-insert}
use maze_registry_ui.Prelude.Bytes.{Bytes, bytes_eq_refl}
use maze_registry_ui.Registry.Challenges.{AuthChallenge, bearer_challenge, first_bearer}
use maze_registry_ui.Registry.Challenges.Ends.{parse_challenges_ends}
use maze_registry_ui.Registry.Auth.Tokens.{token_fresh}
use maze_registry_ui.Registry.Auth.{
  Tokens, TokenResult, token_value, token_error, Response, Sent, response, send_error, World,
  ClientState, CachedToken, token_key, token, Challenges, send, take_token, unauthorized, negotiate,
  do_request, get_challenge, put_challenge,
}

pub bearer_challenge_ends :
    (vs : List Bytes) → (c : Option AuthChallenge) × (bearer_challenge vs ≡ some c)
unfolding bearer_challenge
bearer_challenge_ends [] = (none, refl)
bearer_challenge_ends (v ∷ vs) =
    let (cs, e, w) = parse_challenges_ends v in
    let (c, r) = bearer_challenge_ends vs in
    elim (Option-cases (first_bearer cs)) [
      | inl other ↦ (c, rw (e, bearer_challenge, other) r)
      | inr (ch, bearer) ↦ (some ch, rw (e, bearer_challenge, bearer) refl)
    ]

pub Sent-cases :
    {E : Type 0} (x : Sent E) → ((r : Response) × (x ≡ response r)) ⊎ ((e : E) × (x ≡ send_error e))
Sent-cases (response r) = inl (r, refl)
Sent-cases (send_error e) = inr (e, refl)

pub TokenResult-cases :
    {E : Type 0} (x : TokenResult E)
    → ((v : Bytes) × (x ≡ token_value v)) ⊎ ((e : E) × (x ≡ token_error e))
TokenResult-cases (token_value v) = inl (v, refl)
TokenResult-cases (token_error e) = inr (e, refl)

module _ {E : Type 0} (w : World E) (scope_key : Bytes) where
  -- a request without a token that a bearer challenge answers
  negotiate_challenged :
      (s : ClientState) (r : Response) (ch : AuthChallenge)
      → w.answer (length s.sends) [] ≡ response r
      → unauthorized r ≡ true
      → bearer_challenge r.www_authenticate ≡ some (some ch)
      → (s₂ : ClientState) × (t : TokenResult E) × (s₂.sends ≡ s.sends ++ [] ∷ [])
        × (s₂.token_calls ≡ s.token_calls + 1)
        × (s₂.challenges ≡ put_challenge scope_key ch s.challenges)
        × (negotiate w scope_key s ≡ elim t [
          | token_error e ↦ some (s₂, send_error e)
          | token_value v ↦ some (send w v s₂)
        ])
  unfolding negotiate send take_token
  negotiate_challenged s r ch got asked e =
      let (s₁, sent) = send w [] s in
      let (s₂, t) =
        take_token w ch (record s₁ { challenges = put_challenge scope_key ch s₁.challenges }) in
      (s₂, t, refl, refl, refl, rw (got, negotiate, asked, e) refl)

  negotiate_ends :
      (s : ClientState)
      → (r : ClientState × Sent E) × (negotiate w scope_key s ≡ some r)
        × (length r.0.sends ≤ length s.sends + 2)
        × (r.0.token_calls ≤ s.token_calls + 1)
  unfolding negotiate send
  negotiate_ends s =
      let one = length-append s.sends ([] ∷ []) in
      let (s₁, sent) = send w [] s in
      elim (Sent-cases (w.answer (length s.sends) [])) [
        | inr (e, bad) ↦
            ((s₁, send_error e), rw (bad, negotiate) refl, omega (arith, one), omega arith)
        | inl (r, got) ↦ elim (Bool-cases (unauthorized r)) [
          | inr fine ↦
              ((s₁, response r), rw (got, negotiate, fine) refl, omega (arith, one), omega arith)
          | inl asked ↦ elim (Option-cases (bearer_challenge_ends r.www_authenticate).0) [
            | inl other ↦
                let e : bearer_challenge r.www_authenticate ≡ some none =
                  (bearer_challenge_ends r.www_authenticate).1 ∙ ap some other in
                (
                  (s₁, response r),
                  rw (got, negotiate, asked, e) refl,
                  omega (arith, one),
                  omega arith,
                )
            | inr (ch, bearer) ↦
                let e : bearer_challenge r.www_authenticate ≡ some (some ch) =
                  (bearer_challenge_ends r.www_authenticate).1 ∙ ap some bearer in
                let (s₂, t, sent₂, calls, kept, run) = negotiate_challenged s r ch got asked e in
                elim (TokenResult-cases t) [
                  | inr (x, no_token) ↦ (
                    (s₂, send_error x),
                    run ∙ rw no_token refl,
                    rw sent₂ (omega (arith, one)),
                    omega (arith, calls),
                  )
                  | inl (v, token) ↦ (
                    send w v s₂,
                    run ∙ rw token refl,
                    rw sent₂ (omega (arith, one, length-append (s.sends ++ [] ∷ []) (v ∷ []))),
                    omega (arith, calls),
                  )
                ]
          ]
        ]
      ]

  -- do always returns, after at most three requests and two calls for a token, whatever the
  -- registry and the token service answer.
  pub do_request_ends :
      (s : ClientState)
      → (r : ClientState × Sent E) × (do_request w scope_key s ≡ some r)
        × (length r.0.sends ≤ length s.sends + 3)
        × (r.0.token_calls ≤ s.token_calls + 2)
  unfolding do_request send take_token
  do_request_ends s = elim (Option-cases (get_challenge scope_key s.challenges)) [
    | inl new ↦
        let (r, e, l, k) = negotiate_ends s in
        (r, rw (new, do_request) e, omega (arith, l), omega (arith, k))
    | inr (ch, known) ↦
        let s₁ = (take_token w ch s).0 in
        elim (TokenResult-cases (take_token w ch s).1) [
          | inr (x, bad) ↦
              let (r, e, l, k) = negotiate_ends s₁ in
              (r, rw (known, do_request, bad) e, omega (arith, l), omega (arith, k))
          | inl (v, token) ↦
              let one = length-append s.sends (v ∷ []) in
              let s₂ = (send w v s₁).0 in
              elim (Sent-cases (w.answer (length s.sends) v)) [
                | inr (x, bad) ↦ (
                  (s₂, send_error x),
                  rw (known, do_request, token, bad) refl,
                  omega (arith, one),
                  omega arith,
                )
                | inl (r, got) ↦ elim (Bool-cases (unauthorized r)) [
                  | inr fine ↦ (
                    (s₂, response r),
                    rw (known, do_request, token, got, fine) refl,
                    omega (arith, one),
                    omega arith,
                  )
                  | inl asked ↦
                      let (q, e, l, k) = negotiate_ends s₂ in
                      (
                        q,
                        rw (known, do_request, token, got, asked) e,
                        omega (arith, l, one),
                        omega (arith, k),
                      )
                ]
              ]
        ]
  ]

  pub get-put_challenge :
      (ch : AuthChallenge) (m : Challenges)
      → get_challenge scope_key (put_challenge scope_key ch m) ≡ some ch
  unfolding get_challenge put_challenge
  get-put_challenge ch m = ground (
    arith,
    lookup-insert scope_key scope_key ch m,
    lookup-insert scope_key scope_key ch [],
    bytes_eq_refl scope_key,
  )

  take_known :
      (s : ClientState) (ch : AuthChallenge) (tok : CachedToken)
      → lookup (token_key ch) s.tokens ≡ some tok
      → w.clock (3 * s.token_calls) < tok.expires
      → ((take_token w ch s).0 ≡ record s { token_calls = s.token_calls + 1 })
        × ((take_token w ch s).1 ≡ token_value tok.value)
  unfolding take_token
  take_known s ch tok hit fresh =
      let k = s.token_calls in
      let e =
        token_fresh (w.clock (3 * k)) (w.clock (3 * k + 1)) (w.clock (3 * k + 2)) (w.grant k ch) ch
          s.tokens tok hit fresh in
      (
        ap (λ (x : Tokens × TokenResult E). record s { tokens = x.0; token_calls = k + 1 }) e,
        ap (λ (x : Tokens × TokenResult E). x.1) e,
      )

  -- If a challenge is remembered for the resource, a token for it is cached and has not expired,
  -- and the registry does not answer the request with this token by status 401, do makes this
  -- one request only and changes neither cache.
  do_request_known :
      (s : ClientState) (r : Response) (ch : AuthChallenge) (tok : CachedToken)
      → get_challenge scope_key s.challenges ≡ some ch
      → lookup (token_key ch) s.tokens ≡ some tok
      → w.clock (3 * s.token_calls) < tok.expires
      → w.answer (length s.sends) tok.value ≡ response r
      → unauthorized r ≡ false
      → do_request w scope_key s
        ≡ some (
          record s { sends = s.sends ++ tok.value ∷ []; token_calls = s.token_calls + 1 },
          response r,
        )
  unfolding do_request send take_token
  do_request_known s r ch tok known hit fresh got fine =
      let (state, value) = take_known s ch tok hit fresh in
      rw (known, do_request, value, got, fine)
        (ap (λ (x : ClientState). some (record x { sends = s.sends ++ tok.value ∷ [] }, response r))
          state)
