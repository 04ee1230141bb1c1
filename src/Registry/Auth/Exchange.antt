-- ===== src/Registry/Auth/Exchange.antt =====
-- internal/registry/client.go: what `do` asks for, in every case.
use maze_registry_ui.Prelude.{
  ℕ, ◌+◌, ◌≡◌, ◌≢◌, ◌⊎◌, refl, sym, ap, subst, ◌∙◌, List, [], ◌∷◌, ◌++◌, append_assoc, none, some,
  true, length, length-append, arith, inl, inr, Bool-cases, Option-cases,
}
use maze_registry_ui.Prelude.Bytes.{Bytes}
use maze_registry_ui.Registry.Challenges.{AuthChallenge, bearer_challenge}
use maze_registry_ui.Registry.Auth.{
  token_value, token_error, Response, Sent, response, send_error, World, ClientState, send,
  take_token, unauthorized, negotiate, do_request, get_challenge, put_challenge,
}
use maze_registry_ui.Registry.Auth.Handshake.{
  bearer_challenge_ends, Sent-cases, TokenResult-cases, get-put_challenge,
}
use maze_registry_ui.Registry.Auth.Source.{IsToken, take_token-IsToken}

module _ {E : Type 0} (w : World E) where
  -- what was asked of the world since a state: the tokens that were presented, and the number of
  -- calls for a token
  pub record HasAsked (s a : ClientState) (presented : List Bytes) (calls : ℕ) : Type 0 where
    pub sends : a.sends ≡ s.sends ++ presented
    pub token_calls : a.token_calls ≡ s.token_calls + calls

  -- no status 401, or no bearer challenge
  abbrev pub IsSettled : Response → Type 0
  IsSettled r = (r.status_code ≢ 401) ⊎ (bearer_challenge r.www_authenticate ≡ some none)

  module _ (scope_key : Bytes) where
    -- a request without a token, and what follows it
    pub data IsExchange (s : ClientState) (out : ClientState × Sent E) : Type 0 where
      lost :
          (e : E)
          → w.answer (length s.sends) [] ≡ send_error e
          → HasAsked s out.0 ([] ∷ []) 0
          → out.0.challenges ≡ s.challenges
          → out.1 ≡ send_error e
          → IsExchange s out
      settled :
          (r : Response)
          → w.answer (length s.sends) [] ≡ response r
          → IsSettled r
          → HasAsked s out.0 ([] ∷ []) 0
          → out.0.challenges ≡ s.challenges
          → out.1 ≡ response r
          → IsExchange s out
      untokened :
          (r : Response) (ch : AuthChallenge) (e : E)
          → w.answer (length s.sends) [] ≡ response r
          → r.status_code ≡ 401
          → bearer_challenge r.www_authenticate ≡ some (some ch)
          → IsToken w s.tokens s.token_calls ch (token_error e)
          → HasAsked s out.0 ([] ∷ []) 1
          → get_challenge scope_key out.0.challenges ≡ some ch
          → out.1 ≡ send_error e
          → IsExchange s out
      answered :
          (r : Response) (ch : AuthChallenge) (v : Bytes)
          → w.answer (length s.sends) [] ≡ response r
          → r.status_code ≡ 401
          → bearer_challenge r.www_authenticate ≡ some (some ch)
          → IsToken w s.tokens s.token_calls ch (token_value v)
          → HasAsked s out.0 ([] ∷ v ∷ []) 1
          → get_challenge scope_key out.0.challenges ≡ some ch
          → out.1 ≡ w.answer (length s.sends + 1) v
          → IsExchange s out

    challenged :
        (s : ClientState) (r : Response) (ch : AuthChallenge)
        → w.answer (length s.sends) [] ≡ response r
        → unauthorized r ≡ true
        → bearer_challenge r.www_authenticate ≡ some (some ch)
        → (out : ClientState × Sent E) × (negotiate w scope_key s ≡ some out) × IsExchange s out
    unfolding negotiate send
    challenged s r ch got asked e =
        let s₁ : ClientState = record s {
          sends = s.sends ++ [] ∷ [];
          challenges = put_challenge scope_key ch s.challenges;
        } in
        let kept = get-put_challenge w scope_key ch s.challenges in
        let from = take_token-IsToken w s₁ ch in
        elim (TokenResult-cases (take_token w ch s₁).1) [
          | inr (x, bad) ↦ (
            ((take_token w ch s₁).0, send_error x),
            rw (got, negotiate, asked, e, bad) refl,
            untokened r ch x got (ground (arith, asked)) e
                (subst (IsToken w s.tokens s.token_calls ch) bad from)
                (record { sends = refl; token_calls = refl }) kept refl,
          )
          | inl (v, good) ↦ (
            send w v (take_token w ch s₁).0,
            rw (got, negotiate, asked, e, good) refl,
            answered r ch v got (ground (arith, asked)) e
                (subst (IsToken w s.tokens s.token_calls ch) good from)
                (record { sends = append_assoc s.sends ([] ∷ []) (v ∷ []); token_calls = refl })
                kept (ap (λ n. w.answer n v) (length-append s.sends ([] ∷ []))),
          )
        ]

    negotiate_cases :
        (s : ClientState)
        → (out : ClientState × Sent E) × (negotiate w scope_key s ≡ some out) × IsExchange s out
    unfolding negotiate send
    negotiate_cases s =
        let s₁ = (send w [] s).0 in
        let asked_once : HasAsked s s₁ ([] ∷ []) 0 = record {
          sends = refl;
          token_calls = omega arith;
        } in
        elim (Sent-cases (w.answer (length s.sends) [])) [
          | inr (e, bad) ↦
              ((s₁, send_error e), rw (bad, negotiate) refl, lost e bad asked_once refl refl)
          | inl (r, got) ↦ elim (Bool-cases (unauthorized r)) [
            | inr fine ↦ (
              (s₁, response r),
              rw (got, negotiate, fine) refl,
              settled r got (inl (λ h. ground (arith, fine, h))) asked_once refl refl,
            )
            | inl asked ↦
                let (found, e) = bearer_challenge_ends r.www_authenticate in
                elim (Option-cases found) [
                  | inl other ↦
                      let none_found = e ∙ ap some other in
                      (
                        (s₁, response r),
                        rw (got, negotiate, asked, none_found) refl,
                        settled r got (inr none_found) asked_once refl refl,
                      )
                  | inr (ch, bearer) ↦ challenged s r ch got asked (e ∙ ap some bearer)
                ]
          ]
        ]

    -- a request with a token for the challenge that is remembered, if there is one, and the exchange
    -- that follows where there is none or the token is of no use
    pub data IsDone (s : ClientState) (out : ClientState × Sent E) : Type 0 where
      unknown : get_challenge scope_key s.challenges ≡ none → IsExchange s out → IsDone s out
      accepted :
          (ch : AuthChallenge) (v : Bytes)
          → get_challenge scope_key s.challenges ≡ some ch
          → IsToken w s.tokens s.token_calls ch (token_value v)
          → out.1 ≡ w.answer (length s.sends) v
          → ((r : Response) → out.1 ≡ response r → r.status_code ≢ 401)
          → HasAsked s out.0 (v ∷ []) 1
          → out.0.challenges ≡ s.challenges
          → IsDone s out
      rejected :
          (ch : AuthChallenge) (v : Bytes) (r : Response)
          → get_challenge scope_key s.challenges ≡ some ch
          → IsToken w s.tokens s.token_calls ch (token_value v)
          → w.answer (length s.sends) v ≡ response r
          → r.status_code ≡ 401
          → IsExchange (send w v (take_token w ch s).0).0 out
          → IsDone s out
      unavailable :
          (ch : AuthChallenge) (e : E)
          → get_challenge scope_key s.challenges ≡ some ch
          → IsToken w s.tokens s.token_calls ch (token_error e)
          → IsExchange (take_token w ch s).0 out
          → IsDone s out

    -- do always returns, and what it does is one of these. If no challenge is remembered for the
    -- resource, it makes a request without a token: a lost request is returned, and so is an
    -- answer of another status than 401 or without a bearer challenge, with no call for a token.
    -- At a status 401 with a bearer challenge it remembers the challenge and asks exactly once
    -- for a token, which is that of the cache if one is cached for the challenge and has not
    -- expired, and otherwise that of the token service; an error of the token service is
    -- returned, and with a token exactly one more request is made, with this token, whose
    -- outcome is returned. If a challenge is remembered, a token for it, from the same two
    -- places, is presented with the first request, whose outcome is returned unless it is a
    -- status 401; at a status 401, or without a token, the exchange of the first case follows.
    pub do_request_cases :
        (s : ClientState)
        → (out : ClientState × Sent E) × (do_request w scope_key s ≡ some out) × IsDone s out
    unfolding do_request send take_token
    do_request_cases s = elim (Option-cases (get_challenge scope_key s.challenges)) [
      | inl new ↦
          let (out, e, x) = negotiate_cases s in (out, rw (new, do_request) e, unknown new x)
      | inr (ch, known) ↦
          let s₁ = (take_token w ch s).0 in
          let from = take_token-IsToken w s ch in
          elim (TokenResult-cases (take_token w ch s).1) [
            | inr (e, bad) ↦
                let (out, run, x) = negotiate_cases s₁ in
                (
                  out,
                  rw (known, do_request, bad) run,
                  unavailable ch e known (subst (IsToken w s.tokens s.token_calls ch) bad from) x,
                )
            | inl (v, good) ↦
                let token = subst (IsToken w s.tokens s.token_calls ch) good from in
                let s₂ = (send w v s₁).0 in
                let once : HasAsked s s₂ (v ∷ []) 1 = record {
                  sends = refl;
                  token_calls = omega arith;
                } in
                elim (Sent-cases (w.answer (length s.sends) v)) [
                  | inr (e, bad) ↦ (
                    (s₂, send_error e),
                    rw (known, do_request, good, bad) refl,
                    accepted ch v known token (sym bad) (λ r h. absurd (ground (arith, h))) once
                        refl,
                  )
                  | inl (r, got) ↦ elim (Bool-cases (unauthorized r)) [
                    | inr fine ↦ (
                      (s₂, response r),
                      rw (known, do_request, good, got, fine) refl,
                      accepted ch v known token (sym got) (λ q h. ground (arith, fine, h)) once
                          refl,
                    )
                    | inl asked ↦
                        let (out, run, x) = negotiate_cases s₂ in
                        (
                          out,
                          rw (known, do_request, good, got, asked) run,
                          rejected ch v r known token got (ground (arith, asked)) x,
                        )
                  ]
                ]
          ]
    ]
