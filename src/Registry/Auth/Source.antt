-- ===== src/Registry/Auth/Source.antt =====
-- internal/registry/auth.go: where the token that `take_token` gives comes from.
use maze_registry_ui.Prelude.{
  ℕ, ◌*◌, ◌≤◌, ◌<◌, ◌≡◌, refl, some, arith, inl, inr, Bool-cases, Option-cases,
}
use maze_registry_ui.Prelude.Assoc.{lookup}
use maze_registry_ui.Prelude.Bytes.{Bytes}
use maze_registry_ui.Prelude.Int.{ℤ, le_zero}
use maze_registry_ui.Registry.Challenges.{AuthChallenge}
use maze_registry_ui.Registry.Auth.{
  Tokens, Issued, issued, refused, TokenResult, token_value, token_error, World, ClientState,
  CachedToken, is_valid_at, token_key, fetch_token, token, take_token,
}

module _ {E : Type 0} (w : World E) where
  -- no token that has not expired is cached for the challenge; k counts the calls for a token
  abbrev pub IsMissing : Tokens → ℕ → AuthChallenge → Type 0
  IsMissing tokens k ch =
      (tok : CachedToken) → lookup (token_key ch) tokens ≡ some tok → tok.expires ≤ w.clock (3 * k)

  -- Where a token comes from: the cache, if it has one that has not expired, or else the token
  -- service.
  pub data IsToken (tokens : Tokens) (k : ℕ) (ch : AuthChallenge) : TokenResult E → Type 0 where
    cached :
        (tok : CachedToken)
        → lookup (token_key ch) tokens ≡ some tok
        → w.clock (3 * k) < tok.expires
        → IsToken tokens k ch (token_value tok.value)
    granted :
        (v : Bytes) (l : ℤ)
        → IsMissing tokens k ch
        → w.grant k ch ≡ issued v l
        → IsToken tokens k ch (token_value v)
    denied :
        (e : E)
        → IsMissing tokens k ch
        → w.grant k ch ≡ refused e
        → IsToken tokens k ch (token_error e)

  fetch-IsToken :
      (s : ClientState) (ch : AuthChallenge) (pruned stored : ℕ) (answer : Issued E)
      → IsMissing s.tokens s.token_calls ch
      → w.grant s.token_calls ch ≡ answer
      → IsToken s.tokens s.token_calls ch (fetch_token pruned stored answer ch s.tokens).1
  unfolding fetch_token
  fetch-IsToken s ch pruned stored (refused e) missing h = denied e missing h
  fetch-IsToken s ch pruned stored (issued v l) missing h = elim (Bool-cases (le_zero l)) [
    | inl skip ↦ rw skip (granted v l missing h)
    | inr store ↦ rw store (granted v l missing h)
  ]

  pub take_token-IsToken :
      (s : ClientState) (ch : AuthChallenge)
      → IsToken s.tokens s.token_calls ch (take_token w ch s).1
  unfolding take_token token
  take_token-IsToken s ch = elim (Option-cases (lookup (token_key ch) s.tokens)) [
    | inl e ↦ rw (e, token) (fetch-IsToken s ch _ _ _ (λ tok h. ground (arith, e, h)) refl)
    | inr (tok, e) ↦ elim (Bool-cases (is_valid_at (w.clock (3 * s.token_calls)) tok)) [
      | inl valid ↦ rw (e, token, valid) (cached tok e (ground (arith, valid)))
      | inr stale ↦
          rw (e, token, stale)
            (fetch-IsToken s ch _ _ _ (λ old h. ground (arith, stale, e, h)) refl)
    ]
  ]
