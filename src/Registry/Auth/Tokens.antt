-- ===== src/Registry/Auth/Tokens.antt =====
-- internal/registry/auth.go: how long a token is used, and the bounds of the two caches.
use maze_registry_ui.Prelude.{
  ℕ, ◌+◌, ◌-◌, ◌*◌, ◌^◌, ◌≤◌, ◌<◌, ◌≡◌, ◌⊎◌, refl, ◌∙◌, [], Option, none, some, true, false, ltb,
  leb, length, arith, min, inl, inr, Bool-cases, Option-cases,
}
use maze_registry_ui.Prelude.Assoc.{lookup, insert, length-insert, lookup-insert}
use maze_registry_ui.Prelude.Bytes.{Bytes, bytes_eq_refl}
use maze_registry_ui.Prelude.Int.{ℤ, le_zero, pos_part}
use maze_registry_ui.Registry.Challenges.{AuthChallenge}
use maze_registry_ui.Registry.Auth.{
  Tokens, CachedToken, is_valid_at, prune_locked, Issued, issued, refused, token_value, token_key,
  fetch_token, token, advertised, remaining, cache_lifetime, max_token_entries,
  max_challenge_entries, Challenges, put_challenge, get_challenge, time_add,
}

advertised_lem :
    (n : ℕ) → 0 < n → n * 1000000000 < 2 ^ 63 → advertised (ℤ.pos n) ≡ ℤ.pos (n * 1000000000)
unfolding advertised
advertised_lem n p h = ground arith

-- when the token began to live, as far as the response tells
abbrev pub start : Option ℕ → ℕ → ℕ
start none now = now
start (some at) now = min at now

-- If the token service advertises a lifetime of n seconds, n positive and n seconds below 2^63
-- nanoseconds, and the issue time, if any, is no more than 2^62 nanoseconds ago, the lifetime in
-- the cache is 0 or ends at least ten seconds before n seconds after the issue time, or after
-- now if the issue time is missing or in the future.
pub cache_lifetime_safe :
    (n now : ℕ) (issued_at : Option ℕ)
    → 0 < n
    → n * 1000000000 < 2 ^ 63
    → now < 2 ^ 62 + start issued_at now
    → (cache_lifetime (ℤ.pos n) issued_at now ≡ ℤ.pos 0)
      ⊎ (now + pos_part (cache_lifetime (ℤ.pos n) issued_at now) + 10 * 1000000000
          ≤ start issued_at now + n * 1000000000)
unfolding cache_lifetime remaining
cache_lifetime_safe n now none p h d = rw (advertised_lem n p h) (ground arith)
cache_lifetime_safe n now (some at) p h d = rw (advertised_lem n p h) (ground arith)

prune_lt : (now : ℕ) (t : Tokens) → length (prune_locked now t) < max_token_entries
unfolding prune_locked
prune_lt now t = ground arith

module _ {E : Type 0} where
  fetch_bounded :
      (pruned stored : ℕ) (answer : Issued E) (ch : AuthChallenge) (t : Tokens)
      → length t ≤ max_token_entries
      → length (fetch_token pruned stored answer ch t).0 ≤ max_token_entries
  unfolding fetch_token
  fetch_bounded pruned stored (refused e) ch t h = h
  fetch_bounded pruned stored (issued v l) ch t h = elim (Bool-cases (le_zero l)) [
    | inl skip ↦ rw skip h
    | inr store ↦
        let tok : CachedToken = record { value = v; expires = time_add stored l } in
        rw store (
          omega
            (arith, length-insert (token_key ch) tok (prune_locked pruned t), prune_lt pruned t))
  ]

  -- tokenCache.token keeps the cache at no more than 256 tokens.
  token_bounded :
      (now pruned stored : ℕ) (answer : Issued E) (ch : AuthChallenge) (t : Tokens)
      → length t ≤ max_token_entries
      → length (token now pruned stored answer ch t).0 ≤ max_token_entries
  unfolding token
  token_bounded now pruned stored answer ch t h = elim (Option-cases (lookup (token_key ch) t)) [
    | inl miss ↦ rw (miss, token) (fetch_bounded pruned stored answer ch t h)
    | inr (tok, hit) ↦ elim (Bool-cases (is_valid_at now tok)) [
      | inl valid ↦ rw (hit, token, valid) h
      | inr stale ↦ rw (hit, token, stale) (fetch_bounded pruned stored answer ch t h)
    ]
  ]

  token_stored :
      (now pruned stored l : ℕ) (v : Bytes) (ch : AuthChallenge) (t : Tokens)
      → lookup (token_key ch) t ≡ none
      → 0 < l
      → token {E = E} now pruned stored (issued v (ℤ.pos l)) ch t ≡ (
        insert (token_key ch) (record { value = v; expires = stored + l }) (prune_locked pruned t),
        token_value v,
      )
  unfolding token
  token_stored now pruned stored l v ch t miss h =
      let room : leb l 0 ≡ false = ground arith in
      let sum : stored + l - 0 ≡ stored + l = omega arith in
      rw (miss, token, fetch_token, room, sum) refl

  pub token_fresh :
      (now pruned stored : ℕ) (answer : Issued E) (ch : AuthChallenge) (t : Tokens)
      (tok : CachedToken)
      → lookup (token_key ch) t ≡ some tok
      → now < tok.expires
      → token now pruned stored answer ch t ≡ (t, token_value tok.value)
  unfolding token
  token_fresh now pruned stored answer ch t tok hit h =
      let valid : ltb now tok.expires ≡ true = ground arith in rw (hit, token, valid) refl

  -- A token that is fetched because none is cached for the challenge, with a positive lifetime,
  -- is returned, and any later call for the challenge before the lifetime is over returns it
  -- from the cache without using the token service.
  token_again :
      (now pruned stored now' pruned' stored' l : ℕ) (v : Bytes) (answer : Issued E)
      (ch : AuthChallenge) (t : Tokens)
      → lookup (token_key ch) t ≡ none
      → 0 < l
      → now' < stored + l
      → ((token {E = E} now pruned stored (issued v (ℤ.pos l)) ch t).1 ≡ token_value v)
        × (token now' pruned' stored' answer ch
              (token {E = E} now pruned stored (issued v (ℤ.pos l)) ch t).0
            ≡ token {E = E} now pruned stored (issued v (ℤ.pos l)) ch t)
  token_again now pruned stored now' pruned' stored' l v answer ch t miss h soon =
      let tok : CachedToken = record { value = v; expires = stored + l } in
      let here : lookup (token_key ch) (insert (token_key ch) tok (prune_locked pruned t))
          ≡ some tok =
        lookup-insert (token_key ch) (token_key ch) tok (prune_locked pruned t)
        ∙ rw (bytes_eq_refl (token_key ch)) refl in
      rw (token_stored now pruned stored l v ch t miss h)
        (refl, token_fresh now' pruned' stored' answer ch _ tok here soon)

-- challengeCache.put keeps the cache at no more than 512 challenges, and a get of the key then
-- finds the challenge.
put_challenge-get :
    (key : Bytes) (ch : AuthChallenge) (m : Challenges)
    → length m ≤ max_challenge_entries
    → (length (put_challenge key ch m) ≤ max_challenge_entries)
      × (get_challenge key (put_challenge key ch m) ≡ some ch)
unfolding put_challenge get_challenge
put_challenge-get key ch m h = ground (
  arith,
  length-insert key ch m,
  length-insert key ch [],
  lookup-insert key key ch m,
  lookup-insert key key ch [],
  bytes_eq_refl key,
)
