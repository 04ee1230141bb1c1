-- ===== src/Registry/Challenges/Ends.antt =====
-- internal/registry/auth.go: the loops of `parseChallenges` end, and what the challenges look like.
use maze_registry_ui.Prelude.{
  ℕ, zero, suc, ◌+◌, ◌≤◌, ◌<◌, ◌≡◌, refl, List, [], ◌∷◌, ◌++◌, Bool, true, false, ◌&&◌, not, some,
  length, arith, inl, inr, Bool-cases, Option-cases,
}
use maze_registry_ui.Prelude.Assoc.{insert}
use maze_registry_ui.Prelude.Bytes.{Bytes, is_empty}
use maze_registry_ui.Prelude.Text.{to_lower, trim_left}
use maze_registry_ui.Registry.Challenges.{
  AuthChallenge, is_token_char, skip_separators, skip_space, read_token, read_quoted, read_value,
  after_equals, params_loop, tail, challenges_loop, parse_challenges,
}

trim_left_le : (p : ℕ → Bool) (s : Bytes) → length (trim_left p s) ≤ length s
unfolding trim_left
trim_left_le p [] = omega arith
trim_left_le p (x ∷ s) = ground (arith, trim_left_le p s)

read_token_size : (s : Bytes) → length (read_token s).0 + length (read_token s).1 ≡ length s
unfolding read_token
read_token_size [] = omega arith
read_token_size (c ∷ s) = ground (arith, read_token_size s)

read_quoted_le : (s : Bytes) → length (read_quoted s).1 ≤ length s
unfolding read_quoted
read_quoted_le [] = omega arith
read_quoted_le (c ∷ []) = ground arith
read_quoted_le (c ∷ d ∷ s) = ground (arith, read_quoted_le s, read_quoted_le (d ∷ s))

read_value_le : (s : Bytes) → length (read_value s).1 ≤ length s
unfolding read_value
read_value_le [] = ground (arith, read_token_size [])
read_value_le (c ∷ s) = ground (arith, read_quoted_le s, read_token_size (c ∷ s))

after_equals_lt : (s v : Bytes) → after_equals s ≡ some v → length v < length s
unfolding after_equals
after_equals_lt [] v h = ground arith
after_equals_lt (c ∷ s) v h = ground arith

skip_separators_le : (s : Bytes) → length (skip_separators s) ≤ length s
unfolding skip_separators
skip_separators_le s = trim_left_le _ s

skip_space_le : (s : Bytes) → length (skip_space s) ≤ length s
unfolding skip_space
skip_space_le s = trim_left_le _ s

params_loop_ends :
    (fuel : ℕ) (s : Bytes) (params : List (Bytes × Bytes))
    → length s < fuel
    → (r : List (Bytes × Bytes) × Bytes) × (params_loop fuel s params ≡ some r)
      × (length r.1 ≤ length s)
unfolding params_loop
params_loop_ends zero s params h = absurd (omega arith)
params_loop_ends (suc fuel) s params h =
    let start = skip_separators s in
    let u = (read_token start).1 in
    elim (Bool-cases (is_empty start)) [
      | inl end ↦ ((params, start), rw end refl, skip_separators_le s)
      | inr go ↦ elim (Bool-cases (is_empty (read_token start).0)) [
        | inl bare ↦ ((params, s), rw (go, bare) refl, omega arith)
        | inr key ↦ elim (Option-cases (after_equals (skip_space u))) [
          | inl scheme ↦ ((params, s), rw (go, key, scheme) refl, omega arith)
          | inr (v, eq) ↦
              let (value, rest) = read_value (skip_space v) in
              let shorter : length rest < length s = omega (
                arith,
                read_value_le (skip_space v),
                skip_space_le v,
                after_equals_lt (skip_space u) v eq,
                skip_space_le u,
                read_token_size start,
                skip_separators_le s,
              ) in
              let (r, e, l) =
                params_loop_ends fuel rest (insert (to_lower (read_token start).0) value params)
                  (omega (arith, shorter)) in
              (r, rw (go, key, eq) e, omega (arith, shorter, l))
        ]
      ]
    ]

tail_le : (s : Bytes) → is_empty s ≡ false → length (tail s) < length s
tail_le [] h = ground arith
tail_le (c ∷ s) h = omega arith

abbrev pub all_of : Bytes → Bool
all_of [] = true
all_of (c ∷ s) = is_token_char c && all_of s

-- a string of token characters that is not empty
unfoldable pub is_token : Bytes → Bool
is_token s = not (is_empty s) && all_of s

is_token_of : (s : Bytes) → is_empty s ≡ false → all_of s ≡ true → is_token s ≡ true
unfolding is_token
is_token_of s h t = rw (h, t) refl

nonempty_size : (s : Bytes) → is_empty s ≡ false → 0 < length s
nonempty_size [] h = ground arith
nonempty_size (c ∷ s) h = omega arith

-- Every scheme is a token.
abbrev pub all_schemes : List AuthChallenge → Bool
all_schemes [] = true
all_schemes (c ∷ cs) = is_token c.scheme && all_schemes cs

all_schemes-append :
    (cs : List AuthChallenge) (c : AuthChallenge)
    → all_schemes cs ≡ true
    → is_token c.scheme ≡ true
    → all_schemes (cs ++ c ∷ []) ≡ true
all_schemes-append [] c h t = ground (arith, t)
all_schemes-append (d ∷ cs) c h t = ground (arith, all_schemes-append cs c)

read_token-all : (s : Bytes) → all_of (read_token s).0 ≡ true
unfolding read_token
read_token-all [] = refl
read_token-all (c ∷ s) = elim (Bool-cases (is_token_char c)) [
  | inl e ↦ rw e (rw e (read_token-all s))
  | inr e ↦ rw e refl
]

challenges_loop_ends :
    (fuel : ℕ) (s : Bytes) (out : List AuthChallenge)
    → length s < fuel
    → all_schemes out ≡ true
    → (cs : List AuthChallenge) × (challenges_loop fuel s out ≡ some cs) × (all_schemes cs ≡ true)
unfolding challenges_loop
challenges_loop_ends zero s out h t = absurd (omega arith)
challenges_loop_ends (suc fuel) s out h t =
    let start = skip_separators s in
    let (scheme, u) = read_token start in
    elim (Bool-cases (is_empty start)) [
      | inl end ↦ (out, rw end refl, t)
      | inr go ↦ elim (Bool-cases (is_empty scheme)) [
        | inl bare ↦
            let (cs, e, w) =
              challenges_loop_ends fuel (tail start) out
                (omega (arith, tail_le start go, skip_separators_le s)) t in
            (cs, rw (go, bare) e, w)
        | inr named ↦
            let inside = skip_separators_le s in
            let parts = read_token_size start in
            let (r, e, l) = params_loop_ends (length s + 1) u [] (omega (arith, inside, parts)) in
            let c : AuthChallenge = record { scheme = scheme; params = r.0 } in
            let token : is_token scheme ≡ true = is_token_of scheme named (read_token-all start) in
            let (cs, e', w) =
              challenges_loop_ends fuel r.1 (out ++ c ∷ [])
                (omega (arith, inside, parts, l, nonempty_size scheme named))
                (all_schemes-append out c t token) in
            (cs, rw (go, named, e) e', w)
      ]
    ]

-- parseChallenges ends on every header, each loop within as many rounds as the header has bytes
-- and one more, and the scheme of every challenge that it finds is a nonempty string of token
-- characters.
pub parse_challenges_ends :
    (header : Bytes)
    → (cs : List AuthChallenge) × (parse_challenges header ≡ some cs) × (all_schemes cs ≡ true)
unfolding parse_challenges
parse_challenges_ends header = challenges_loop_ends (length header + 1) header [] (omega arith) refl
