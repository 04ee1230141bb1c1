-- ===== src/Registry/Challenges.antt =====
-- internal/registry/auth.go: `parseChallenges`, the scanner of WWW-Authenticate headers. A
-- position in the header is the suffix that starts there.
pub mod Ends
use maze_registry_ui.Prelude.{
  ℕ, zero, suc, ◌+◌, List, [], ◌∷◌, ◌++◌, Bool, true, false, ◌&&◌, ◌||◌, Option, none, some, leb,
  ◌==◌, if◌then◌else◌, length,
}
use maze_registry_ui.Prelude.Assoc.{lookup, insert}
use maze_registry_ui.Prelude.Bytes.{Bytes, codes, is_empty}
use maze_registry_ui.Prelude.Text.{to_lower, equal_fold, trim_left}

-- `authChallenge`
pub record AuthChallenge : Type 0 where
  pub scheme : Bytes
  pub params : List (Bytes × Bytes)

-- `authChallenge.param`: a missing key reads as the empty string
unfoldable pub param : Bytes → AuthChallenge → Bytes
unfolding lookup
param name c = elim (lookup name c.params) [ none ↦ [] | some v ↦ v ]

abbrev between : ℕ → ℕ → ℕ → Bool
between a b c = leb a c && leb c b

abbrev one_of : Bytes → ℕ → Bool
one_of [] c = false
one_of (x ∷ xs) c = c == x || one_of xs c

unfoldable pub is_token_char : ℕ → Bool
is_token_char b =
    between b'a' b'z' b
    || between b'A' b'Z' b
    || between b'0' b'9' b
    || one_of (codes "!#$%&'*+-.^_`|~") b

unfoldable pub is_blank : ℕ → Bool
is_blank c = c == b' ' || c == 9

unfoldable pub is_separator : ℕ → Bool
is_separator c = c == b' ' || (c == 9 || c == b',')

unfoldable pub skip_separators : Bytes → Bytes
unfolding is_separator trim_left
skip_separators s = trim_left is_separator s

unfoldable pub skip_space : Bytes → Bytes
unfolding is_blank trim_left
skip_space s = trim_left is_blank s

-- the token, and what follows it
unfoldable pub read_token : Bytes → Bytes × Bytes
read_token [] = ([], [])
read_token (c ∷ s) =
    let rest = read_token s in if is_token_char c then (c ∷ rest.0, rest.1) else ([], c ∷ s)

-- the quoted string whose opening quote has been read, and what follows it
unfoldable pub read_quoted : Bytes → Bytes × Bytes
read_quoted [] = ([], [])
read_quoted (c ∷ []) = if c == b'"' then ([], []) else (c ∷ [], [])
read_quoted (c ∷ d ∷ s) =
    let escaped = read_quoted s in
    let plain = read_quoted (d ∷ s) in
    if c == b'\\'
    then (d ∷ escaped.0, escaped.1)
    else if c == b'"'
    then ([], d ∷ s)
    else (c ∷ plain.0, plain.1)

unfoldable pub read_value : Bytes → Bytes × Bytes
unfolding read_token read_quoted
read_value [] = read_token []
read_value (c ∷ s) = if c == b'"' then read_quoted s else read_token (c ∷ s)

-- what follows an equals sign that stands first
unfoldable pub after_equals : Bytes → Option Bytes
after_equals [] = none
after_equals (c ∷ s) = if c == b'=' then some s else none

-- the inner loop: the parameters of a challenge, and what follows them
unfoldable pub params_loop :
    ℕ → Bytes → List (Bytes × Bytes) → Option (List (Bytes × Bytes) × Bytes)
unfolding skip_separators skip_space read_value read_token after_equals to_lower insert
params_loop zero s params = none
params_loop (suc fuel) s params =
    let start = skip_separators s in
    let (key, u) = read_token start in
    if is_empty start
    then some (params, start)
    else if is_empty key
    then some (params, s)
    else elim (after_equals (skip_space u)) [
      | none ↦ some (params, s)
      | some v ↦
          let (value, rest) = read_value (skip_space v) in
          params_loop fuel rest (insert (to_lower key) value params)
    ]

abbrev pub tail : Bytes → Bytes
tail [] = []
tail (c ∷ s) = s

-- the outer loop
unfoldable pub challenges_loop : ℕ → Bytes → List AuthChallenge → Option (List AuthChallenge)
unfolding skip_separators read_token params_loop
challenges_loop zero s out = none
challenges_loop (suc fuel) s out =
    let start = skip_separators s in
    let (scheme, u) = read_token start in
    let stepped = challenges_loop fuel (tail start) out in
    if is_empty start
    then some out
    else if is_empty scheme
    then stepped
    else elim (params_loop (length s + 1) u []) [
      | none ↦ none
      | some (params, rest) ↦
          challenges_loop fuel rest (out ++ record { scheme = scheme; params = params } ∷ [])
    ]

unfoldable pub parse_challenges : Bytes → Option (List AuthChallenge)
unfolding challenges_loop
parse_challenges header = challenges_loop (length header + 1) header []

unfoldable pub first_bearer : List AuthChallenge → Option AuthChallenge
unfolding equal_fold
first_bearer [] = none
first_bearer (c ∷ cs) =
    let rest = first_bearer cs in if equal_fold c.scheme (codes "bearer") then some c else rest

-- `bearerChallenge`: `none` in the outer option is a scan that did not end
unfoldable pub bearer_challenge : List Bytes → Option (Option AuthChallenge)
unfolding parse_challenges first_bearer
bearer_challenge [] = some none
bearer_challenge (v ∷ vs) =
    let rest = bearer_challenge vs in
    elim (parse_challenges v) [
      | none ↦ none
      | some cs ↦ elim (first_bearer cs) [ none ↦ rest | some c ↦ some (some c) ]
    ]
