-- ===== src/Registry/Auth.antt =====
-- internal/registry/auth.go and `do` of client.go: bearer tokens, the challenges that a registry
-- has issued, and the handshake.
pub mod Tokens
pub mod Handshake
pub mod Source
pub mod Exchange
use maze_registry_ui.Prelude.{
  ℕ, suc, ◌+◌, ◌-◌, ◌*◌, ◌%◌, ◌^◌, List, [], ◌∷◌, ◌++◌, Bool, Option, none, some, true, false, ltb,
  leb, ◌==◌, if◌then◌else◌, length, not,
}
use maze_registry_ui.Prelude.Assoc.{lookup, insert, keep}
use maze_registry_ui.Prelude.Bytes.{Bytes, codes}
use maze_registry_ui.Prelude.Int.{ℤ, sub_ℕ, le_zero, is_negative, pos_part, neg_part}
use maze_registry_ui.Registry.Challenges.{AuthChallenge, param, first_bearer, bearer_challenge}

-- durations in nanoseconds
abbrev pub token_safety_margin : ℕ
token_safety_margin = 10000000000

abbrev pub default_token_lifetime : ℕ
default_token_lifetime = 60000000000

abbrev pub max_token_entries : ℕ
max_token_entries = 256

abbrev pub max_challenge_entries : ℕ
max_challenge_entries = 512

pub record CachedToken : Type 0 where
  pub value : Bytes
  pub expires : ℕ

-- `tokenCache`
abbrev pub Tokens : Type 0
Tokens = List (Bytes × CachedToken)

unfoldable pub token_key : AuthChallenge → Bytes
unfolding param
token_key ch =
    param (codes "realm") ch ++ 0 ∷ param (codes "service") ch ++ 0 ∷ param (codes "scope") ch

abbrev pub is_valid_at : ℕ → CachedToken → Bool
is_valid_at now t = ltb now t.expires

unfoldable pub prune_locked : ℕ → Tokens → Tokens
unfolding keep
prune_locked now t =
    let live = keep (is_valid_at now) t in
    if ltb (length t) max_token_entries
    then t
    else if leb max_token_entries (length live)
    then []
    else live

-- the value and the lifetime that `requestToken` returns, or its error
pub data Issued (E : Type 0) : Type 0 where
  issued : Bytes → ℤ → Issued E
  refused : E → Issued E

-- What `token` returns: the token, if there is no error.
pub data TokenResult (E : Type 0) : Type 0 where
  token_value : Bytes → TokenResult E
  token_error : E → TokenResult E

-- a two's complement word of 64 bits, and the integer that it stands for
abbrev pub to_word : ℤ → ℕ
to_word (ℤ.pos n) = n % 2 ^ 64
to_word (ℤ.negsuc n) = 2 ^ 64 - 1 - n % 2 ^ 64

abbrev pub of_word : ℕ → ℤ
of_word w = if ltb w (2 ^ 63) then ℤ.pos w else ℤ.negsuc (2 ^ 64 - 1 - w)

-- `time.Time.Sub`, which stops at the least and the greatest duration
abbrev pub time_sub : ℕ → ℕ → ℤ
time_sub a b =
    if leb (2 ^ 63) (a - b)
    then ℤ.pos (2 ^ 63 - 1)
    else if leb (2 ^ 63) (b - a)
    then ℤ.negsuc (2 ^ 63 - 1)
    else sub_ℕ a b

-- `time.Time.Add`; the clock does not reach below 0
abbrev pub time_add : ℕ → ℤ → ℕ
time_add t d = t + pos_part d - neg_part d

-- `a < b` on durations
abbrev pub duration_lt : ℤ → ℤ → Bool
duration_lt (ℤ.pos a) (ℤ.pos b) = ltb a b
duration_lt (ℤ.pos a) (ℤ.negsuc b) = false
duration_lt (ℤ.negsuc a) (ℤ.pos b) = true
duration_lt (ℤ.negsuc a) (ℤ.negsuc b) = ltb b a

-- the lifetime that the response advertises
unfoldable pub advertised : ℤ → ℤ
advertised expires_in =
    let lifetime = of_word (to_word expires_in * 1000000000 % 2 ^ 64) in
    if le_zero lifetime then ℤ.pos default_token_lifetime else lifetime

-- how much of it is left; `issued_at` is `none` for the zero time
unfoldable pub remaining : ℤ → Option ℕ → ℕ → ℤ
remaining lifetime none now = lifetime
remaining lifetime (some at) now =
    let left = time_sub (time_add at lifetime) now in
    if duration_lt left lifetime then left else lifetime

-- the end of `requestToken`: for how long the token may be cached
unfoldable pub cache_lifetime : ℤ → Option ℕ → ℕ → ℤ
unfolding advertised remaining
cache_lifetime expires_in issued_at now =
    let lifetime = of_word (
      (to_word (remaining (advertised expires_in) issued_at now) + (2 ^ 64 - token_safety_margin))
      % 2 ^ 64) in
    if is_negative lifetime then ℤ.pos 0 else lifetime

module _ {E : Type 0} where
  -- `tokenCache.token` where no valid token is cached
  unfoldable pub fetch_token : ℕ → ℕ → Issued E → AuthChallenge → Tokens → Tokens × TokenResult E
  unfolding insert
  fetch_token pruned stored (refused e) ch t = (t, token_error e)
  fetch_token pruned stored (issued value lifetime) ch t =
      if not (le_zero lifetime)
      then (
        insert (token_key ch) (record { value = value; expires = time_add stored lifetime })
            (prune_locked pruned t),
        token_value value,
      )
      else (t, token_value value)

  -- `tokenCache.token`, under its lock. The clock is read at `now`, and again at `pruned` and at
  -- `stored`; `answer` is what `requestToken` would return.
  unfoldable pub token : ℕ → ℕ → ℕ → Issued E → AuthChallenge → Tokens → Tokens × TokenResult E
  unfolding fetch_token lookup
  token now pruned stored answer ch t = elim (lookup (token_key ch) t) [
    | none ↦ fetch_token pruned stored answer ch t
    | some tok ↦
        if is_valid_at now tok
        then (t, token_value tok.value)
        else fetch_token pruned stored answer ch t
  ]

-- `challengeCache`
abbrev pub Challenges : Type 0
Challenges = List (Bytes × AuthChallenge)

unfoldable pub get_challenge : Bytes → Challenges → Option AuthChallenge
unfolding lookup
get_challenge key m = lookup key m

unfoldable pub put_challenge : Bytes → AuthChallenge → Challenges → Challenges
unfolding insert
put_challenge key ch m =
    if leb max_challenge_entries (length m) then insert key ch [] else insert key ch m

-- what a response carries, as far as the client looks at it
pub record Response : Type 0 where
  pub status_code : ℕ
  pub www_authenticate : List Bytes
  -- the first value of each other header, under its canonical name
  pub headers : List (Bytes × Bytes)
  pub content_length : ℤ
  pub body : Bytes
  -- reading fails after `body`, where it should end
  pub broken : Bool

-- the outcome of one HTTP request, and of `do`
pub data Sent (E : Type 0) : Type 0 where
  response : Response → Sent E
  send_error : E → Sent E

-- The outside world: the k-th request that `send` makes, given the token that it presents, the
-- k-th run of `requestToken`, and the k-th reading of the clock.
pub record World (E : Type 0) : Type 0 where
  pub answer : ℕ → Bytes → Sent E
  pub grant : ℕ → AuthChallenge → Issued E
  pub clock : ℕ → ℕ

-- The state of a client, with what it has asked of the world.
pub record ClientState : Type 0 where
  pub tokens : Tokens
  pub challenges : Challenges
  pub sends : List Bytes
  pub token_calls : ℕ

abbrev pub unauthorized : Response → Bool
unauthorized r = r.status_code == 401

module _ {E : Type 0} where
  -- `send`: the token that each request presents is kept, in the order of the requests
  unfoldable pub send : World E → Bytes → ClientState → ClientState × Sent E
  send w bearer s = (record s { sends = s.sends ++ bearer ∷ [] }, w.answer (length s.sends) bearer)

  unfoldable pub take_token : World E → AuthChallenge → ClientState → ClientState × TokenResult E
  unfolding token
  take_token w ch s =
      let k = s.token_calls in
      let (t, r) =
        token (w.clock (3 * k)) (w.clock (3 * k + 1)) (w.clock (3 * k + 2)) (w.grant k ch) ch
          s.tokens in
      (record s { tokens = t; token_calls = k + 1 }, r)

  -- `do` from its second part on: a request without a token, and one with the token that the
  -- response asks for
  unfoldable pub negotiate : World E → Bytes → ClientState → Option (ClientState × Sent E)
  unfolding send bearer_challenge put_challenge take_token
  negotiate w scope_key s =
      let (s₁, sent) = send w [] s in
      elim sent [
        | send_error e ↦ some (s₁, send_error e)
        | response r ↦
            if not (unauthorized r)
            then some (s₁, response r)
            else elim (bearer_challenge r.www_authenticate) [
              | none ↦ none
              | some none ↦ some (s₁, response r)
              | some (some ch) ↦
                  let (s₂, taken) =
                    take_token w ch
                      (record s₁ { challenges = put_challenge scope_key ch s₁.challenges }) in
                  elim taken [
                    | token_error e ↦ some (s₂, send_error e)
                    | token_value v ↦ some (send w v s₂)
                  ]
            ]
      ]

  -- `do`; `scope_key` is `authScopeKey` of its URL
  unfoldable pub do_request : World E → Bytes → ClientState → Option (ClientState × Sent E)
  unfolding negotiate send get_challenge take_token
  do_request w scope_key s = elim (get_challenge scope_key s.challenges) [
    | none ↦ negotiate w scope_key s
    | some known ↦
        let (s₁, taken) = take_token w known s in
        elim taken [
          | token_error e ↦ negotiate w scope_key s₁
          | token_value v ↦
              let (s₂, sent) = send w v s₁ in
              elim sent [
                | send_error e ↦ some (s₂, send_error e)
                | response r ↦
                    if not (unauthorized r) then some (s₂, response r) else negotiate w scope_key s₂
              ]
        ]
  ]
