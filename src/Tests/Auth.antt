-- ===== src/Tests/Auth.antt =====
-- `parseChallenges`, the token cache and `do` on small inputs.
use maze_registry_ui.Prelude.{
  ◌≡◌, refl, ℕ, ◌+◌, ◌*◌, ◌^◌, ◌-◌, ◌≤◌, ◌⊎◌, List, [], ◌∷◌, some, true, false, arith, length,
}
use maze_registry_ui.Prelude.Assoc.{lookup, insert, keep}
use maze_registry_ui.Prelude.Bytes.{Bytes, codes, bytes_eq}
use maze_registry_ui.Prelude.Int.{ℤ, pos_part}
use maze_registry_ui.Prelude.Text.{to_lower, equal_fold, trim_left}
use maze_registry_ui.Registry.Challenges.{
  AuthChallenge, param, is_token_char, is_blank, is_separator, skip_separators, skip_space,
  read_token, read_quoted, read_value, after_equals, params_loop, challenges_loop, parse_challenges,
  first_bearer, bearer_challenge,
}
use maze_registry_ui.Registry.Challenges.Ends.{all_schemes, parse_challenges_ends}
use maze_registry_ui.Registry.Auth.{
  prune_locked, issued, fetch_token, token, token_key, advertised, remaining, cache_lifetime,
  Response, Sent, response, World, ClientState, send, take_token, negotiate, do_request,
  get_challenge, put_challenge,
}
use maze_registry_ui.Registry.Auth.Tokens.{start, cache_lifetime_safe}
use maze_registry_ui.Registry.Auth.Exchange.{IsDone, do_request_cases}
use maze_registry_ui.Registry.Auth.Handshake.{do_request_ends}

program : Unit {0}
unfolding lookup insert keep bytes_eq to_lower equal_fold trim_left param is_token_char is_blank
    is_separator skip_separators skip_space read_token read_quoted read_value after_equals
    params_loop challenges_loop parse_challenges first_bearer bearer_challenge prune_locked
    fetch_token token token_key advertised remaining cache_lifetime send take_token negotiate
    do_request get_challenge put_challenge
program = tt

abbrev header : Bytes
header = codes "Basic, Bearer realm=\"r\",Scope=\"a:pull,push\""

abbrev bearer : AuthChallenge
bearer = record {
  scheme = codes "Bearer";
  params = (codes "realm", codes "r") ∷ (codes "scope", codes "a:pull,push") ∷ [];
}

parsed :
    parse_challenges header ≡ some (record { scheme = codes "Basic"; params = [] } ∷ bearer ∷ [])
unfolding program
parsed = refl

picked : bearer_challenge (header ∷ []) ≡ some (some bearer)
unfolding program
picked = refl

parse_challenges_ends_example :
    (cs : List AuthChallenge) × (parse_challenges header ≡ some cs) × (all_schemes cs ≡ true)
parse_challenges_ends_example = parse_challenges_ends header

-- a token of 300 seconds that was issued 20 seconds ago
lifetime : cache_lifetime (ℤ.pos 300) (some 100000000000) 120000000000 ≡ ℤ.pos 270000000000
unfolding program
lifetime = refl

-- an issue time of 2^63 nanoseconds ago
wrapped : cache_lifetime (ℤ.pos 300) (some 0) (2 ^ 63 + 300000000000) ≡ ℤ.pos (2 ^ 63 - 10000000000)
unfolding program
wrapped = refl

cache_lifetime_safe_example :
    (cache_lifetime (ℤ.pos 300) (some 100000000000) 120000000000 ≡ ℤ.pos 0)
    ⊎ (120000000000
          + pos_part (cache_lifetime (ℤ.pos 300) (some 100000000000) 120000000000)
          + 10 * 1000000000
        ≤ start (some 100000000000) 120000000000 + 300 * 1000000000)
cache_lifetime_safe_example =
    cache_lifetime_safe 300 120000000000 (some 100000000000) (omega arith) (omega arith)
      (omega arith)

abbrev challenge : Response
challenge = record {
  status_code = 401;
  www_authenticate = header ∷ [];
  headers = [];
  content_length = ℤ.pos 0;
  body = [];
  broken = false;
}

abbrev fine : Response
fine = record {
  status_code = 200;
  www_authenticate = [];
  headers = [];
  content_length = ℤ.pos 2;
  body = codes "ok";
  broken = false;
}

-- a registry that wants a token, and a token service that gives one
abbrev world : World ℕ
world = record {
  answer = λ k bearer. elim bearer [ [] ↦ response challenge | c ∷ s ↦ response fine ];
  grant = λ k ch. issued (codes "t") (ℤ.pos 100);
  clock = λ k. k;
}

abbrev fresh : ClientState
fresh = record { tokens = []; challenges = []; sends = []; token_calls = 0 }

abbrev informed : ClientState
informed = record {
  tokens = (token_key bearer, record { value = codes "t"; expires = 102 }) ∷ [];
  challenges = (codes "a", bearer) ∷ [];
  sends = [] ∷ codes "t" ∷ [];
  token_calls = 1;
}

first_run : do_request world (codes "a") fresh ≡ some (informed, response fine)
unfolding program
first_run = refl

do_request_ends_example :
    (r : ClientState × Sent ℕ) × (do_request world (codes "a") fresh ≡ some r)
    × (length r.0.sends ≤ 0 + 3)
    × (r.0.token_calls ≤ 0 + 2)
do_request_ends_example = do_request_ends world (codes "a") fresh

do_request_cases_example :
    (out : ClientState × Sent ℕ) × (do_request world (codes "a") fresh ≡ some out)
    × IsDone world (codes "a") fresh out
do_request_cases_example = do_request_cases world (codes "a") fresh
