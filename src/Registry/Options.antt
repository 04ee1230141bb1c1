-- ===== src/Registry/Options.antt =====
-- internal/registry/client.go: `New` and `normaliseBaseURL`. The package net/url is the record
-- `BaseUrls`.
use maze_registry_ui.Prelude.{
  ℕ, ◌*◌, [], Bool, true, false, ◌||◌, not, Option, none, some, ◌==◌, if◌then◌else◌,
}
use maze_registry_ui.Prelude.Bytes.{Bytes, codes, bytes_eq, is_empty}
use maze_registry_ui.Prelude.Int.{ℤ, le_zero}
use maze_registry_ui.Prelude.Text.{to_lower, trim_space, trim_right, cut_suffix}
use maze_registry_ui.Registry.Auth.{Tokens, Challenges}
use maze_registry_ui.Registry.Cache.{TtlCache, new_ttl_cache, default_cache_entries}
use maze_registry_ui.Registry.Client.{Cached}
use maze_registry_ui.Registry.TokenService.{Credentials}

pub record Options : Type 0 where
  pub name : Bytes
  pub base_url : Bytes
  pub auth : Credentials
  pub insecure : Bool
  pub timeout : ℤ
  pub cache_ttl : ℤ
  pub user_agent : Bytes
  pub delete_enabled : Bool

pub record BaseUrls : Type 1 where
  pub Url : Type 0
  pub parse : Bytes → Option Url
  pub scheme : Url → Bytes
  pub host : Url → Bytes
  pub path : Url → Bytes
  -- the URL with this path and with no query and no fragment, printed
  pub print : Bytes → Url → Bytes

-- the errors of `New`
pub data OptionError : Type 0 where
  no_base_url : OptionError
  bad_base_url : Bytes → OptionError
  bad_scheme : Bytes → OptionError
  no_host : Bytes → OptionError
  api_prefix : Bytes → OptionError
  bad_auth : Bytes → OptionError

pub data Made (A : Type 0) : Type 0 where
  made : A → Made A
  refused : OptionError → Made A

abbrev pub is_slash : ℕ → Bool
is_slash c = c == b'/'

-- `strings.HasSuffix`
unfoldable pub has_suffix : Bytes → Bytes → Bool
unfolding cut_suffix
has_suffix t s = elim (cut_suffix t s) [ none ↦ false | some _ ↦ true ]

abbrev pub is_web : Bytes → Bool
is_web scheme = bytes_eq scheme (codes "http") || bytes_eq scheme (codes "https")

-- the client that `New` builds, without the HTTP transport
pub record NewClient : Type 0 where
  pub opts : Options
  pub base : Bytes
  pub cache : TtlCache Cached
  pub tokens : Tokens
  pub challenges : Challenges

-- the cases of the `switch` on the auth type
unfoldable pub is_known_auth : Bytes → Bool
unfolding to_lower trim_space
is_known_auth type =
    let kind = to_lower (trim_space type) in
    is_empty kind
    || (bytes_eq kind (codes "none")
        || (bytes_eq kind (codes "basic") || bytes_eq kind (codes "bearer")))

abbrev pub or_positive : ℕ → ℤ → ℤ
or_positive fallback d = if le_zero d then ℤ.pos fallback else d

abbrev second : ℕ
second = 1000000000

unfoldable pub option_defaults : Options → Options
option_defaults o = record o {
  timeout = or_positive (20 * second) o.timeout;
  cache_ttl = or_positive (60 * second) o.cache_ttl;
  user_agent = if is_empty o.user_agent then codes "MazeRegistryUI/dev" else o.user_agent;
}

unfoldable pub built : Options → Bytes → NewClient
unfolding option_defaults new_ttl_cache
built o base = record {
  opts = option_defaults o;
  base = base;
  cache = new_ttl_cache (ℤ.pos default_cache_entries);
  tokens = [];
  challenges = [];
}

module _ (net : BaseUrls) where
  -- `normaliseBaseURL` from the parsed URL on; `raw` stands in the errors
  unfoldable pub normalise_url : Bytes → net.Url → Made Bytes
  unfolding has_suffix trim_right
  normalise_url raw u =
      if not (is_web (net.scheme u))
      then refused (bad_scheme raw)
      else if is_empty (net.host u)
      then refused (no_host raw)
      else let path = trim_right is_slash (net.path u) in
        if bytes_eq path (codes "/v2") || has_suffix (codes "/v2") path
        then refused (api_prefix raw)
        else made (net.print path u)

  unfoldable pub normalise_base_url : Bytes → Made Bytes
  normalise_base_url raw =
      let trimmed = trim_space raw in
      if is_empty trimmed then refused no_base_url else elim (net.parse trimmed) [
        | none ↦ refused (bad_base_url trimmed)
        | some u ↦ normalise_url trimmed u
      ]

  -- `New`
  unfoldable pub new_client : Options → Made NewClient
  new_client o = elim (normalise_base_url o.base_url) [
    | refused e ↦ refused e
    | made base ↦
        if not (is_known_auth o.auth.type)
        then refused (bad_auth o.auth.type)
        else made (built o base)
  ]
