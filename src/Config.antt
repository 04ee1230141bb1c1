-- ===== src/Config.antt =====
-- internal/config/config.go: the configuration after it has been decoded: its defaults, its
-- secrets, its validation, and the lookups. `url.Parse` is the argument `parse_url`, and
-- `os.LookupEnv` the argument `env`.
pub mod Target
pub mod Valid
pub mod Expand
use maze_registry_ui.Prelude.{
  ℕ, zero, suc, ◌+◌, List, [], ◌∷◌, ◌++◌, ◌*◌, leb, map, Bool, true, false, ◌&&◌, ◌||◌, not, Option,
  none, some, ◌==◌, if◌then◌else◌,
}
use maze_registry_ui.Prelude.Bytes.{Bytes, codes, bytes_eq, is_empty}
use maze_registry_ui.Prelude.Int.{ℤ, le_zero}
use maze_registry_ui.Prelude.Text.{
  trim_right, trim_left, to_lower, trim_space, has_prefix, cut_suffix,
}

pub record Server : Type 0 where
  pub addr : Bytes
  pub base_path : Bytes
  pub read_timeout : ℤ
  pub write_timeout : ℤ
  pub shutdown_timeout : ℤ
  pub access_log : Bool
  pub log_level : Bytes

pub record Ui : Type 0 where
  pub title : Bytes
  pub theme : Bytes
  pub catalog_page_size : ℤ
  pub tag_page_size : ℤ
  pub default_registry : Bytes
  pub show_pull_command : Bool
  pub footer_note : Bytes

pub record Auth : Type 0 where
  pub type : Bytes
  pub username : Bytes
  pub password : Bytes
  pub password_env : Bytes
  pub token : Bytes
  pub token_env : Bytes

pub record Registry : Type 0 where
  pub id : Bytes
  pub name : Bytes
  pub url : Bytes
  pub description : Bytes
  pub pull_host : Bytes
  pub auth : Auth
  pub insecure : Bool
  pub delete_enabled : Bool
  pub timeout : ℤ
  pub cache_ttl : ℤ

pub record Config : Type 0 where
  pub server : Server
  pub ui : Ui
  pub registries : List Registry

-- the parts of a `url.URL` that are read
pub record Url : Type 0 where
  pub scheme : Bytes
  pub host : Bytes
  pub path : Bytes

abbrev pub is_slash : ℕ → Bool
is_slash c = c == b'/'

unfoldable pub normalize_base_path : Bytes → Bytes
unfolding trim_space has_prefix trim_right
normalize_base_path p =
    let t = trim_space p in
    let rooted = if not (has_prefix (codes "/") t) then codes "/" ++ t else t in
    if is_empty t || bytes_eq t (codes "/") then [] else trim_right is_slash rooted

unfoldable pub host_of : (Bytes → Option Url) → Bytes → Bytes
host_of parse_url raw = elim (parse_url raw) [
  | none ↦ raw
  | some u ↦ if not (is_empty u.host) then u.host else raw
]

unfoldable pub pull_target : (Bytes → Option Url) → Registry → Bytes
unfolding host_of
pull_target parse_url r =
    if not (is_empty r.pull_host) then r.pull_host else host_of parse_url r.url

abbrev is_id_char : ℕ → Bool
is_id_char c = (leb b'a' c && leb c b'z') || (leb b'0' c && leb c b'9')

-- each run of bytes that `idPattern` matches as one dash; `inside` is within such a run
unfoldable pub dash_runs : Bool → Bytes → Bytes
dash_runs inside [] = []
dash_runs inside (c ∷ s) =
    let kept = dash_runs false s in
    let run = dash_runs true s in
    if is_id_char c then c ∷ kept else if inside then run else b'-' ∷ run

abbrev is_dash : ℕ → Bool
is_dash c = c == b'-'

unfoldable pub slug : Bytes → Bytes
unfolding to_lower dash_runs trim_left trim_right
slug s = trim_right is_dash (trim_left is_dash (dash_runs false (to_lower s)))

abbrev or_text : Bytes → Bytes → Bytes
or_text fallback s = if is_empty s then fallback else s

-- the value, or a default in place of 0
abbrev or_duration : ℕ → ℤ → ℤ
or_duration fallback (ℤ.pos n) = if n == 0 then ℤ.pos fallback else ℤ.pos n
or_duration fallback (ℤ.negsuc n) = ℤ.negsuc n

abbrev or_size : ℕ → ℤ → ℤ
or_size fallback n = if le_zero n then ℤ.pos fallback else n

abbrev second : ℕ
second = 1000000000

-- the loop of `applyDefaults` at one registry
unfoldable pub registry_defaults : (Bytes → Option Url) → Registry → Registry
unfolding host_of slug trim_right
registry_defaults parse_url r =
    let name = or_text (host_of parse_url r.url) r.name in
    record r {
      name = name;
      id = or_text (slug name) r.id;
      auth = record r.auth { type = or_text (codes "none") r.auth.type };
      timeout = or_duration (20 * second) r.timeout;
      cache_ttl = or_duration (60 * second) r.cache_ttl;
      url = trim_right is_slash r.url;
    }

unfoldable pub server_defaults : Server → Server
unfolding normalize_base_path
server_defaults s = record s {
  addr = or_text (codes ":8080") s.addr;
  base_path = normalize_base_path s.base_path;
  read_timeout = or_duration (15 * second) s.read_timeout;
  write_timeout = or_duration (60 * second) s.write_timeout;
  shutdown_timeout = or_duration (10 * second) s.shutdown_timeout;
  log_level = or_text (codes "info") s.log_level;
}

abbrev first_id : List Registry → Bytes
first_id [] = []
first_id (r ∷ rs) = r.id

-- the default registry is set once the registries have their ids
unfoldable pub ui_defaults : List Registry → Ui → Ui
ui_defaults registries u = record u {
  title = or_text (codes "MazeRegistryUI") u.title;
  theme = or_text (codes "auto") u.theme;
  catalog_page_size = or_size 50 u.catalog_page_size;
  tag_page_size = or_size 50 u.tag_page_size;
  default_registry = or_text (first_id registries) u.default_registry;
}

unfoldable pub apply_defaults : (Bytes → Option Url) → Config → Config
unfolding registry_defaults server_defaults ui_defaults
apply_defaults parse_url c =
    let registries = map (registry_defaults parse_url) c.registries in
    record {
      server = server_defaults c.server;
      ui = ui_defaults registries c.ui;
      registries = registries;
    }

-- the loop of `resolveSecrets` at one registry; `none` is an unset variable
unfoldable pub resolve_secret : (Bytes → Option Bytes) → Bytes → Bytes → Option Bytes
resolve_secret env name value = if is_empty name then some value else env name

unfoldable pub resolve_auth : (Bytes → Option Bytes) → Auth → Option Auth
unfolding resolve_secret
resolve_auth env a = elim (resolve_secret env a.password_env a.password) [
  | none ↦ none
  | some password ↦ elim (resolve_secret env a.token_env a.token) [
    | none ↦ none
    | some token ↦ some (record a { password = password; token = token })
  ]
]

unfoldable pub resolve_registries : (Bytes → Option Bytes) → List Registry → Option (List Registry)
unfolding resolve_auth
resolve_registries env [] = some []
resolve_registries env (r ∷ rs) =
    let rest = resolve_registries env rs in
    elim (resolve_auth env r.auth) [
      | none ↦ none
      | some auth ↦ elim rest [ none ↦ none | some rs' ↦ some (record r { auth = auth } ∷ rs') ]
    ]

unfoldable pub resolve_secrets : (Bytes → Option Bytes) → Config → Option Config
unfolding resolve_registries
resolve_secrets env c = elim (resolve_registries env c.registries) [
  | none ↦ none
  | some rs ↦ some (record c { registries = rs })
]

-- the errors that `Validate` joins; the number is the position of the registry
pub data Problem : Type 0 where
  no_registries : Problem
  bad_theme : Bytes → Problem
  bad_log_level : Bytes → Problem
  no_id : ℕ → Problem
  duplicate_id : Bytes → Problem
  no_url : ℕ → Problem
  bad_url : ℕ → Problem
  no_username : ℕ → Problem
  no_token : ℕ → Problem
  bad_auth_type : ℕ → Bytes → Problem
  bad_default : Bytes → Problem

unfoldable pub one_of : List Bytes → Bytes → Bool
one_of [] s = false
one_of (x ∷ xs) s = bytes_eq s x || one_of xs s

-- whether `validateURL` returns nil
unfoldable pub is_valid_url : (Bytes → Option Url) → Bytes → Bool
unfolding one_of trim_right cut_suffix
is_valid_url parse_url raw = elim (parse_url raw) [
  | none ↦ false
  | some u ↦
      one_of (codes "http" ∷ codes "https" ∷ []) u.scheme
      && (not (is_empty u.host) && elim (cut_suffix (codes "/v2") (trim_right is_slash u.path)) [
        | none ↦ true
        | some _ ↦ false
      ])
]

abbrev pub when : Bool → Problem → List Problem
when true p = p ∷ []
when false p = []

unfoldable pub validate_auth : ℕ → Auth → List Problem
validate_auth i a =
    if bytes_eq a.type (codes "none")
    then []
    else if bytes_eq a.type (codes "basic")
    then when (is_empty a.username) (no_username i)
    else if bytes_eq a.type (codes "bearer")
    then when (is_empty a.token) (no_token i)
    else bad_auth_type i a.type ∷ []

unfoldable pub validate_url : (Bytes → Option Url) → ℕ → Bytes → List Problem
unfolding is_valid_url
validate_url parse_url i raw =
    if is_empty raw then no_url i ∷ [] else when (not (is_valid_url parse_url raw)) (bad_url i)

unfoldable pub validate_id : List Bytes → ℕ → Bytes → List Problem
unfolding one_of
validate_id seen i id =
    if is_empty id then no_id i ∷ [] else when (one_of seen id) (duplicate_id id)

-- the loop of `Validate`: its errors, with the ids that are in `seen` before it
unfoldable pub validate_registries :
    (Bytes → Option Url) → List Bytes → ℕ → List Registry → List Problem
unfolding validate_id validate_url validate_auth
validate_registries parse_url seen i [] = []
validate_registries parse_url seen i (r ∷ rs) =
    validate_id seen i r.id
    ++ (validate_url parse_url i r.url
        ++ (validate_auth i r.auth ++ validate_registries parse_url (r.id ∷ seen) (i + 1) rs))

abbrev pub ids : List Registry → List Bytes
ids [] = []
ids (r ∷ rs) = r.id ∷ ids rs

abbrev pub theme_problems : Config → List Problem
theme_problems c =
    when (not (one_of (codes "auto" ∷ codes "dark" ∷ codes "light" ∷ []) c.ui.theme))
      (bad_theme c.ui.theme)

abbrev pub level_problems : Config → List Problem
level_problems c =
    when
      (not (
        one_of (codes "debug" ∷ codes "info" ∷ codes "warn" ∷ codes "error" ∷ [])
          c.server.log_level))
      (bad_log_level c.server.log_level)

abbrev pub default_problems : Config → List Problem
default_problems c =
    when
      (not (is_empty c.ui.default_registry)
        && not (one_of (ids c.registries) c.ui.default_registry))
      (bad_default c.ui.default_registry)

unfoldable pub validate : (Bytes → Option Url) → Config → List Problem
unfolding validate_registries one_of
validate parse_url c =
    when (is_empty c.registries) no_registries
    ++ (theme_problems c
        ++ (level_problems c
            ++ (validate_registries parse_url [] 0 c.registries ++ default_problems c)))

-- the loop of `Config.Registry`
unfoldable pub find_registry : Bytes → List Registry → Option Registry
find_registry id [] = none
find_registry id (r ∷ rs) = if bytes_eq r.id id then some r else find_registry id rs

-- `Config.Default`: `none` is the panic on an empty list of registries
unfoldable pub default : Config → Option Registry
unfolding find_registry
default c = elim (find_registry c.ui.default_registry c.registries) [
  | some r ↦ some r
  | none ↦ elim c.registries [ [] ↦ none | r ∷ rs ↦ some r ]
]

-- the end of `Parse`, from the decoded document on
pub data Parsed : Type 0 where
  accepted : Config → Parsed
  unset_variable : Parsed
  invalid : List Problem → Parsed

unfoldable pub finish : (Bytes → Option Url) → (Bytes → Option Bytes) → Config → Parsed
unfolding apply_defaults resolve_secrets validate
finish parse_url env c = elim (resolve_secrets env (apply_defaults parse_url c)) [
  | none ↦ unset_variable
  | some d ↦ elim (validate parse_url d) [ [] ↦ accepted d | p ∷ ps ↦ invalid (p ∷ ps) ]
]
