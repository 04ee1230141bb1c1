-- ===== src/Tests/Config.antt =====
-- The end of `Parse` on a small configuration.
use maze_registry_ui.Prelude.{◌≡◌, refl, List, [], ◌∷◌, Option, some, none, true, false}
use maze_registry_ui.Prelude.Bytes.{Bytes, codes, bytes_eq}
use maze_registry_ui.Prelude.Int.{ℤ}
use maze_registry_ui.Prelude.Text.{
  trim_right, trim_left, to_lower, trim_space, has_prefix, cut_suffix,
}
use maze_registry_ui.Config.{
  Config, Registry, Url, duplicate_id, normalize_base_path, host_of, dash_runs, slug,
  registry_defaults, server_defaults, ui_defaults, apply_defaults, resolve_secret, resolve_auth,
  resolve_registries, resolve_secrets, one_of, is_valid_url, validate_auth, validate_url,
  validate_id, validate_registries, validate, find_registry, default, finish, invalid,
}
use maze_registry_ui.Config.Valid.{IsServable, finish-IsServable}

program : Unit {0}
unfolding bytes_eq trim_right trim_left to_lower trim_space has_prefix cut_suffix
    normalize_base_path host_of dash_runs slug registry_defaults server_defaults ui_defaults
    apply_defaults resolve_secret resolve_auth resolve_registries resolve_secrets one_of
    is_valid_url validate_auth validate_url validate_id validate_registries validate find_registry
    default finish
program = tt

abbrev pub hub : Registry
hub = record {
  id = [];
  name = codes "My Hub!";
  url = codes "https://hub/";
  description = [];
  pull_host = [];
  auth = record {
    type = [];
    username = [];
    password = [];
    password_env = [];
    token = [];
    token_env = [];
  };
  insecure = false;
  delete_enabled = false;
  timeout = ℤ.pos 0;
  cache_ttl = ℤ.negsuc 0;
}

abbrev pub config : List Registry → Config
config registries = record {
  server = record {
    addr = [];
    base_path = codes "ui/";
    read_timeout = ℤ.pos 0;
    write_timeout = ℤ.pos 0;
    shutdown_timeout = ℤ.pos 0;
    access_log = true;
    log_level = [];
  };
  ui = record {
    title = [];
    theme = [];
    catalog_page_size = ℤ.pos 0;
    tag_page_size = ℤ.pos 20;
    default_registry = [];
    show_pull_command = true;
    footer_note = [];
  };
  registries = registries;
}

abbrev parse_url : Bytes → Option Url
parse_url raw = some (record { scheme = codes "https"; host = codes "hub"; path = [] })

abbrev env : Bytes → Option Bytes
env name = none

paths :
    (normalize_base_path (codes " ui/ ") ≡ codes "/ui")
    × (normalize_base_path (codes "/") ≡ [])
    × (slug (codes "-My Hub!") ≡ codes "my-hub")
unfolding program
paths = (refl, refl, refl)

abbrev complete : Config
complete = apply_defaults parse_url (config (hub ∷ []))

abbrev id_of : Option Registry → Bytes
id_of none = []
id_of (some r) = r.id

found : id_of (default complete) ≡ codes "my-hub"
unfolding program
found = refl

repeated :
    finish parse_url env (config (hub ∷ hub ∷ [])) ≡ invalid (duplicate_id (codes "my-hub") ∷ [])
unfolding program
repeated = refl

finish-IsServable_example : IsServable parse_url complete
unfolding program
finish-IsServable_example = finish-IsServable parse_url env (config (hub ∷ [])) complete refl
