-- ===== src/Tests/Startup.antt =====
-- A configuration of one registry, from `Parse` to the clients.
use maze_registry_ui.Prelude.{◌≡◌, refl, List, [], ◌∷◌, ◌++◌, none, some, if◌then◌else◌}
use maze_registry_ui.Prelude.Assoc.{lookup, insert}
use maze_registry_ui.Prelude.Bytes.{Bytes, codes, bytes_eq}
use maze_registry_ui.Prelude.Text.{
  trim_right, trim_left, to_lower, trim_space, has_prefix, cut_suffix,
}
use maze_registry_ui.Config.{
  Config, normalize_base_path, host_of, dash_runs, slug, registry_defaults, server_defaults,
  ui_defaults, apply_defaults, resolve_secret, resolve_auth, resolve_registries, resolve_secrets,
  one_of, is_valid_url, validate_auth, validate_url, validate_id, validate_registries, validate,
  find_registry, default, finish,
}
use maze_registry_ui.Registry.Options.{
  BaseUrls, refused, api_prefix, NewClient, has_suffix, is_known_auth, option_defaults, built,
  normalise_url, normalise_base_url, new_client,
}
use maze_registry_ui.Server.Startup.{client_options, running, url_parts, new_clients, asset_token}
use maze_registry_ui.Server.Startup.Accepted.{HaveClients, finish-new_clients}
use maze_registry_ui.Tests.Config.{hub, config}

program : Unit {0}
unfolding lookup insert bytes_eq trim_right trim_left to_lower trim_space has_prefix cut_suffix
    normalize_base_path host_of dash_runs slug registry_defaults server_defaults ui_defaults
    apply_defaults resolve_secret resolve_auth resolve_registries resolve_secrets one_of
    is_valid_url validate_auth validate_url validate_id validate_registries validate find_registry
    default finish has_suffix is_known_auth option_defaults built normalise_url normalise_base_url
    new_client client_options url_parts new_clients asset_token
program = tt

abbrev net : BaseUrls
net = record {
  Url = Bytes;
  parse = λ s. some s;
  scheme = λ u. codes "https";
  host = λ u. codes "hub";
  path = λ u. if bytes_eq u (codes "https://hub/v2/") then codes "/v2/" else [];
  print = λ path u. codes "https://hub" ++ path;
}

abbrev complete : Config
complete = apply_defaults (url_parts net) (config (hub ∷ []))

prefixed :
    normalise_base_url net (codes " https://hub/v2/ ")
    ≡ refused (api_prefix (codes "https://hub/v2/"))
unfolding program
prefixed = refl

finish-new_clients_example :
    (m : List (Bytes × NewClient)) × (new_clients net (codes "ui") complete.registries []
      ≡ running m)
    × HaveClients m complete.registries
unfolding program
finish-new_clients_example =
    finish-new_clients net (λ name. none) (codes "ui") (config (hub ∷ [])) complete refl (refl, tt)
