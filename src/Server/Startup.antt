-- ===== src/Server/Startup.antt =====
-- internal/server/server.go: the loop of `New` that builds a client for each registry, and
-- `assetToken`.
pub mod Accepted
use maze_registry_ui.Prelude.{List, [], ◌∷◌, Bool, ◌&&◌, not, Option, none, some, if◌then◌else◌}
use maze_registry_ui.Prelude.Assoc.{insert}
use maze_registry_ui.Prelude.Bytes.{Bytes, codes, bytes_eq, is_empty}
use maze_registry_ui.Config
use maze_registry_ui.Config.{Registry, Url}
use maze_registry_ui.Registry.Options.{
  BaseUrls, Options, OptionError, Made, made, refused, NewClient, new_client,
}

-- the options that `New` passes to the client of a registry
unfoldable pub client_options : Bytes → Registry → Options
client_options user_agent r = record {
  name = r.name;
  base_url = r.url;
  auth = record {
    type = r.auth.type;
    username = r.auth.username;
    password = r.auth.password;
    token = r.auth.token;
  };
  insecure = r.insecure;
  timeout = r.timeout;
  cache_ttl = r.cache_ttl;
  user_agent = user_agent;
  delete_enabled = r.delete_enabled;
}

-- the map of clients, or the registry whose client cannot be built
pub data Started : Type 0 where
  running : List (Bytes × NewClient) → Started
  broken : Bytes → OptionError → Started

-- what the configuration reads of a URL
unfoldable pub url_parts : BaseUrls → Bytes → Option Url
url_parts net raw = elim (net.parse raw) [
  | none ↦ none
  | some u ↦ some record { scheme = net.scheme u; host = net.host u; path = net.path u }
]

unfoldable pub new_clients : BaseUrls → Bytes → List Registry → List (Bytes × NewClient) → Started
unfolding new_client client_options insert
new_clients net user_agent [] clients = running clients
new_clients net user_agent (r ∷ rs) clients = elim (new_client net (client_options user_agent r)) [
  | refused e ↦ broken r.id e
  | made c ↦ new_clients net user_agent rs (insert r.id c clients)
]

unfoldable pub asset_token : Bytes → Bytes → Bytes
asset_token commit version =
    if not (bytes_eq commit (codes "unknown")) && not (is_empty commit) then commit else version
