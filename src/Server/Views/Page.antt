-- ===== src/Server/Views/Page.antt =====
-- internal/server/handlers.go: `buildImagePage`. The texts that encoding/json and net/url make are
-- parameters.
use maze_registry_ui.Prelude.{ℕ, List, [], ◌∷◌, Bool, ◌&&◌, Option, none, some, if◌then◌else◌}
use maze_registry_ui.Prelude.Bytes.{Bytes, is_empty}
use maze_registry_ui.Prelude.Int.{ℤ}
use maze_registry_ui.Config.{Config, Registry}
use maze_registry_ui.Registry.Manifest.{Layer}
use maze_registry_ui.Registry.Images.{Image, ImageConfig, platform_string}
use maze_registry_ui.Server.Links.{Kv, split_env, split_repo, pull_command}
use maze_registry_ui.Server.Views.{
  Floats, LayerView, ChildView, sorted_kv, total_bytes, layer_views, layer_css,
  representative_child, image_href, add_children,
}

-- `imagePage`, without its layout
pub record ImagePage (R Float : Type 0) : Type 0 where
  pub repo : Bytes
  pub namespace : Bytes
  pub short : Bytes
  pub ref : Bytes
  pub img : Image R
  pub cfg : Option ImageConfig
  pub created : Option ℕ
  pub platforms : List Bytes
  pub layers : List (LayerView Float)
  pub layer_css : Bytes
  pub layer_bytes : ℤ
  pub layers_from : Bytes
  pub children : List ChildView
  pub env : List Kv
  pub labels : List Kv
  pub annotations : List Kv
  pub raw_manifest : Bytes
  pub pull_command : Bytes
  pub show_pull : Bool
  pub can_delete : Bool
  pub csrf : Bytes

-- the layers that are shown, the platform that they belong to, and the configuration
pub record Breakdown : Type 0 where
  pub layers : List Layer
  pub layers_from : Bytes
  pub cfg : Option ImageConfig

module _ {R : Type 0} where
  unfoldable pub breakdown : Image (Image R) → Breakdown
  unfolding representative_child platform_string
  breakdown img =
      let own : Breakdown = record { layers = img.layers; layers_from = []; cfg = img.config } in
      if is_empty img.layers && img.is_index
      then elim (representative_child img.children) [
        | none ↦ own
        | some (p, child) ↦ record {
          layers = child.layers;
          layers_from = platform_string p;
          cfg = elim img.config [ none ↦ child.config | some cfg ↦ some cfg ];
        }
      ]
      else own

unfoldable pub config_env : Option ImageConfig → List Kv
unfolding split_env
config_env cfg = elim cfg [ none ↦ [] | some c ↦ split_env c.env ]

unfoldable pub config_labels : Option ImageConfig → List Kv
unfolding sorted_kv
config_labels cfg = elim cfg [ none ↦ [] | some c ↦ sorted_kv c.labels ]

-- the platform of an image that is no index
unfoldable pub own_platform : Option ImageConfig → List Bytes
unfolding platform_string
own_platform none = []
own_platform (some c) =
    if is_empty c.os
    then []
    else platform_string
        record { os = c.os; architecture = c.architecture; variant = c.variant; os_version = [] }
      ∷ []

module _ {R : Type 0} (floats : Floats) (escape pretty_json : Bytes → Bytes)
    (pull_target : Registry → Bytes) (cfg : Config) (token : Bytes) where
  unfoldable pub build_image_page :
      (ℕ → Bytes) → Registry → Bytes → Bytes → Image (Image R) → ImagePage (Image R) floats.Float
  unfolding split_repo breakdown config_env config_labels layer_views layer_css total_bytes
      add_children image_href own_platform sorted_kv pull_command
  build_image_page digits reg repo ref img =
      let (namespace, short) = split_repo repo in
      let shown = breakdown img in
      let views = layer_views floats shown.layers in
      let created : Option ℕ = elim img.config [ none ↦ none | some c ↦ c.created ] in
      let rows =
        add_children (image_href escape cfg.server.base_path reg.id repo) img.children
          (record { children = []; platforms = []; seen = []; created = created }) in
      record {
        repo = repo;
        namespace = namespace;
        short = short;
        ref = ref;
        img = img;
        cfg = shown.cfg;
        created = rows.created;
        platforms = if is_empty rows.platforms then own_platform img.config else rows.platforms;
        layers = views;
        layer_css = layer_css floats digits views;
        layer_bytes = total_bytes shown.layers (ℤ.pos 0);
        layers_from = shown.layers_from;
        children = rows.children;
        env = config_env shown.cfg;
        labels = config_labels shown.cfg;
        annotations = sorted_kv img.annotations;
        raw_manifest = pretty_json img.raw_manifest;
        pull_command = pull_command (pull_target reg) repo ref;
        show_pull = cfg.ui.show_pull_command;
        can_delete = reg.delete_enabled;
        csrf = token;
      }
