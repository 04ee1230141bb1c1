-- ===== src/Tests/Images.antt =====
-- The sizes and the platforms of an index of two platforms that share a layer.
use maze_registry_ui.Prelude.{◌≡◌, refl, ℕ, ◌%◌, ◌^◌, List, [], ◌∷◌, none, some, false}
use maze_registry_ui.Prelude.Assoc.{lookup, insert}
use maze_registry_ui.Prelude.Bytes.{Bytes, codes, bytes_eq, compare_bytes}
use maze_registry_ui.Prelude.Int.{pos}
use maze_registry_ui.Prelude.Sort.{sort_by}
use maze_registry_ui.Prelude.Text.{equal_fold}
use maze_registry_ui.Registry.Auth.{to_word}
use maze_registry_ui.Registry.Manifest.{Platform, Descriptor, Layer}
use maze_registry_ui.Registry.Images.{
  Image, IndexChild, add_blob, add_layers, distinct_size, platform_string, platform_key,
  is_attestation_platform, is_placeholder, distinct_platforms, compare_platforms, dedupe_platforms,
}
use maze_registry_ui.Registry.Images.Sizes.{distinct_sum, index_blobs}
use maze_registry_ui.Registry.Images.Platforms.{IsDeduped, dedupe_platforms-IsDeduped}
use maze_registry_ui.Registry.Client.Resolve.{index_total}
use maze_registry_ui.Registry.Client.Totals.{index_total_distinct}

program : Unit {0}
unfolding lookup insert bytes_eq compare_bytes sort_by equal_fold add_blob add_layers distinct_size
    platform_string platform_key is_attestation_platform is_placeholder distinct_platforms
    compare_platforms dedupe_platforms index_total
program = tt

abbrev descriptor : Bytes → ℕ → Descriptor
descriptor digest size = record {
  media_type = [];
  digest = digest;
  size = pos size;
  platform = none;
  annotations = [];
}

abbrev pub layer : Bytes → ℕ → Layer
layer digest size = record { digest = digest; media_type = []; size = pos size; command = [] }

abbrev resolved_image : Bytes → List Layer → Image Unit
resolved_image config layers = record {
  repository = codes "library/nginx";
  reference = [];
  digest = [];
  media_type = [];
  is_index = false;
  config_ref = descriptor config 10;
  config = none;
  layers = layers;
  history = [];
  manifest_size = 0;
  total_size = pos 0;
  subject = none;
  children = [];
  annotations = [];
  raw_manifest = [];
}

abbrev pub child : Bytes → List Layer → IndexChild (Image Unit)
child config layers = record {
  descriptor = descriptor config 500;
  resolved = some (resolved_image config layers);
  size_total = pos 0;
}

abbrev two_platforms : List (IndexChild (Image Unit))
two_platforms =
    child (codes "amd") (layer (codes "base") 100 ∷ layer (codes "a") 1 ∷ [])
    ∷ child (codes "arm") (layer (codes "base") 100 ∷ layer (codes "b") 2 ∷ [])
    ∷ []

shared_layer : index_total two_platforms [] (pos 0) ≡ pos 123
unfolding program
shared_layer = refl

index_total_distinct_example :
    to_word (index_total two_platforms [] (pos 0))
    ≡ distinct_sum [] (index_blobs two_platforms) % 2 ^ 64
index_total_distinct_example = index_total_distinct two_platforms

abbrev pub platform : Bytes → Bytes → Platform
platform os architecture = record {
  os = os;
  architecture = architecture;
  variant = [];
  os_version = [];
}

abbrev listed : List Platform
listed =
    platform (codes "linux") (codes "arm64")
    ∷ platform (codes "unknown") (codes "unknown")
    ∷ platform (codes "linux") (codes "amd64")
    ∷ platform (codes "linux") (codes "arm64")
    ∷ []

deduped :
    dedupe_platforms listed
    ≡ platform (codes "linux") (codes "amd64") ∷ platform (codes "linux") (codes "arm64") ∷ []
unfolding program
deduped = refl

dedupe_platforms-IsDeduped_example : IsDeduped listed (dedupe_platforms listed)
dedupe_platforms-IsDeduped_example = dedupe_platforms-IsDeduped listed
