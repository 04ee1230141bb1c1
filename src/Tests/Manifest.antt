-- ===== src/Tests/Manifest.antt =====
-- `parseManifest` and `applyHistoryToLayers` on small documents.
use maze_registry_ui.Prelude.{
  ◌≡◌, refl, [], ◌∷◌, Option, some, none, false, length, ◌==◌, if◌then◌else◌,
}
use maze_registry_ui.Prelude.Bytes.{Bytes, codes, bytes_eq}
use maze_registry_ui.Prelude.Int.{pos}
use maze_registry_ui.Prelude.Text.{to_lower, trim_space, cut, cut_prefix, cut_suffix}
use maze_registry_ui.Registry.Manifest.{
  Descriptor, ManifestDoc, Layer, HistoryEntry, normalise_media_type, is_schema1_type,
  is_index_type, is_manifest_type, is_one, effective_type, classify_by_shape, classify,
  parse_manifest, clean_command, apply_history_to_layers,
}
use maze_registry_ui.Registry.Manifest.History.{producing, commanded, apply_history-commanded}

program : Unit {0}
unfolding bytes_eq to_lower trim_space cut cut_prefix cut_suffix normalise_media_type
    is_schema1_type is_index_type is_manifest_type is_one effective_type classify_by_shape classify
    parse_manifest clean_command apply_history_to_layers producing commanded
program = tt

abbrev nothing : Descriptor
nothing = record { media_type = []; digest = []; size = pos 0; platform = none; annotations = [] }

abbrev child : Descriptor
child = record nothing { digest = codes "sha256:00" }

-- an index whose document and response name no type
abbrev untyped : ManifestDoc
untyped = record {
  schema_version = pos 2;
  media_type = [];
  artifact_type = [];
  config = nothing;
  layers = [];
  manifests = child ∷ [];
  subject = none;
  annotations = [];
  fs_layers = 0;
  is_index = false;
}

abbrev decode : Bytes → Option ManifestDoc
decode raw = some untyped

abbrev json_type : Bytes
json_type = codes "application/json; charset=utf-8"

normalised :
    (normalise_media_type json_type ≡ [])
    × (normalise_media_type (codes " Application/VND.x+json ; q=1")
        ≡ codes "application/vnd.x+json")
unfolding program
normalised = (refl, refl)

cleaned :
    (clean_command (codes "RUN /bin/sh -c apk add curl # buildkit") ≡ codes "RUN apk add curl")
    × (clean_command (codes "/bin/sh -c #(nop)  CMD [sh]") ≡ codes "CMD [sh]")
    × (clean_command (codes "/bin/sh -c make") ≡ codes "RUN make")
unfolding program
cleaned = (refl, refl, refl)

abbrev step : HistoryEntry
step = record {
  created = 0;
  created_by = codes "/bin/sh -c make";
  comment = [];
  empty_layer = false;
}

abbrev layer : Layer
layer = record { digest = codes "sha256:11"; media_type = []; size = pos 7; command = [] }

apply_history-commanded_example :
    apply_history_to_layers (step ∷ []) (layer ∷ [])
    ≡ some (
        if length (producing (step ∷ [])) == length (layer ∷ [])
        then commanded (producing (step ∷ [])) (layer ∷ [])
        else layer ∷ [])
apply_history-commanded_example = apply_history-commanded (step ∷ []) (layer ∷ [])
