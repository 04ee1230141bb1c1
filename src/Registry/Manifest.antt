-- ===== src/Registry/Manifest.antt =====
-- internal/registry/manifest.go: manifest documents and build history. `encoding/json` is the
-- argument `decode`, which gives the fields of the document.
pub mod Classify
pub mod History
use maze_registry_ui.Prelude.{
  ℕ, List, [], ◌∷◌, Bool, ◌||◌, not, Option, none, some, leb, ltb, ◌==◌, if◌then◌else◌, length, ◌+◌,
  ◌++◌, true, false,
}
use maze_registry_ui.Prelude.Bytes.{Bytes, codes, bytes_eq, is_empty}
use mathlib.Core.Option
use maze_registry_ui.Prelude.Int.{ℤ}
use maze_registry_ui.Prelude.Text.{to_lower, trim_space, cut, cut_prefix, cut_suffix}

abbrev pub media_type_oci_index : Bytes
media_type_oci_index = codes "application/vnd.oci.image.index.v1+json"

abbrev pub media_type_oci_manifest : Bytes
media_type_oci_manifest = codes "application/vnd.oci.image.manifest.v1+json"

abbrev pub media_type_docker_list : Bytes
media_type_docker_list = codes "application/vnd.docker.distribution.manifest.list.v2+json"

abbrev pub media_type_docker_v2 : Bytes
media_type_docker_v2 = codes "application/vnd.docker.distribution.manifest.v2+json"

abbrev pub media_type_docker_v1 : Bytes
media_type_docker_v1 = codes "application/vnd.docker.distribution.manifest.v1+json"

abbrev pub media_type_docker_v1_signed : Bytes
media_type_docker_v1_signed = codes "application/vnd.docker.distribution.manifest.v1+prettyjws"

pub record Platform : Type 0 where
  pub os : Bytes
  pub architecture : Bytes
  pub variant : Bytes
  pub os_version : Bytes

-- Both `rawDescriptor` and the `Descriptor` that `descriptor` copies it to.
pub record Descriptor : Type 0 where
  pub media_type : Bytes
  pub digest : Bytes
  pub size : ℤ
  pub platform : Option Platform
  pub annotations : List (Bytes × Bytes)

pub record ManifestDoc : Type 0 where
  pub schema_version : ℤ
  pub media_type : Bytes
  pub artifact_type : Bytes
  pub config : Descriptor
  pub layers : List Descriptor
  pub manifests : List Descriptor
  pub subject : Option Descriptor
  pub annotations : List (Bytes × Bytes)
  pub fs_layers : ℕ
  pub is_index : Bool

pub data ManifestError : Type 0 where
  undecodable : ManifestError
  unsupported : ManifestError

pub data Result {ℓ} (A : Type ℓ) : Type ℓ where
  ok : A → Result A
  err : ManifestError → Result A

-- the types that say nothing
unfoldable pub is_generic : Bytes → Bool
is_generic s =
    bytes_eq s (codes "application/json")
    || bytes_eq s (codes "text/plain")
    || bytes_eq s (codes "application/octet-stream")

unfoldable pub without_parameters : Bytes → Bytes
without_parameters s = elim (cut b';' s) [ none ↦ s | some (a, _) ↦ trim_space a ]

unfoldable pub normalise_media_type : Bytes → Bytes
unfolding is_generic without_parameters
normalise_media_type s =
    let t = without_parameters (to_lower (trim_space s)) in if is_generic t then [] else t

unfoldable pub is_schema1_type : Bytes → Bool
is_schema1_type mt = bytes_eq mt media_type_docker_v1 || bytes_eq mt media_type_docker_v1_signed

unfoldable pub is_index_type : Bytes → Bool
is_index_type mt = bytes_eq mt media_type_oci_index || bytes_eq mt media_type_docker_list

unfoldable pub is_manifest_type : Bytes → Bool
is_manifest_type mt = bytes_eq mt media_type_oci_manifest || bytes_eq mt media_type_docker_v2

-- `doc.SchemaVersion == 1`
unfoldable pub is_one : ℤ → Bool
is_one (ℤ.pos n) = n == 1
is_one (ℤ.negsuc n) = false

abbrev pub classified : ManifestDoc → Bytes → Bool → ManifestDoc
classified doc mt is_index = record doc { media_type = mt; is_index = is_index }

-- the media type of the document, or that of the response
unfoldable pub effective_type : ManifestDoc → Bytes → Bytes
effective_type doc header_media_type =
    let mt = normalise_media_type doc.media_type in
    if is_empty mt then normalise_media_type header_media_type else mt

-- the inner `switch`, for a type that is missing or unknown
unfoldable pub classify_by_shape : ManifestDoc → Bytes → Result ManifestDoc
classify_by_shape doc mt =
    if ltb 0 (length doc.manifests)
    then ok (classified doc (if is_empty mt then media_type_oci_index else mt) true)
    else if not (is_empty doc.config.digest) || ltb 0 (length doc.layers)
    then ok (classified doc (if is_empty mt then media_type_oci_manifest else mt) false)
    else err unsupported

unfoldable pub classify : ManifestDoc → Bytes → Result ManifestDoc
classify doc mt =
    if is_schema1_type mt
    then err unsupported
    else if is_one doc.schema_version || ltb 0 doc.fs_layers
    then err unsupported
    else if is_index_type mt
    then ok (classified doc mt true)
    else if is_manifest_type mt
    then ok (classified doc mt false)
    else classify_by_shape doc mt

unfoldable pub parse_manifest : (Bytes → Option ManifestDoc) → Bytes → Bytes → Result ManifestDoc
parse_manifest decode raw header_media_type = elim (decode raw) [
  | none ↦ err undecodable
  | some doc ↦ classify doc (effective_type doc header_media_type)
]

pub record Layer : Type 0 where
  pub digest : Bytes
  pub media_type : Bytes
  pub size : ℤ
  pub command : Bytes

-- `created` is in nanoseconds
pub record HistoryEntry : Type 0 where
  pub created : ℕ
  pub created_by : Bytes
  pub comment : Bytes
  pub empty_layer : Bool

abbrev pub run_prefix : Bytes
run_prefix = codes "RUN "

unfoldable pub unwrap_buildkit : Bytes → Bytes
unwrap_buildkit s =
    let t : Bytes = elim (cut_suffix (codes "# buildkit") s) [
      | none ↦ s
      | some rest ↦ trim_space rest
    ] in
    elim (cut_prefix (codes "RUN /bin/sh -c ") t) [
      | none ↦ t
      | some rest ↦ run_prefix ++ trim_space rest
    ]

unfoldable pub unwrap_classic : Bytes → Bytes
unwrap_classic s = elim (cut_prefix (codes "/bin/sh -c #(nop) ") s) [
  | some rest ↦ trim_space rest
  | none ↦ elim (cut_prefix (codes "/bin/sh -c #(nop)") s) [
    | some rest ↦ trim_space rest
    | none ↦ elim (cut_prefix (codes "/bin/sh -c ") s) [
      | some rest ↦ run_prefix ++ trim_space rest
      | none ↦ s
    ]
  ]
]

unfoldable pub clean_command : Bytes → Bytes
unfolding unwrap_buildkit unwrap_classic
clean_command s =
    let t = trim_space s in if is_empty t then [] else unwrap_classic (unwrap_buildkit t)

-- the first loop of `applyHistoryToLayers`
unfoldable pub wanted : List HistoryEntry → ℕ
wanted [] = 0
wanted (h ∷ hs) = if h.empty_layer then wanted hs else wanted hs + 1

-- The second loop. The index is the suffix of layers that is left; `none` is a write out of range.
unfoldable pub attach : List HistoryEntry → List Layer → Option (List Layer)
attach [] layers = some layers
attach (h ∷ hs) layers =
    let skipped = attach hs layers in
    let used : Option (List Layer) = elim layers [
      | [] ↦ none
      | l ∷ ls ↦
          Option.map (λ rest. record l { command = clean_command h.created_by } ∷ rest)
            (attach hs ls)
    ] in
    if h.empty_layer then skipped else used

unfoldable pub apply_history_to_layers : List HistoryEntry → List Layer → Option (List Layer)
unfolding wanted attach
apply_history_to_layers history layers =
    if wanted history == length layers then attach history layers else some layers
