-- ===== src/Registry/Client/Resolve.antt =====
-- internal/registry/client.go: `Image` and `TagSummary`. The children of an index are fetched one
-- after another, in the order of the index; the source runs up to six at a time, each on a child of
-- its own.
use maze_registry_ui.Prelude.{
  ℕ, List, [], ◌∷◌, ◌++◌, map, Bool, not, Option, none, some, if◌then◌else◌, ◌==◌, length, true,
  false,
}
use maze_registry_ui.Prelude.Bytes.{Bytes, is_empty}
use maze_registry_ui.Prelude.Int.{ℤ}
use maze_registry_ui.Registry.Images.{
  ImageConfig, Image, IndexChild, parse_image_config, add_int64, Counted, distinct_size,
  dedupe_platforms,
}
use maze_registry_ui.Registry.Manifest.{
  Platform, Descriptor, Layer, HistoryEntry, ManifestDoc, parse_manifest, apply_history_to_layers,
  ok, err,
}
use maze_registry_ui.Registry.Names.{validate_repository, validate_reference, is_digest}
use maze_registry_ui.Registry.Client.{
  Setup, Client, ClientError, done, fail, Action, raise, ◌>>=◌, ◌>>◌, ManifestFetch, require,
  max_manifest_bytes, manifest_error,
}
use maze_registry_ui.Registry.Client.Content.{fetch_manifest, fetch_blob_cached}

pub record TagSummary (E : Type 0) : Type 0 where
  pub name : Bytes
  pub digest : Bytes
  pub media_type : Bytes
  pub size : ℤ
  pub created : Option ℕ
  pub platforms : List Platform
  pub is_index : Bool
  pub error : Option (ClientError E)

abbrev pub layer_of : Descriptor → Layer
layer_of l = record { digest = l.digest; media_type = l.media_type; size = l.size; command = [] }

-- the loop of `fillManifest` over the sizes
unfoldable pub add_sizes : List Descriptor → ℤ → ℤ
add_sizes [] total = total
add_sizes (l ∷ ls) total = add_sizes ls (add_int64 total l.size)

unfoldable pub is_zero : ℤ → Bool
is_zero (ℤ.pos n) = n == 0
is_zero (ℤ.negsuc n) = false

-- `applyHistoryToLayers` never gives `none` (Registry/Manifest/History).
unfoldable pub with_commands : List HistoryEntry → List Layer → List Layer
unfolding apply_history_to_layers
with_commands history layers = elim (apply_history_to_layers history layers) [
  | none ↦ layers
  | some commanded ↦ commanded
]

-- the children of an index that have a digest
unfoldable pub index_children : {R : Type 0} → List Descriptor → List (IndexChild R)
unfolding is_digest
index_children [] = []
index_children (m ∷ ms) =
    let rest = index_children ms in
    if not (is_digest m.digest)
    then rest
    else record { descriptor = m; resolved = none; size_total = ℤ.pos 0 } ∷ rest

-- the platform that a child shows, if any
unfoldable pub child_platform : IndexChild (Image ⊥) → List Platform
child_platform child = elim child.descriptor.platform [
  | some p ↦ p ∷ []
  | none ↦ elim child.resolved [
    | none ↦ []
    | some img ↦ elim img.config [
      | none ↦ []
      | some cfg ↦
          record {
            os = cfg.os;
            architecture = cfg.architecture;
            variant = cfg.variant;
            os_version = [];
          }
          ∷ []
    ]
  ]
]

unfoldable pub child_platforms : List (IndexChild (Image ⊥)) → List Platform
unfolding child_platform
child_platforms [] = []
child_platforms (child ∷ rest) = child_platform child ++ child_platforms rest

unfoldable pub config_created : {R : Type 0} → Option (Image R) → Option ℕ
config_created none = none
config_created (some img) = elim img.config [ none ↦ none | some cfg ↦ cfg.created ]

-- the creation time of the first child that has one, if there is none yet
unfoldable pub first_created : List (IndexChild (Image ⊥)) → Option ℕ → Option ℕ
unfolding config_created
first_created children (some t) = some t
first_created [] none = none
first_created (child ∷ rest) none =
    let later = first_created rest none in
    elim (config_created child.resolved) [ some t ↦ some t | none ↦ later ]

-- the sizes of the blobs of the children, each counted once
unfoldable pub index_total : {R : Type 0} → List (IndexChild (Image R)) → Counted → ℤ → ℤ
unfolding distinct_size
index_total [] counted total = total
index_total (child ∷ rest) counted total = elim child.resolved [
  | none ↦ index_total rest counted total
  | some img ↦
      let (counted', size) = distinct_size img counted in
      index_total rest counted' (add_int64 total size)
]

module _ {E S : Type 0} (w : Setup E S) where
  unfoldable pub resolved_config : Descriptor → Bytes → ImageConfig → ImageConfig
  unfolding is_zero
  resolved_config config raw cfg = record cfg {
    digest = config.digest;
    size = if is_zero config.size then ℤ.pos (length raw) else config.size;
  }

  -- the end of `fillManifest`: what the config blob adds
  unfoldable pub with_config : {R : Type 0} → Descriptor → Bytes → Image R → Image R
  unfolding resolved_config with_commands parse_image_config
  with_config config raw img = elim (parse_image_config w.config_document raw) [
    | none ↦ img
    | some (cfg, history) ↦ record img {
      config = some (resolved_config config raw cfg);
      history = history;
      layers = with_commands history img.layers;
    }
  ]

  unfoldable pub fill_manifest :
      {R : Type 0} → Image R → ManifestDoc → Client S → Client S × Image R
  unfolding add_sizes with_config fetch_blob_cached
  fill_manifest img doc c =
      let filled = record img {
        config_ref = record doc.config { platform = none; annotations = [] };
        layers = map layer_of doc.layers;
        total_size = add_sizes doc.layers doc.config.size;
      } in
      if is_empty doc.config.digest
      then (c, filled)
      else let (c', blob) =
          fetch_blob_cached w img.repository doc.config.digest max_manifest_bytes c in
        (c', elim blob [ fail e ↦ filled | done raw ↦ with_config doc.config raw filled ])

  -- the image before `fillIndex` or `fillManifest`
  unfoldable pub new_image : {R : Type 0} → Bytes → Bytes → ManifestFetch → ManifestDoc → Image R
  new_image repo reference fetched doc = record {
    repository = repo;
    reference = reference;
    digest = fetched.digest;
    media_type = doc.media_type;
    is_index = doc.is_index;
    config_ref = record {
      media_type = [];
      digest = [];
      size = ℤ.pos 0;
      platform = none;
      annotations = [];
    };
    config = none;
    layers = [];
    history = [];
    manifest_size = length fetched.raw;
    total_size = ℤ.pos 0;
    subject = doc.subject;
    children = [];
    annotations = doc.annotations;
    raw_manifest = fetched.raw;
  }

  -- `buildImage`; `expand` is what `fillIndex` does once it has listed the children
  unfoldable pub build_image :
      {R : Type 0}
      → (Image R → Client S → Client S × Image R)
      → Bytes
      → Bytes
      → ManifestFetch
      → Action E S (Image R)
  unfolding parse_manifest new_image index_children fill_manifest
  build_image expand repo reference fetched c =
      elim (parse_manifest w.manifest_document fetched.raw fetched.media_type) [
        | err e ↦ raise (manifest_error e) c
        | ok doc ↦
            let img = new_image repo reference fetched doc in
            let (c', filled) =
              if doc.is_index
              then expand (record img { children = index_children doc.manifests }) c
              else fill_manifest img doc c in
            (c', done filled)
      ]

  -- `fillIndex` without resolving
  abbrev pub unresolved : {R : Type 0} → Image R → Client S → Client S × Image R
  unresolved img c = (c, img)

  unfoldable pub resolve_child : Bytes → Bytes → Action E S (Image ⊥)
  unfolding fetch_manifest build_image
  resolve_child repo digest = do
    fetched ← fetch_manifest w repo digest
    build_image unresolved repo digest fetched

  -- A child that cannot be resolved stays as it is.
  unfoldable pub resolve_children :
      Bytes → List (IndexChild (Image ⊥)) → Client S → Client S × List (IndexChild (Image ⊥))
  unfolding resolve_child
  resolve_children repo [] c = (c, [])
  resolve_children repo (child ∷ rest) c =
      let (c₁, r) = resolve_child repo child.descriptor.digest c in
      let (c₂, others) = resolve_children repo rest c₁ in
      let own : IndexChild (Image ⊥) = elim r [
        | fail e ↦ child
        | done img ↦ record child { resolved = some img; size_total = img.total_size }
      ] in
      (c₂, own ∷ others)

  -- the second half of `fillIndex`
  unfoldable pub expand_children : Image (Image ⊥) → Client S → Client S × Image (Image ⊥)
  unfolding resolve_children index_total
  expand_children img c =
      if is_empty img.children
      then (c, img)
      else let (c', children) = resolve_children img.repository img.children c in
        (c', record img { children = children; total_size = index_total children [] (ℤ.pos 0) })

  unfoldable pub image : Bytes → Bytes → Bool → Action E S (Image (Image ⊥))
  unfolding require validate_repository validate_reference fetch_manifest build_image
      expand_children
  image repo reference resolve = do
    require (validate_repository repo)
    require (validate_reference reference)
    fetched ← fetch_manifest w repo reference
    build_image (if resolve then expand_children else unresolved) repo reference fetched

  unfoldable pub summary_of : Bytes → Image (Image ⊥) → TagSummary E
  unfolding first_created child_platforms dedupe_platforms config_created
  summary_of tag img = record {
    name = tag;
    digest = img.digest;
    media_type = img.media_type;
    size = img.total_size;
    created =
        if img.is_index
        then first_created img.children (config_created (some img))
        else config_created (some img);
    platforms = dedupe_platforms (
        if img.is_index then child_platforms img.children else elim img.config [
          | none ↦ []
          | some cfg ↦
              record {
                os = cfg.os;
                architecture = cfg.architecture;
                variant = cfg.variant;
                os_version = [];
              }
              ∷ []
        ]);
    is_index = img.is_index;
    error = none;
  }

  unfoldable pub tag_summary : Bytes → Bytes → Client S → Client S × TagSummary E
  unfolding image summary_of
  tag_summary repo tag c =
      let (c', r) = image repo tag true c in
      (
        c',
        elim r [
          | done img ↦ summary_of tag img
          | fail e ↦ record {
            name = tag;
            digest = [];
            media_type = [];
            size = ℤ.pos 0;
            created = none;
            platforms = [];
            is_index = false;
            error = some e;
          }
        ],
      )
