-- ===== src/Registry/Images.antt =====
-- internal/registry/types.go, manifest.go and client.go: images, their platforms and their sizes.
-- Sizes are int64 and wrap; times are nanoseconds, and `none` is the zero time.
pub mod Sizes
pub mod Platforms
use maze_registry_ui.Prelude.{
  ℕ, ◌+◌, ◌%◌, ◌^◌, List, [], ◌∷◌, ◌++◌, Bool, ◌&&◌, ◌||◌, Option, none, some, Ordering,
  if◌then◌else◌,
}
use maze_registry_ui.Prelude.Assoc.{lookup, insert, keys}
use maze_registry_ui.Prelude.Bytes.{Bytes, codes, is_empty, compare_bytes}
use maze_registry_ui.Prelude.Int.{ℤ}
use maze_registry_ui.Prelude.Order.{by_key, broken_by}
use maze_registry_ui.Prelude.Sort.{sort_by}
use maze_registry_ui.Prelude.Text.{equal_fold, trim_space}
use maze_registry_ui.Registry.Auth.{to_word, of_word}
use maze_registry_ui.Registry.Manifest.{Platform, Descriptor, Layer, HistoryEntry}
use maze_registry_ui.Registry.Client.{RawImageConfig}

pub record ImageConfig : Type 0 where
  pub architecture : Bytes
  pub os : Bytes
  pub variant : Bytes
  pub created : Option ℕ
  pub author : Bytes
  pub labels : List (Bytes × Bytes)
  pub env : List Bytes
  pub entrypoint : List Bytes
  pub cmd : List Bytes
  pub working_dir : Bytes
  pub user : Bytes
  pub exposed_ports : List Bytes
  pub volumes : List Bytes
  pub digest : Bytes
  pub size : ℤ

-- the loop of `flexTime.UnmarshalJSON`; `parse` is `time.Parse`
unfoldable pub first_time : (Bytes → Bytes → Option ℕ) → List Bytes → Bytes → Option ℕ
first_time parse [] s = none
first_time parse (layout ∷ layouts) s =
    let rest = first_time parse layouts s in elim (parse layout s) [ none ↦ rest | some t ↦ some t ]

abbrev pub time_layouts : List Bytes
time_layouts =
    codes "2006-01-02T15:04:05.999999999Z07:00"
    ∷ codes "2006-01-02T15:04:05Z07:00"
    ∷ codes "2006-01-02T15:04:05.999999999Z0700"
    ∷ codes "2006-01-02T15:04:05"
    ∷ codes "2006-01-02 15:04:05 -0700 MST"
    ∷ codes "2006-01-02 15:04:05"
    ∷ []

-- `flexTime.UnmarshalJSON` of a zero time; `none` stands for JSON that is no string
unfoldable pub flex_time : (Bytes → Bytes → Option ℕ) → Option Bytes → Option ℕ
unfolding first_time
flex_time parse none = none
flex_time parse (some s) =
    if is_empty (trim_space s) then none else first_time parse time_layouts (trim_space s)

unfoldable pub sorted_keys : List (Bytes × Bytes) → List Bytes
sorted_keys m = sort_by compare_bytes (keys m)

unfoldable pub config_of : RawImageConfig → ImageConfig
unfolding sorted_keys
config_of doc = record {
  architecture = doc.architecture;
  os = doc.os;
  variant = doc.variant;
  created = doc.created;
  author = doc.author;
  labels = doc.labels;
  env = doc.env;
  entrypoint = doc.entrypoint;
  cmd = doc.cmd;
  working_dir = doc.working_dir;
  user = doc.user;
  exposed_ports = sorted_keys doc.exposed_ports;
  volumes = sorted_keys doc.volumes;
  digest = [];
  size = ℤ.pos 0;
}

unfoldable pub parse_image_config :
    (Bytes → Option RawImageConfig) → Bytes → Option (ImageConfig × List HistoryEntry)
unfolding config_of
parse_image_config decode raw = elim (decode raw) [
  | none ↦ none
  | some doc ↦ some (config_of doc, doc.history)
]

-- A child of an index. R is what a child is resolved to: an image whose own children are not
-- resolved.
pub record IndexChild (R : Type 0) : Type 0 where
  pub descriptor : Descriptor
  pub resolved : Option R
  pub size_total : ℤ

pub record Image (R : Type 0) : Type 0 where
  pub repository : Bytes
  pub reference : Bytes
  pub digest : Bytes
  pub media_type : Bytes
  pub is_index : Bool
  pub config_ref : Descriptor
  pub config : Option ImageConfig
  pub layers : List Layer
  pub history : List HistoryEntry
  pub manifest_size : ℕ
  pub total_size : ℤ
  pub subject : Option Descriptor
  pub children : List (IndexChild R)
  pub annotations : List (Bytes × Bytes)
  pub raw_manifest : Bytes

-- `a + b` on int64
abbrev pub add_int64 : ℤ → ℤ → ℤ
add_int64 a b = of_word ((to_word a + to_word b) % 2 ^ 64)

-- the set `counted`, as the keys of a map
abbrev pub Counted : Type 0
Counted = List (Bytes × Unit)

-- `add` of `distinctSize`, on the set and the total
unfoldable pub add_blob : Bytes → ℤ → Counted × ℤ → Counted × ℤ
unfolding lookup insert
add_blob digest size (counted, total) =
    if is_empty digest then (counted, add_int64 total size) else elim (lookup digest counted) [
      | some _ ↦ (counted, total)
      | none ↦ (insert digest tt counted, add_int64 total size)
    ]

-- the loop of `distinctSize`
unfoldable pub add_layers : List Layer → Counted × ℤ → Counted × ℤ
unfolding add_blob
add_layers [] acc = acc
add_layers (l ∷ ls) acc = add_layers ls (add_blob l.digest l.size acc)

unfoldable pub distinct_size : {R : Type 0} → Image R → Counted → Counted × ℤ
unfolding add_layers
distinct_size img counted =
    add_layers img.layers (add_blob img.config_ref.digest img.config_ref.size (counted, ℤ.pos 0))

-- `Platform.String`
unfoldable pub platform_string : Platform → Bytes
platform_string p =
    if is_empty p.os && is_empty p.architecture
    then codes "unknown"
    else if is_empty p.variant
    then p.os ++ codes "/" ++ p.architecture
    else p.os ++ codes "/" ++ p.architecture ++ codes "/" ++ p.variant

unfoldable pub is_attestation_platform : Platform → Bool
unfolding equal_fold
is_attestation_platform p =
    equal_fold p.os (codes "unknown") && equal_fold p.architecture (codes "unknown")

unfoldable pub platform_key : Platform → Bytes
unfolding platform_string
platform_key p = platform_string p ++ codes "|" ++ p.os_version

-- what the loop of `dedupePlatforms` passes over before it looks at the key
unfoldable pub is_placeholder : Platform → Bool
unfolding is_attestation_platform
is_placeholder p = (is_empty p.os && is_empty p.architecture) || is_attestation_platform p

-- the loop of `dedupePlatforms`: the platforms whose keys are not in `seen`
unfoldable pub distinct_platforms : Counted → List Platform → List Platform
unfolding is_placeholder platform_key lookup insert
distinct_platforms seen [] = []
distinct_platforms seen (p ∷ ps) =
    let skipped = distinct_platforms seen ps in
    let taken = distinct_platforms (insert (platform_key p) tt seen) ps in
    if is_placeholder p
    then skipped
    else elim (lookup (platform_key p) seen) [ some _ ↦ skipped | none ↦ p ∷ taken ]

unfoldable pub compare_platforms : Platform → Platform → Ordering
compare_platforms = broken_by (by_key (λ p. p.os) compare_bytes) (
    broken_by (by_key (λ p. p.architecture) compare_bytes) (
      broken_by (by_key (λ p. p.variant) compare_bytes) (by_key (λ p. p.os_version) compare_bytes)))

-- `slices.SortFunc` may order ties as it likes; platforms that tie are equal.
unfoldable pub dedupe_platforms : List Platform → List Platform
unfolding distinct_platforms compare_platforms
dedupe_platforms ps = sort_by compare_platforms (distinct_platforms [] ps)
