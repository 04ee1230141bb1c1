-- ===== src/Server/Views.antt =====
-- internal/server/handlers.go: the data of the image page, `buildImagePage` and what it calls. The
-- arithmetic on floating-point numbers is the record `Floats`.
pub mod Child
pub mod Layers
pub mod Page
pub mod Positions
use maze_registry_ui.Prelude.{
  ℕ, suc, ◌+◌, List, [], ◌∷◌, ◌++◌, map, Bool, true, false, ◌&&◌, ◌||◌, not, Option, none, some,
  Ordering, ◌==◌, if◌then◌else◌, take,
}
use maze_registry_ui.Prelude.Assoc.{lookup, insert, keys}
use maze_registry_ui.Prelude.Bytes.{Bytes, codes, bytes_eq, is_empty, compare_bytes}
use maze_registry_ui.Prelude.Int.{ℤ, le_zero, compare_int}
use maze_registry_ui.Prelude.Order.{by_key, reversed}
use maze_registry_ui.Prelude.Sort.{sort_by}
use maze_registry_ui.Config.{Config, Registry}
use maze_registry_ui.Registry.Manifest.{Platform, Descriptor, Layer}
use maze_registry_ui.Registry.Images.{Image, ImageConfig, IndexChild, add_int64, platform_string}
use maze_registry_ui.Server.Links.{Kv, split_env, split_repo, pull_command}

-- `sortedKV`
unfoldable pub entries_of : List Bytes → List (Bytes × Bytes) → List Kv
unfolding lookup
entries_of [] m = []
entries_of (k ∷ ks) m =
    record { key = k; value = elim (lookup k m) [ none ↦ [] | some v ↦ v ] } ∷ entries_of ks m

unfoldable pub sorted_kv : List (Bytes × Bytes) → List Kv
unfolding entries_of sort_by
sorted_kv m = entries_of (sort_by compare_bytes (keys m)) m

-- `float64(size)/float64(total) > 0.05`, `float64(size)/float64(total) * 1000`, 1.0 and `%.4f`
pub record Floats : Type 1 where
  pub Float : Type 0
  pub one : Float
  pub over_twentieth : ℤ → ℤ → Bool
  pub per_mille : ℤ → ℤ → Float
  pub print : Float → Bytes

-- the total of the sizes, on int64
unfoldable pub total_bytes : List Layer → ℤ → ℤ
total_bytes [] total = total
total_bytes (l ∷ ls) total = total_bytes ls (add_int64 total l.size)

-- the layers with their positions, from a first position on
unfoldable pub number : ℕ → List Layer → List (ℕ × Layer)
number i [] = []
number i (l ∷ ls) = (i, l) ∷ number (i + 1) ls

-- the comparison that `layerViews` gives to `sort.SliceStable`: the larger size first
unfoldable pub by_size : ℕ × Layer → ℕ × Layer → Ordering
by_size = reversed (by_key (λ e. e.1.size) compare_int)

unfoldable pub ranked : List Layer → List (ℕ × Layer)
unfolding number by_size
ranked layers = sort_by by_size (number 0 layers)

abbrev pub has_index : ℕ → List ℕ → Bool
has_index i [] = false
has_index i (j ∷ js) = j == i || has_index i js

pub record LayerView (Float : Type 0) : Type 0 where
  pub index : ℕ
  pub digest : Bytes
  pub media_type : Bytes
  pub command : Bytes
  pub size : ℤ
  pub hot : Bool
  pub grow : Float

module _ (floats : Floats) where
  -- the positions that the loop over `ranked` enters into `hot`
  unfoldable pub hot_of : ℤ → List (ℕ × Layer) → List ℕ
  hot_of total [] = []
  hot_of total ((i, l) ∷ es) =
      let rest = hot_of total es in
      if not (le_zero total) && floats.over_twentieth l.size total then i ∷ rest else rest

  unfoldable pub hot_layers : List Layer → List ℕ
  unfolding hot_of ranked total_bytes
  hot_layers layers = hot_of (total_bytes layers (ℤ.pos 0)) (take 3 (ranked layers))

  unfoldable pub layer_view : ℤ → List ℕ → ℕ × Layer → LayerView floats.Float
  layer_view total hot (i, l) = record {
    index = i + 1;
    digest = l.digest;
    media_type = l.media_type;
    command = l.command;
    size = l.size;
    hot = has_index i hot;
    grow = if not (le_zero total) then floats.per_mille l.size total else floats.one;
  }

  unfoldable pub layer_views : List Layer → List (LayerView floats.Float)
  unfolding layer_view hot_layers number total_bytes
  layer_views layers =
      map (layer_view (total_bytes layers (ℤ.pos 0)) (hot_layers layers)) (number 0 layers)

  unfoldable pub layer_css : (ℕ → Bytes) → List (LayerView floats.Float) → Bytes
  layer_css itoa [] = []
  layer_css itoa (l ∷ ls) =
      codes ".layerbar__seg[data-layer=\""
      ++ (itoa l.index
          ++ (codes "\"]{flex-grow:" ++ (floats.print l.grow ++ (codes "}" ++ layer_css itoa ls))))

abbrev pub is_unknown : Platform → Bool
is_unknown p = bytes_eq p.os (codes "unknown") || bytes_eq p.architecture (codes "unknown")

abbrev pub is_preferred : Platform → Bool
is_preferred p = bytes_eq p.os (codes "linux") && bytes_eq p.architecture (codes "amd64")

module _ {R : Type 0} where
  -- the platform of a child that can stand for the index, with the image that it resolved to
  unfoldable pub candidate : IndexChild (Image R) → Option (Platform × Image R)
  candidate c = elim c.resolved [
    | none ↦ none
    | some img ↦ elim c.descriptor.platform [
      | none ↦ none
      | some p ↦ if is_empty img.layers || is_unknown p then none else some (p, img)
    ]
  ]

  -- the loop of `representativeChild`, with its `fallback`
  unfoldable pub representative_from :
      Option (Platform × Image R) → List (IndexChild (Image R)) → Option (Platform × Image R)
  representative_from fallback [] = fallback
  representative_from fallback (c ∷ cs) =
      let skipped = representative_from fallback cs in
      elim (candidate c) [
        | none ↦ skipped
        | some (p, img) ↦
            let kept = representative_from fallback cs in
            let taken = representative_from (some (p, img)) cs in
            if is_preferred p then some (p, img) else elim fallback [ none ↦ taken | some _ ↦ kept ]
      ]

  unfoldable pub representative_child : List (IndexChild (Image R)) → Option (Platform × Image R)
  unfolding representative_from
  representative_child cs = representative_from none cs

pub record ChildView : Type 0 where
  pub platform : Bytes
  pub digest : Bytes
  pub size : ℤ
  pub href : Bytes
  pub attestation : Bool

-- what the loop over the children fills
pub record ChildRows : Type 0 where
  pub children : List ChildView
  pub platforms : List Bytes
  pub seen : List (Bytes × Unit {0})
  pub created : Option ℕ

abbrev pub is_zero_size : ℤ → Bool
is_zero_size (ℤ.pos n) = n == 0
is_zero_size (ℤ.negsuc n) = false

-- `fmt.Sprintf("%s/r/%s/image/%s?ref=%s", ...)`
unfoldable pub image_href : (Bytes → Bytes) → Bytes → Bytes → Bytes → Bytes → Bytes
image_href escape base_path rid repo ref =
    base_path
    ++ (codes "/r/" ++ (rid ++ (codes "/image/" ++ (repo ++ (codes "?ref=" ++ escape ref)))))

abbrev pub or_date : Option ℕ → Option ℕ → Option ℕ
or_date none later = later
or_date (some t) later = some t

module _ {R : Type 0} where
  unfoldable pub child_view : (Bytes → Bytes) → IndexChild (Image R) → ChildView
  unfolding platform_string
  child_view href c = record {
    platform = elim c.descriptor.platform [ none ↦ codes "unknown" | some p ↦ platform_string p ];
    digest = c.descriptor.digest;
    size = if is_zero_size c.size_total then c.descriptor.size else c.size_total;
    href = href c.descriptor.digest;
    attestation = elim c.descriptor.platform [ none ↦ false | some p ↦ is_unknown p ];
  }

  -- the creation date that a child can lend to the index
  unfoldable pub lent_date : IndexChild (Image R) → Option ℕ
  lent_date c = elim c.resolved [
    | none ↦ none
    | some img ↦ elim img.config [ none ↦ none | some cfg ↦ cfg.created ]
  ]

  unfoldable pub add_child : (Bytes → Bytes) → IndexChild (Image R) → ChildRows → ChildRows
  unfolding child_view lent_date lookup insert
  add_child href c rows =
      let view = child_view href c in
      let old = rows.platforms in
      let listed : Bool = elim (lookup view.platform rows.seen) [ none ↦ false | some _ ↦ true ] in
      let new = not view.attestation && not listed in
      record {
        children = rows.children ++ view ∷ [];
        platforms = if new then old ++ view.platform ∷ [] else old;
        seen = if new then insert view.platform tt rows.seen else rows.seen;
        created = or_date rows.created (lent_date c);
      }

  unfoldable pub add_children :
      (Bytes → Bytes) → List (IndexChild (Image R)) → ChildRows → ChildRows
  unfolding add_child
  add_children href [] rows = rows
  add_children href (c ∷ cs) rows = add_children href cs (add_child href c rows)
