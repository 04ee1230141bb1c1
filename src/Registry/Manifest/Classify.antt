-- ===== src/Registry/Manifest/Classify.antt =====
-- internal/registry/manifest.go: what `parseManifest` accepts, and what it makes of it.
use maze_registry_ui.Prelude.{
  ◌≡◌, ◌≢◌, ◌⊎◌, ◌<◌, refl, List, [], ◌∷◌, true, false, Option, some, arith, length,
}
use maze_registry_ui.Prelude.Bytes.{Bytes, is_empty}
use maze_registry_ui.Prelude.Int.{ℤ}
use maze_registry_ui.Registry.Manifest.{
  ManifestDoc, ManifestError, Result, ok, err, classify, classify_by_shape, classified,
  effective_type, parse_manifest, is_schema1_type, is_index_type, is_manifest_type, is_one,
}

-- What is true of a document that `parseManifest` returns, `from` being the decoded one.
pub record IsClassified (from doc : ManifestDoc) : Type 0 where
  pub not_schema1 : is_schema1_type doc.media_type ≡ false
  pub version : from.schema_version ≢ ℤ.pos 1
  pub no_fs_layers : from.fs_layers ≡ 0
  pub typed : doc.media_type ≢ []
  pub indexes : (is_index_type doc.media_type ≡ false) ⊎ (doc.is_index ≡ true)
  pub images : (is_manifest_type doc.media_type ≡ false) ⊎ (doc.is_index ≡ false)
  pub index_shape :
      (doc.is_index ≡ false) ⊎ ((is_index_type doc.media_type ≡ true) ⊎ (0 < length doc.manifests))
  pub rest : doc ≡ classified from doc.media_type doc.is_index

module _ (from : ManifestDoc) where
  -- the facts that every branch establishes
  abbrev Guards : Type 0
  Guards = (from.schema_version ≢ ℤ.pos 1) × (from.fs_layers ≡ 0)

length_pos_of_ne {ℓ} : {A : Type ℓ} (l : List A) → l ≢ [] → 0 < length l
length_pos_of_ne [] h = absurd (h refl)
length_pos_of_ne (x ∷ l) h = omega arith

is_empty_of_ne : (l : Bytes) → l ≢ [] → is_empty l ≡ false
is_empty_of_ne [] h = absurd (h refl)
is_empty_of_ne (x ∷ l) h = refl

accepted {ℓ} :
    {A : Type ℓ} (r : Result A) → ((e : ManifestError) → r ≢ err e) → (a : A) × (r ≡ ok a)
accepted (ok a) h = (a, refl)
accepted (err e) h = absurd (h e refl)

classify-ne-err :
    (from : ManifestDoc) (mt : Bytes) (e : ManifestError)
    → is_schema1_type mt ≡ false
    → from.schema_version ≢ ℤ.pos 1
    → from.fs_layers ≡ 0
    → ((is_index_type mt ≡ true)
        ⊎ ((is_manifest_type mt ≡ true)
            ⊎ ((from.manifests ≢ []) ⊎ ((from.config.digest ≢ []) ⊎ (from.layers ≢ [])))))
    → classify from mt ≢ err e
unfolding classify classify_by_shape is_one
classify-ne-err from mt e s v f sign = ground (
  arith,
  length_pos_of_ne from.manifests,
  length_pos_of_ne from.layers,
  is_empty_of_ne from.config.digest,
)

-- parseManifest accepts a document that decodes, bears no mark of schema 1, and either has the
-- media type of an index or an image, in the document or else in the response, or lists
-- manifests, names a config, or lists layers.
parse_manifest_accepts :
    (decode : Bytes → Option ManifestDoc) (raw header : Bytes) (from : ManifestDoc)
    → decode raw ≡ some from
    → is_schema1_type (effective_type from header) ≡ false
    → from.schema_version ≢ ℤ.pos 1
    → from.fs_layers ≡ 0
    → ((is_index_type (effective_type from header) ≡ true)
        ⊎ ((is_manifest_type (effective_type from header) ≡ true)
            ⊎ ((from.manifests ≢ []) ⊎ ((from.config.digest ≢ []) ⊎ (from.layers ≢ [])))))
    → (doc : ManifestDoc) × (parse_manifest decode raw header ≡ ok doc)
unfolding parse_manifest
parse_manifest_accepts decode raw header from e s v f sign =
    rw (e, parse_manifest)
      (accepted (classify from (effective_type from header))
        (λ x. classify-ne-err from (effective_type from header) x s v f sign))
