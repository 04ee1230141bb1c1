-- ===== src/Registry/Images/Sizes.antt =====
-- internal/registry/client.go: the total size of an index, in `distinctSize` and in the loop of
-- `fillIndex` that calls it.
use maze_registry_ui.Prelude.{
  ℕ, ◌+◌, ◌%◌, ◌^◌, ◌<◌, ◌≡◌, refl, sym, subst, ◌∙◌, List, [], ◌∷◌, ◌++◌, map, Bool, true, false,
  ◌&&◌, ◌||◌, ◌⊎◌, not, none, some, if◌then◌else◌, arith, Bool-cases, inl, inr,
}
use maze_registry_ui.Prelude.Assoc.{lookup, insert, lookup-insert}
use maze_registry_ui.Prelude.Bytes.{Bytes, is_empty, bytes_eq, bytes_eq_iff}
use maze_registry_ui.Prelude.Int.{ℤ}
use maze_registry_ui.Registry.Auth.{to_word, of_word}
use maze_registry_ui.Registry.Manifest.{Layer}
use maze_registry_ui.Registry.Images.{
  IndexChild, Image, Counted, add_int64, add_blob, add_layers, distinct_size,
}

to_word_of : (w : ℕ) → w < 2 ^ 64 → to_word (of_word w) ≡ w
to_word_of w h = ground arith

-- a digest and a size
abbrev pub Blob : Type 0
Blob = Bytes × ℤ

abbrev pub layer_blob : Layer → Blob
layer_blob l = (l.digest, l.size)

abbrev pub image_blobs : {R : Type 0} → Image R → List Blob
image_blobs img = (img.config_ref.digest, img.config_ref.size) ∷ map layer_blob img.layers

-- the blobs of the children that were resolved
abbrev pub index_blobs : {R : Type 0} → List (IndexChild (Image R)) → List Blob
index_blobs [] = []
index_blobs (child ∷ rest) = elim child.resolved [
  | none ↦ index_blobs rest
  | some img ↦ image_blobs img ++ index_blobs rest
]

abbrev pub is_seen : List Bytes → Bytes → Bool
is_seen [] d = false
is_seen (x ∷ xs) d = bytes_eq x d || is_seen xs d

-- The sum of the sizes, as words of 64 bits, where a blob counts if it has no digest or if its
-- digest is neither among the given ones nor that of an earlier blob.
abbrev pub distinct_sum : List Bytes → List Blob → ℕ
distinct_sum before [] = 0
distinct_sum before ((d, s) ∷ bs) =
    (if not (is_empty d) && is_seen before d then 0 else to_word s) + distinct_sum (d ∷ before) bs

pub after : List Bytes → List Blob → List Bytes
after before [] = before
after before (b ∷ bs) = after (b.0 ∷ before) bs

pub distinct_sum-append :
    (xs ys : List Blob) (before : List Bytes)
    → distinct_sum before (xs ++ ys) ≡ distinct_sum before xs + distinct_sum (after before xs) ys
unfolding after
distinct_sum-append [] ys before = omega arith
distinct_sum-append ((d, s) ∷ xs) ys before = omega (arith, distinct_sum-append xs ys (d ∷ before))

is_counted : Bytes → Counted → Bool
is_counted d counted = elim (lookup d counted) [ none ↦ false | some _ ↦ true ]

pub Agrees : Counted → List Bytes → Type 0
Agrees counted before = (d : Bytes) → is_empty d ≡ false → is_counted d counted ≡ is_seen before d

pub Agrees-empty : Agrees [] []
unfolding Agrees is_counted lookup
Agrees-empty d e = refl

-- What a run over some blobs makes of the set and of the total.
pub record IsRun (before : List Bytes) (bs : List Blob) (from to : Counted × ℤ) : Type 0 where
  pub agrees : Agrees to.0 (after before bs)
  pub total : to_word to.1 ≡ (to_word from.1 + distinct_sum before bs) % 2 ^ 64

pub to_word_bounded : (z : ℤ) → to_word z < 2 ^ 64
to_word_bounded (ℤ.pos n) = omega arith
to_word_bounded (ℤ.negsuc n) = omega arith

pub to_word-add_int64 : (a b : ℤ) → to_word (add_int64 a b) ≡ (to_word a + to_word b) % 2 ^ 64
to_word-add_int64 a b = to_word_of ((to_word a + to_word b) % 2 ^ 64) (omega arith)

Agrees-insert :
    (d : Bytes) (before : List Bytes) (counted : Counted)
    → Agrees counted before
    → Agrees (insert d tt counted) (d ∷ before)
unfolding Agrees is_counted
Agrees-insert d before counted h e k = ground (arith, h e k, lookup-insert d e tt counted)

Agrees-known :
    (d : Bytes) (before : List Bytes) (counted : Counted)
    → (is_empty d ≡ true) ⊎ (is_seen before d ≡ true)
    → Agrees counted before
    → Agrees counted (d ∷ before)
unfolding Agrees is_counted
Agrees-known d before counted known h e k = ground (arith, h e k, bytes_eq_iff d e)

-- the three ways of `add`: a blob without a digest, one whose digest is known, and a new one
add_blob_without :
    (d : Bytes) (s : ℤ) (counted : Counted) (total : ℤ)
    → is_empty d ≡ true
    → add_blob d s (counted, total) ≡ (counted, add_int64 total s)
unfolding add_blob
add_blob_without d s counted total e = rw e refl

add_blob_known :
    (d : Bytes) (s : ℤ) (counted : Counted) (total : ℤ)
    → is_empty d ≡ false
    → is_counted d counted ≡ true
    → add_blob d s (counted, total) ≡ (counted, total)
unfolding add_blob is_counted
add_blob_known d s counted total e k = ground arith

add_blob_new :
    (d : Bytes) (s : ℤ) (counted : Counted) (total : ℤ)
    → is_empty d ≡ false
    → is_counted d counted ≡ false
    → add_blob d s (counted, total) ≡ (insert d tt counted, add_int64 total s)
unfolding add_blob is_counted
add_blob_new d s counted total e k = ground arith

add_blob-IsRun :
    (d : Bytes) (s : ℤ) (before : List Bytes) (acc : Counted × ℤ)
    → Agrees acc.0 before
    → IsRun before ((d, s) ∷ []) acc (add_blob d s acc)
unfolding after Agrees
add_blob-IsRun d s before (counted, total) h = elim (Bool-cases (is_empty d)) [
  | inl e ↦
      subst (IsRun before ((d, s) ∷ []) (counted, total))
        (sym (add_blob_without d s counted total e))
        record {
          agrees = Agrees-known d before counted (inl e) h;
          total = ground (arith, to_word-add_int64 total s);
        }
  | inr e ↦ elim (Bool-cases (is_seen before d)) [
    | inl seen ↦
        subst (IsRun before ((d, s) ∷ []) (counted, total))
          (sym (add_blob_known d s counted total e (h d e ∙ seen)))
          record {
            agrees = Agrees-known d before counted (inr seen) h;
            total = ground (arith, to_word_bounded total);
          }
    | inr new ↦
        subst (IsRun before ((d, s) ∷ []) (counted, total))
          (sym (add_blob_new d s counted total e (h d e ∙ new)))
          record {
            agrees = Agrees-insert d before counted h;
            total = ground (arith, to_word-add_int64 total s);
          }
  ]
]

add_layers-IsRun :
    (ls : List Layer) (before : List Bytes) (acc : Counted × ℤ)
    → Agrees acc.0 before
    → IsRun before (map layer_blob ls) acc (add_layers ls acc)
unfolding add_layers after
add_layers-IsRun [] before acc h = record {
  agrees = h;
  total = omega (arith, to_word_bounded acc.1);
}
add_layers-IsRun (l ∷ ls) before acc h =
    let first = add_blob-IsRun l.digest l.size before acc h in
    let rest =
      add_layers-IsRun ls (l.digest ∷ before) (add_blob l.digest l.size acc) first.agrees in
    record { agrees = rest.agrees; total = omega (arith, first.total, rest.total) }

pub distinct_size-IsRun :
    {R : Type 0} (img : Image R) (before : List Bytes) (counted : Counted)
    → Agrees counted before
    → IsRun before (image_blobs img) (counted, ℤ.pos 0) (distinct_size img counted)
unfolding distinct_size after
distinct_size-IsRun img before counted h =
    let config = img.config_ref in
    let first = add_blob-IsRun config.digest config.size before (counted, ℤ.pos 0) h in
    let rest =
      add_layers-IsRun img.layers (config.digest ∷ before)
        (add_blob config.digest config.size (counted, ℤ.pos 0)) first.agrees in
    record { agrees = rest.agrees; total = omega (arith, first.total, rest.total) }
