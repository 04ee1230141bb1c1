-- ===== src/Registry/Client/Totals.antt =====
-- internal/registry/client.go: the total size of an index, the loop at the end of `fillIndex`.
use maze_registry_ui.Prelude.{◌+◌, ◌%◌, ◌^◌, ◌≡◌, List, [], ◌∷◌, ◌++◌, none, some, arith}
use maze_registry_ui.Prelude.Bytes.{Bytes}
use maze_registry_ui.Prelude.Int.{ℤ}
use maze_registry_ui.Registry.Auth.{to_word}
use maze_registry_ui.Registry.Images.{IndexChild, Image, Counted, add_int64, distinct_size}
use maze_registry_ui.Registry.Images.Sizes.{
  Blob, image_blobs, index_blobs, distinct_sum, distinct_sum-append, after, Agrees, Agrees-empty,
  distinct_size-IsRun, to_word_bounded, to_word-add_int64,
}
use maze_registry_ui.Registry.Client.Resolve.{index_total}

module _ {R : Type 0} where
  index_total_from :
      (children : List (IndexChild (Image R))) (before : List Bytes) (counted : Counted) (total : ℤ)
      → Agrees counted before
      → to_word (index_total children counted total)
        ≡ (to_word total + distinct_sum before (index_blobs children)) % 2 ^ 64
  unfolding index_total
  index_total_from [] before counted total h = omega (arith, to_word_bounded total)
  index_total_from (child ∷ rest) before counted total h =
      elim child.resolved
        as (λ o.
          to_word (elim o as (λ x. ℤ) [
            | none ↦ index_total rest counted total
            | some img ↦
                let (counted', size) = distinct_size img counted in
                index_total rest counted' (add_int64 total size)
          ])
          ≡ (to_word total
              + distinct_sum before (elim o as (λ x. List Blob) [
                | none ↦ index_blobs rest
                | some img ↦ image_blobs img ++ index_blobs rest
              ]))
            % 2 ^ 64) [
              | none ↦ index_total_from rest before counted total h
              | some img ↦
                  let run = distinct_size-IsRun img before counted h in
                  omega (
                    arith,
                    run.total,
                    to_word-add_int64 total (distinct_size img counted).1,
                    distinct_sum-append (image_blobs img) (index_blobs rest) before,
                    index_total_from rest (after before (image_blobs img))
                        (distinct_size img counted).0
                        (add_int64 total (distinct_size img counted).1) run.agrees,
                  )
            ]

  -- The total size that fillIndex gives an index is, modulo 2^64, the sum over the config and
  -- layer blobs of all its resolved children in their order, where a blob that has a digest
  -- counts only if no blob before it, of the same child or another, has the digest.
  pub index_total_distinct :
      (children : List (IndexChild (Image R)))
      → to_word (index_total children [] (ℤ.pos 0))
        ≡ distinct_sum [] (index_blobs children) % 2 ^ 64
  index_total_distinct children =
      omega (arith, index_total_from children [] [] (ℤ.pos 0) Agrees-empty)
