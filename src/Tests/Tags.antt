-- ===== src/Tests/Tags.antt =====
-- `sortTags` on the tags of its tests.
use mathlib.Core.List.{Pairwise, Perm}
use maze_registry_ui.Prelude.{◌≡◌, refl, List, [], ◌∷◌, Ordering}
use maze_registry_ui.Prelude.Bytes.{Bytes, codes, bytes_eq, compare_bytes}
use maze_registry_ui.Prelude.Sort.{sort_by}
use maze_registry_ui.Registry.Tags.{
  digit_run, after_run, compare_runs, natural_loop, natural_compare, compare_tags, sort_tags,
}
use maze_registry_ui.Registry.Tags.Order.{ListedBefore, sort_tags_ordered}
use maze_registry_ui.Registry.Tags.Natural.{compare_tokens, tokens, natural_compare-tokens}
use maze_registry_ui.Prelude.Order.{lex}

program : Unit {0}
unfolding bytes_eq compare_bytes sort_by digit_run after_run compare_runs natural_loop
    natural_compare compare_tags sort_tags
program = tt

versions :
    sort_tags
      (codes "1.9.0" ∷ codes "1.10.0" ∷ codes "latest" ∷ codes "v2" ∷ codes "1.10.0-rc1" ∷ [])
    ≡ codes "latest" ∷ codes "v2" ∷ codes "1.10.0-rc1" ∷ codes "1.10.0" ∷ codes "1.9.0" ∷ []
unfolding program
versions = refl

-- leading zeros do not show in `naturalCompare` at all; only `sortTags` tells the two apart
leading_zeros : natural_compare (codes "1.0") (codes "1.00") ≡ Ordering.eq
unfolding program
leading_zeros = refl

abbrev some_tags : List Bytes
some_tags = codes "2" ∷ codes "latest" ∷ []

sort_tags_ordered_example :
    Perm (sort_tags some_tags) some_tags × Pairwise ListedBefore (sort_tags some_tags)
sort_tags_ordered_example = sort_tags_ordered some_tags

natural_compare-tokens_example :
    natural_compare (codes "v10") (codes "v9")
    ≡ lex compare_tokens (tokens (codes "v10")) (tokens (codes "v9"))
natural_compare-tokens_example = natural_compare-tokens (codes "v10") (codes "v9")
