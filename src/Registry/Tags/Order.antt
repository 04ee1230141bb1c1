-- ===== src/Registry/Tags/Order.antt =====
-- internal/registry/client.go: the comparison function of `sortTags` orders the tags, and what
-- that makes of the sorted list.
use mathlib.Core.List.Pairwise
use mathlib.Core.List.Perm
use mathlib.Core.HLevel.{⊥_prop}
use mathlib.Core.List.{Mem, Pairwise, Perm, Pairwise-cons, not-mem-nil, eq-or-mem_of_mem-cons}
use mathlib.Core.Logic.Or
use maze_registry_ui.Prelude.{
  ℕ, ◌≡◌, sym, subst, ap, List, [], ◌∷◌, Ordering, compare, ◌≢◌, ◌⊎◌, inl, inr, if◌then◌else◌,
  arith, Bool-cases,
}
use maze_registry_ui.Prelude.Bytes.{
  Bytes, bytes_eq, bytes_eq_iff, compare_bytes, compare_bytes-IsOrder, compare_bytes-IsStrict,
}
use maze_registry_ui.Prelude.Order.{
  IsOrder, IsStrict, by_key, by_key-IsOrder, reversed, reversed-IsOrder, broken_by,
  broken_by-IsOrder, lex, lex-IsOrder, compare-IsOrder,
}
use maze_registry_ui.Prelude.Sort.{sort_by-perm, sort_by-IsSorted, sort_by-perm_invariant}
use maze_registry_ui.Registry.Tags.{natural_compare, compare_tags, sort_tags, latest}
use maze_registry_ui.Registry.Tags.Natural.{compare_tokens, tokens, natural_compare-tokens}

compare_tokens-IsOrder : IsOrder compare_tokens
unfolding compare_tokens
compare_tokens-IsOrder = record {
  flip = λ a b. ground arith;
  lt_trans = λ a b c p q. ground arith;
  eq_left = λ a b c p. ground arith;
}

natural_compare-IsOrder : IsOrder natural_compare
natural_compare-IsOrder =
    subst IsOrder (λ i a b. sym (natural_compare-tokens a b) i)
      (by_key-IsOrder tokens (lex-IsOrder compare_tokens-IsOrder))

rank : Bytes → ℕ
rank a = if bytes_eq a latest then 0 else 1

-- "latest" first, then the higher version, then the larger string
layers : Bytes → Bytes → Ordering
layers =
    broken_by (by_key rank compare) (broken_by (reversed natural_compare) (reversed compare_bytes))

layers-IsOrder : IsOrder layers
unfolding layers
layers-IsOrder = broken_by-IsOrder (by_key-IsOrder rank compare-IsOrder) (
    broken_by-IsOrder (reversed-IsOrder natural_compare-IsOrder)
      (reversed-IsOrder compare_bytes-IsOrder))

compare_tags-layers : (a b : Bytes) → compare_tags a b ≡ layers a b
unfolding compare_tags layers rank
compare_tags-layers a b = ground (
  arith,
  bytes_eq_iff a b,
  bytes_eq_iff a latest,
  bytes_eq_iff b latest,
  natural_compare-IsOrder.flip a b,
  natural_compare-IsOrder.flip a a,
  compare_bytes-IsOrder.flip a a,
)

pub compare_tags-IsOrder : IsOrder compare_tags
compare_tags-IsOrder = subst IsOrder (λ i a b. sym (compare_tags-layers a b) i) layers-IsOrder

pub compare_tags-IsStrict : IsStrict compare_tags
unfolding layers
compare_tags-IsStrict a b h = ground (arith, compare_tags-layers a b, compare_bytes-IsStrict b a)

-- How two tags of a listing may follow one another: "latest" before all, and no version before a
-- newer one.
abbrev pub ListedBefore : Bytes → Bytes → Type 0
ListedBefore a b =
    (a ≡ latest) ⊎ ((b ≢ latest) × (lex compare_tokens (tokens a) (tokens b) ≢ Ordering.lt))

ListedBefore-of_compare : (a b : Bytes) → compare_tags a b ≢ Ordering.gt → ListedBefore a b
unfolding layers rank
ListedBefore-of_compare a b h = ground (
  arith,
  compare_tags-layers a b,
  bytes_eq_iff a latest,
  bytes_eq_iff b latest,
  natural_compare-tokens a b,
  natural_compare-IsOrder.flip a b,
)

-- sortTags returns the tags that it was given, none lost or added, with "latest" before all
-- others and otherwise no tag before one whose version is newer, a version being compared token
-- by token with each run of digits read as a number.
pub sort_tags_ordered :
    (tags : List Bytes) → Perm (sort_tags tags) tags × Pairwise ListedBefore (sort_tags tags)
unfolding sort_tags
sort_tags_ordered tags = (
  sort_by-perm compare_tags tags,
  Pairwise.imp ListedBefore-of_compare (sort_by-IsSorted compare_tags-IsOrder tags),
)

-- Two lists that are rearrangements of one another are sorted by sortTags into the same list.
sort_tags_deterministic :
    (tags others : List Bytes) → Perm tags others → sort_tags tags ≡ sort_tags others
unfolding sort_tags
sort_tags_deterministic tags others p =
    sort_by-perm_invariant compare_tags-IsOrder compare_tags-IsStrict p

latest_head :
    (l : List Bytes)
    → Pairwise ListedBefore l
    → Mem latest l
    → (rest : List Bytes) × (l ≡ latest ∷ rest)
latest_head [] s m = absurd (not-mem-nil m)
latest_head (a ∷ l) s m = elim (Bool-cases (bytes_eq a latest)) [
  | inl e ↦ (l, ap (λ x. x ∷ l) ((bytes_eq_iff a latest).0 e))
  | inr e ↦ absurd (
      Or.elim ⊥_prop (eq-or-mem_of_mem-cons m) (λ q. ground (arith, bytes_eq_iff a latest))
        (λ t. let f = (Pairwise-cons.0 s).0 latest t in ground (arith, bytes_eq_iff a latest)))
]

-- If "latest" is among the tags, sortTags lists it first.
sort_tags-latest :
    (tags : List Bytes) → Mem latest tags → (rest : List Bytes) × (sort_tags tags ≡ latest ∷ rest)
sort_tags-latest tags m =
    let (same, ordered) = sort_tags_ordered tags in
    latest_head (sort_tags tags) ordered ((Perm.mem_iff same).1 m)
