-- ===== src/Registry/Tags.antt =====
-- internal/registry/client.go: the order in which tags are listed, `sortTags` and `naturalCompare`.
-- An index into a string that only moves forward is the suffix that is left.
pub mod Digits
pub mod Natural
pub mod Order
use maze_registry_ui.Prelude.{
  ℕ, zero, suc, List, [], ◌∷◌, Bool, ◌&&◌, true, false, Ordering, compare, leb, ltb, ◌==◌,
  if◌then◌else◌, length,
}
use maze_registry_ui.Prelude.Bytes.{Bytes, codes, bytes_eq, compare_bytes}
use maze_registry_ui.Prelude.Order.{swap}
use maze_registry_ui.Prelude.Sort.{sort_by}

unfoldable pub is_ascii_digit : ℕ → Bool
is_ascii_digit b = leb b'0' b && leb b b'9'

-- the run of digits at the front, and what follows it
unfoldable pub digit_run : Bytes → Bytes
unfolding is_ascii_digit
digit_run [] = []
digit_run (x ∷ s) = if is_ascii_digit x then x ∷ digit_run s else []

unfoldable pub after_run : Bytes → Bytes
unfolding is_ascii_digit
after_run [] = []
after_run (x ∷ s) = if is_ascii_digit x then after_run s else x ∷ s

-- `strings.TrimLeft(s, "0")`
unfoldable pub trim_zeros : Bytes → Bytes
trim_zeros [] = []
trim_zeros (x ∷ s) = if x == b'0' then trim_zeros s else x ∷ s

-- the two early returns on a pair of digit runs; `eq` means that the loop goes on
unfoldable pub compare_runs : Bytes → Bytes → Ordering
unfolding trim_zeros
compare_runs a b =
    let num_a = trim_zeros a in
    let num_b = trim_zeros b in
    if length num_a == length num_b
    then (if bytes_eq num_a num_b then Ordering.eq else compare_bytes num_a num_b)
    else if ltb (length num_a) (length num_b)
    then Ordering.lt
    else Ordering.gt

-- The loop of `naturalCompare`, on fuel: each round shortens `a`.
unfoldable pub natural_loop : ℕ → Bytes → Bytes → Ordering
natural_loop zero a b = compare (length a) (length b)
natural_loop (suc fuel) [] b = compare 0 (length b)
natural_loop (suc fuel) (x ∷ a) [] = compare (length (x ∷ a)) 0
natural_loop (suc fuel) (x ∷ a) (y ∷ b) =
    let runs = natural_loop fuel (after_run (x ∷ a)) (after_run (y ∷ b)) in
    let rest = natural_loop fuel a b in
    if is_ascii_digit x && is_ascii_digit y
    then elim (compare_runs (digit_run (x ∷ a)) (digit_run (y ∷ b))) [
      | Ordering.eq ↦ runs
      | Ordering.lt ↦ Ordering.lt
      | Ordering.gt ↦ Ordering.gt
    ]
    else if x == y
    then rest
    else if ltb x y
    then Ordering.lt
    else Ordering.gt

unfoldable pub natural_compare : Bytes → Bytes → Ordering
unfolding natural_loop
natural_compare a b = natural_loop (length a) a b

abbrev pub latest : Bytes
latest = codes "latest"

-- the function that `sortTags` sorts by
unfoldable pub compare_tags : Bytes → Bytes → Ordering
compare_tags a b =
    if bytes_eq a b
    then Ordering.eq
    else if bytes_eq a latest
    then Ordering.lt
    else if bytes_eq b latest
    then Ordering.gt
    else elim (natural_compare a b) [
      | Ordering.eq ↦ compare_bytes b a
      | Ordering.lt ↦ Ordering.gt
      | Ordering.gt ↦ Ordering.lt
    ]

unfoldable pub sort_tags : List Bytes → List Bytes
sort_tags tags = sort_by compare_tags tags
