-- ===== src/Server/Catalog.antt =====
-- internal/server/catalog.go and `buildCatalog` of internal/server/handlers.go: the list of
-- repositories of a registry, its cache, its filter and its pages.
pub mod Walk
pub mod Listing
pub mod Filter
pub mod Pages
use maze_registry_ui.Prelude.{
  ℕ, zero, suc, ◌+◌, ◌-◌, ◌≤◌, List, [], ◌∷◌, ◌++◌, Bool, true, false, ◌&&◌, ◌||◌, not, Option,
  none, some, leb, ltb, ◌==◌, if◌then◌else◌, length, take, drop, min,
}
use maze_registry_ui.Prelude.Bytes.{Bytes, bytes_eq, compare_bytes, is_empty}
use maze_registry_ui.Prelude.Int.{ℤ, pos_part, neg_part, le_zero}
use maze_registry_ui.Prelude.Sort.{sort_by}
use maze_registry_ui.Prelude.Text.{to_lower, contains, fields}

-- `registry.CatalogPage`, a repository being its name
pub record CatalogPage : Type 0 where
  pub repositories : List Bytes
  pub next_last : Bytes

-- What a client's `Catalog` returns. Errors are of a type that the model does not look into.
pub data Fetched (E : Type 0) : Type 0 where
  page : CatalogPage → Fetched E
  failed : E → Fetched E

abbrev pub max_catalog_entries : ℕ
max_catalog_entries = 50000

-- The inner loop of `walkCatalog`: the names so far, and whether the limit was reached.
unfoldable pub collect : ℕ → List Bytes → List Bytes → List Bytes × Bool
collect limit all [] = (all, false)
collect limit all (r ∷ rs) =
    let all' = all ++ r ∷ [] in
    let rest = collect limit all' rs in if leb limit (length all') then (all', true) else rest

-- what `walkCatalog` returns
pub data Walked (E : Type 0) : Type 0 where
  names : List Bytes → Walked E
  broken : E → Walked E

-- `at` is `none` for the zero time. A nil slice is the empty list.
pub record CatalogEntry (E : Type 0) : Type 0 where
  pub repos : List Bytes
  pub at : Option ℕ
  pub error : Option E

-- the entry of a registry, and how many walks of its catalog were made
pub record CatalogState (E : Type 0) : Type 0 where
  pub entry : CatalogEntry E
  pub walks : ℕ

-- `sort.Strings`
abbrev pub sort_strings : List Bytes → List Bytes
sort_strings = sort_by compare_bytes

module _ {E : Type 0} where
  -- The loop of `walkCatalog`. The client answers its k-th call by `fetch k`; `none` means that
  -- the fuel ran out before the loop ended.
  unfoldable pub walk_loop :
      ℕ → (ℕ → ℤ → Bytes → Fetched E) → ℤ → ℕ → ℕ → List Bytes → Bytes → Option (Walked E)
  walk_loop limit fetch page_size zero k all last = none
  walk_loop limit fetch page_size (suc fuel) k all last = elim (fetch k page_size last) [
    | failed e ↦ some (broken e)
    | page p ↦
        let (all', full) = collect limit all p.repositories in
        let rest = walk_loop limit fetch page_size fuel (k + 1) all' p.next_last in
        if full
        then some (names all')
        else if is_empty p.next_last || bytes_eq p.next_last last
        then some (names all')
        else rest
  ]

  unfoldable pub walk_catalog : ℕ → (ℕ → ℤ → Bytes → Fetched E) → ℤ → Option (Walked E)
  walk_catalog fuel fetch page_size =
      walk_loop max_catalog_entries fetch (if le_zero page_size then ℤ.pos 100 else page_size) fuel
        0 [] []

  abbrev pub new_entry : CatalogEntry E
  new_entry = record { repos = []; at = none; error = none }

  abbrev pub new_state : CatalogState E
  new_state = record { entry = new_entry; walks = 0 }

  -- `!e.at.IsZero() && time.Since(e.at) < ttl`
  unfoldable pub is_fresh : ℕ → ℤ → CatalogEntry E → Bool
  is_fresh now ttl e = elim e.at [
    | none ↦ false
    | some at ↦ ltb (now + neg_part ttl) (at + pos_part ttl)
  ]

  -- What `List` does with the outcome of the walk; `now` is read after it.
  unfoldable pub refresh : ℕ → Walked E → CatalogEntry E → CatalogEntry E × List Bytes × Option E
  refresh now (broken err) e =
      if not (is_empty e.repos)
      then (e, e.repos, none)
      else (record { repos = []; at = some now; error = some err }, [], some err)
  refresh now (names repos) e =
      (record { repos = sort_strings repos; at = some now; error = none }, sort_strings repos, none)

  -- `List`, which holds the lock of the entry throughout. The k-th walk gives `walk k`.
  unfoldable pub list_repos :
      ℕ → ℕ → ℤ → (ℕ → Walked E) → CatalogState E → CatalogState E × List Bytes × Option E
  unfolding is_fresh refresh
  list_repos now later ttl walk s =
      if is_fresh now ttl s.entry
      then (s, s.entry.repos, s.entry.error)
      else let (entry, repos, error) = refresh later (walk s.walks) s.entry in
        (record { entry = entry; walks = s.walks + 1 }, repos, error)

  unfoldable pub invalidate : CatalogState E → CatalogState E
  invalidate s = record s { entry = record s.entry { at = none } }

-- the inner loop of `filterRepos`
unfoldable pub matches : List Bytes → Bytes → Bool
matches [] lower = true
matches (t ∷ ts) lower =
    let rest = matches ts lower in if not (contains t lower) then false else rest

unfoldable pub filter_loop : List Bytes → List Bytes → List Bytes → List Bytes
unfolding matches
filter_loop terms [] out = out
filter_loop terms (r ∷ rs) out =
    filter_loop terms rs (if matches terms (to_lower r) then out ++ r ∷ [] else out)

unfoldable pub filter_repos : List Bytes → Bytes → List Bytes
unfolding filter_loop
filter_repos repos query =
    let terms = fields (to_lower query) in
    if length terms == 0 then repos else filter_loop terms repos []

-- the part of `catalogPage` that `buildCatalog` computes from the matches
pub record CatalogRows : Type 0 where
  pub repos : List Bytes
  pub total : ℕ
  pub shown : ℕ
  pub has_more : Bool

unfoldable pub build_rows : List Bytes → ℕ → ℕ → CatalogRows
build_rows matched offset limit =
    let start = if ltb (length matched) offset then length matched else offset in
    let end = min (start + limit) (length matched) in
    record {
      repos = take (end - start) (drop start matched);
      total = length matched;
      shown = end;
      has_more = ltb end (length matched);
    }
