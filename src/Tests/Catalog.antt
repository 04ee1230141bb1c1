-- ===== src/Tests/Catalog.antt =====
-- `walkCatalog`, `List`, `filterRepos` and the pages of the catalog on small registries.
use maze_registry_ui.Prelude.{
  ◌≡◌, ◌↔◌, refl, ℕ, zero, suc, if◌then◌else◌, ◌≤◌, List, [], ◌∷◌, some, none, arith, inl, inr, sym,
  Bool-cases, take, length,
}
use mathlib.Core.List.{Mem, Sublist}
use maze_registry_ui.Prelude.Bytes.{Bytes, codes, bytes_eq, bytes_eq_iff, compare_bytes}
use maze_registry_ui.Prelude.Int.{ℤ}
use maze_registry_ui.Prelude.Sort.{sort_by}
use maze_registry_ui.Prelude.Text.{to_lower, fields, contains}
use maze_registry_ui.Server.Catalog.{
  CatalogPage, Fetched, page, Walked, names, broken, CatalogState, is_fresh, refresh, list_repos,
  invalidate, collect, walk_loop, walk_catalog, max_catalog_entries, matches, filter_loop,
  filter_repos, build_rows,
}
use maze_registry_ui.Server.Catalog.Walk.{
  Serves, last_page, more_pages, all_names, Advances, Wanders, walk_catalog_complete,
  walk_catalog_ends, walk_catalog_wanders,
}
use maze_registry_ui.Server.Catalog.Listing.{list_repos_stale}
use maze_registry_ui.Server.Catalog.Filter.{Occurs, filter_repos-mem}
use maze_registry_ui.Server.Catalog.Pages.{load_more, load_more_all}

program : Unit {0}
unfolding bytes_eq sort_by compare_bytes to_lower fields contains is_fresh refresh list_repos
    invalidate collect walk_loop walk_catalog matches filter_loop filter_repos build_rows load_more
program = tt

abbrev first : CatalogPage
first = record { repositories = codes "web" ∷ codes "api" ∷ []; next_last = codes "api" }

abbrev second : CatalogPage
second = record { repositories = codes "db" ∷ []; next_last = [] }

-- a catalog of two pages
abbrev two_pages : ℕ → ℤ → Bytes → Fetched ℕ
two_pages zero size last = page first
two_pages (suc k) size last = page second

walked :
    walk_catalog 2 two_pages (ℤ.pos 2) ≡ some (names (codes "web" ∷ codes "api" ∷ codes "db" ∷ []))
unfolding program
walked = refl

served : Serves two_pages (ℤ.pos 2) 0 [] (first ∷ second ∷ [])
unfolding program
served = more_pages refl refl (last_page refl refl)

walk_catalog_complete_example :
    walk_catalog 2 two_pages (ℤ.pos 2)
    ≡ some (names (take max_catalog_entries (all_names (first ∷ second ∷ []))))
walk_catalog_complete_example =
    walk_catalog_complete two_pages (ℤ.pos 2) 2 (first ∷ second ∷ []) refl served (omega arith)

two_pages-Advances : Advances two_pages (ℤ.pos 2)
two_pages-Advances zero last p got more = ground (arith, got)
two_pages-Advances (suc k) last p got more = ground (arith, got, more)

walk_catalog_ends_example :
    (w : Walked ℕ) × (walk_catalog max_catalog_entries two_pages (ℤ.pos 2) ≡ some w)
    × ((l : List Bytes) → w ≡ names l → length l ≤ max_catalog_entries)
walk_catalog_ends_example = walk_catalog_ends two_pages (ℤ.pos 2) refl two_pages-Advances

-- a registry whose pages are empty and whose cursors alternate
abbrev alternating : ℕ → ℤ → Bytes → Fetched ℕ
alternating k size last = page (record {
  repositories = [];
  next_last = if bytes_eq (codes "a") last then codes "b" else codes "a";
})

alternating-Wanders : Wanders alternating (ℤ.pos 2)
unfolding bytes_eq
alternating-Wanders k last = elim (Bool-cases (bytes_eq (codes "a") last)) [
  | inl e ↦
      rw (sym ((bytes_eq_iff (codes "a") last).0 e))
        (record { repositories = []; next_last = codes "b" }, refl, refl, refl)
  | inr e ↦ rw e (record { repositories = []; next_last = codes "a" }, refl, refl, e)
]

walk_catalog_wanders_example : walk_catalog 7 alternating (ℤ.pos 2) ≡ none
walk_catalog_wanders_example = walk_catalog_wanders alternating (ℤ.pos 2) 7 refl alternating-Wanders

abbrev walks : ℕ → Walked ℕ
walks zero = names (codes "web" ∷ codes "api" ∷ [])
walks (suc k) = broken 5

abbrev loaded : CatalogState ℕ
loaded = record {
  entry = record { repos = codes "api" ∷ codes "web" ∷ []; at = some 11; error = none };
  walks = 1;
}

list_repos_stale_example :
    (list_repos 20 21 (ℤ.pos 5) walks loaded
      ≡ (record loaded { walks = 2 }, codes "api" ∷ codes "web" ∷ [], none))
    × ((list_repos 22 23 (ℤ.pos 5) walks (list_repos 20 21 (ℤ.pos 5) walks loaded).0).0.walks ≡ 3)
unfolding program
list_repos_stale_example =
    list_repos_stale 20 21 22 23 5 walks loaded 5 refl refl refl (omega arith)

abbrev repos : List Bytes
repos = codes "team/Backend" ∷ codes "team/web" ∷ codes "back/api" ∷ []

filtered : filter_repos repos (codes " BACK team") ≡ codes "team/Backend" ∷ []
unfolding program
filtered = refl

filter_repos-mem_example :
    Sublist (filter_repos repos (codes " BACK team")) repos
    × (Mem (codes "back/api") (filter_repos repos (codes " BACK team")) ↔ (
        Mem (codes "back/api") repos
        × ((t : Bytes)
            → Mem t (fields (to_lower (codes " BACK team")))
            → Occurs t (to_lower (codes "back/api")))))
filter_repos-mem_example = filter_repos-mem repos (codes " BACK team") (codes "back/api")

load_more_all_example : load_more 4 repos 0 2 ≡ some repos
load_more_all_example = load_more_all repos 2 (omega arith)
