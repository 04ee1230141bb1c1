-- ===== src/Registry/Client/Pages.antt =====
-- internal/registry/client.go: `Ping`, `Catalog` and `Tags`.
use maze_registry_ui.Prelude.{ℕ, List, [], ◌∷◌, ◌++◌, Option, none, some, if◌then◌else◌, length}
use maze_registry_ui.Prelude.Bytes.{Bytes, codes, is_empty}
use maze_registry_ui.Prelude.Int.{ℤ}
use maze_registry_ui.Prelude.Text.{trim_space}
use maze_registry_ui.Registry.Auth.{Response}
use maze_registry_ui.Registry.Cache.{cache_scope_global}
use maze_registry_ui.Registry.Names.{validate_repository}
use maze_registry_ui.Registry.Paging.{clamp_page_size, last_of, next_cursor}
use maze_registry_ui.Registry.Tags.{sort_tags}
use maze_registry_ui.Registry.Client.{
  Setup, Action, pure, or_raise, ◌>>=◌, ◌>>◌, undecodable, max_manifest_bytes, Cached, catalog_page,
  tag_page, CatalogPage, TagPage, cache_get, cache_set, fetch, read_limited, require, header_get,
}

-- names without outer white space, the empty ones left out
unfoldable pub trimmed_names : List Bytes → List Bytes
trimmed_names [] = []
trimmed_names (name ∷ names) =
    let rest = trimmed_names names in
    if is_empty (trim_space name) then rest else trim_space name ∷ rest

-- `v.(*CatalogPage)`
unfoldable pub as_catalog_page : Option Cached → Option CatalogPage
as_catalog_page (some (catalog_page page)) = some page
as_catalog_page _ = none

-- `v.(*TagPage)`
unfoldable pub as_tag_page : Option Cached → Option TagPage
as_tag_page (some (tag_page page)) = some page
as_tag_page _ = none

module _ {E S : Type 0} (w : Setup E S) where
  unfoldable pub ping : Action E S Unit
  unfolding fetch
  ping = do fetch w (codes "GET") (w.base ++ codes "/v2/") []; pure tt

  abbrev pub page_query : ℕ → Bytes → Bytes
  page_query n last = w.encode (
      if is_empty last
      then (codes "n", w.itoa n) ∷ []
      else (codes "n", w.itoa n) ∷ (codes "last", last) ∷ [])

  unfoldable pub catalog_key : ℕ → Bytes → Bytes
  catalog_key n last = codes "catalog|" ++ w.itoa n ++ codes "|" ++ last

  unfoldable pub catalog_of : ℕ → Response → List Bytes → CatalogPage
  unfolding trimmed_names next_cursor header_get last_of
  catalog_of n r names = record {
    repositories = trimmed_names names;
    next_last =
        next_cursor w.net w.base (header_get (codes "Link") r) (last_of names) (length names) n;
  }

  -- `Catalog` where the page is not cached
  unfoldable pub fetch_catalog : ℕ → Bytes → Action E S CatalogPage
  unfolding fetch read_limited catalog_of cache_set catalog_key
  fetch_catalog n last = do
    r ←
        fetch w (codes "GET") (w.base ++ codes "/v2/_catalog?" ++ page_query n last)
          (codes "application/json")
    names ← or_raise (w.catalog_document (← read_limited w r max_manifest_bytes)) undecodable
    cache_set w (catalog_key n last) cache_scope_global (catalog_page (catalog_of n r names))
        w.cache_ttl
    pure (catalog_of n r names)

  unfoldable pub catalog : ℤ → Bytes → Action E S CatalogPage
  unfolding fetch_catalog cache_get as_catalog_page clamp_page_size
  catalog n last c =
      let (c', v) = cache_get w (catalog_key (clamp_page_size n) last) c in
      elim (as_catalog_page v) [
        | some page ↦ pure page c'
        | none ↦ fetch_catalog (clamp_page_size n) last c'
      ]

  unfoldable pub tags_key : Bytes → ℕ → Bytes → Bytes
  tags_key repo n last = codes "tags|" ++ repo ++ codes "|" ++ w.itoa n ++ codes "|" ++ last

  -- The cursor is that of the registry's own order.
  unfoldable pub tags_of : Bytes → ℕ → Response → List Bytes → TagPage
  unfolding trimmed_names next_cursor header_get last_of sort_tags
  tags_of repo n r tags = record {
    repository = repo;
    tags = sort_tags (trimmed_names tags);
    next_last =
        next_cursor w.net w.base (header_get (codes "Link") r) (last_of tags) (length tags) n;
  }

  -- `Tags` where the page is not cached
  unfoldable pub fetch_tags : Bytes → ℕ → Bytes → Action E S TagPage
  unfolding fetch read_limited tags_of cache_set tags_key
  fetch_tags repo n last = do
    r ←
        fetch w (codes "GET")
          (w.base ++ codes "/v2/" ++ repo ++ codes "/tags/list?" ++ page_query n last)
          (codes "application/json")
    tags ← or_raise (w.tags_document (← read_limited w r max_manifest_bytes)) undecodable
    cache_set w (tags_key repo n last) repo (tag_page (tags_of repo n r tags)) w.cache_ttl
    pure (tags_of repo n r tags)

  -- `Tags` for a valid name
  unfoldable pub cached_tags : Bytes → ℕ → Bytes → Action E S TagPage
  unfolding fetch_tags cache_get as_tag_page
  cached_tags repo n last c =
      let (c', v) = cache_get w (tags_key repo n last) c in
      elim (as_tag_page v) [ some page ↦ pure page c' | none ↦ fetch_tags repo n last c' ]

  unfoldable pub tags : Bytes → ℤ → Bytes → Action E S TagPage
  unfolding require validate_repository cached_tags
  tags repo n last = do
    require (validate_repository repo)
    cached_tags repo (clamp_page_size n) last
