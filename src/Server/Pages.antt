-- ===== src/Server/Pages.antt =====
-- internal/server/handlers.go and render.go: the data that the pages and fragments show, but for the
-- image page. `strconv.Itoa` and `url.QueryEscape` are parameters.
use maze_registry_ui.Prelude.{
  ℕ, ◌+◌, ◌*◌, List, [], ◌∷◌, ◌++◌, map, Bool, false, not, Option, none, some, length,
  if◌then◌else◌,
}
use maze_registry_ui.Prelude.Bytes.{Bytes, codes, bytes_eq, is_empty}
use maze_registry_ui.Prelude.Int.{ℤ}
use maze_registry_ui.Config.{Config, Registry}
use maze_registry_ui.Registry.Client.{TagPage}
use maze_registry_ui.Server.Catalog.{CatalogRows}
use maze_registry_ui.Server.Handlers.{HealthState, join_path, health_get}
use maze_registry_ui.Server.Links.{split_repo}
use maze_registry_ui.Server.Views.{image_href}

-- `intParam`; `atoi` is `strconv.Atoi`, and a missing parameter reads as the empty string
unfoldable pub int_param : (Bytes → Option ℤ) → Bytes → ℕ → ℕ
int_param atoi v fallback =
    if is_empty v
    then fallback
    else elim (atoi v) [ none ↦ fallback | some (ℤ.pos n) ↦ n | some (ℤ.negsuc n) ↦ fallback ]

pub record RepoRow : Type 0 where
  pub name : Bytes
  pub namespace : Bytes
  pub short : Bytes
  pub href : Bytes
  pub count_url : Bytes

unfoldable pub repo_row : Bytes → Bytes → Bytes → RepoRow
unfolding split_repo join_path
repo_row base_path rid name =
    let (namespace, short) = split_repo name in
    record {
      name = name;
      namespace = namespace;
      short = short;
      href = join_path base_path (codes "/r/" ++ rid) ++ (codes "/repo/" ++ name);
      count_url = join_path base_path (codes "/x/repocount/" ++ (rid ++ (codes "/" ++ name)));
    }

-- `catalogPage`; the error is `some none` where its text is that of the error itself
pub record CatalogView : Type 0 where
  pub repos : List RepoRow
  pub total : ℕ
  pub shown : ℕ
  pub has_more : Bool
  pub more_url : Bytes
  pub err : Option (Option Bytes)

abbrev pub failed_catalog : Option Bytes → CatalogView
failed_catalog e = record {
  repos = [];
  total = 0;
  shown = 0;
  has_more = false;
  more_url = [];
  err = some e;
}

-- `tagRowView`, without its summary
pub record TagLink : Type 0 where
  pub tag : Bytes
  pub href : Bytes
  pub summary_url : Bytes

-- what `fillTagRows` fills
pub record TagRows : Type 0 where
  pub tags : List TagLink
  pub tag_count : ℕ
  pub has_more : Bool
  pub more_url : Bytes

module _ (itoa : ℕ → Bytes) (escape : Bytes → Bytes) (base_path : Bytes) where
  -- `buildCatalog` from the matches on
  unfoldable pub catalog_view : Bytes → Bytes → CatalogRows → CatalogView
  unfolding repo_row
  catalog_view rid q rows = record {
    repos = map (repo_row base_path rid) rows.repos;
    total = rows.total;
    shown = rows.shown;
    has_more = rows.has_more;
    more_url =
        if rows.has_more
        then base_path
          ++ (codes "/x/catalog/"
              ++ (rid ++ (codes "?o=" ++ (itoa rows.shown ++ (codes "&q=" ++ escape q)))))
        else [];
    err = none;
  }

  -- `%s/x/<kind>/%s/%s?<name>=%s`
  unfoldable pub fragment_url : Bytes → Bytes → Bytes → Bytes → Bytes
  fragment_url kind rid repo value = base_path ++ (kind ++ (rid ++ (codes "/" ++ (repo ++ value))))

  unfoldable pub tag_link : Bytes → Bytes → Bytes → TagLink
  unfolding image_href fragment_url
  tag_link rid repo tag = record {
    tag = tag;
    href = image_href escape base_path rid repo tag;
    summary_url = fragment_url (codes "/x/tag/") rid repo (codes "?t=" ++ escape tag);
  }

  unfoldable pub fill_tag_rows : Bytes → Bytes → TagPage → TagRows
  unfolding tag_link fragment_url
  fill_tag_rows rid repo page =
      let more = not (is_empty page.next_last) in
      record {
        tags = map (tag_link rid repo) page.tags;
        tag_count = length page.tags;
        has_more = more;
        more_url =
            if more
            then fragment_url (codes "/x/tags/") rid repo (codes "?last=" ++ escape page.next_last)
            else [];
      }

  -- the count of `handleRepoCount`
  unfoldable pub count_text : TagPage → Bytes
  count_text page =
      let n = itoa (length page.tags) in if not (is_empty page.next_last) then n ++ codes "+" else n

-- `RegistryOption`; its state is `none` for "unknown"
pub record RegistryOption : Type 0 where
  pub id : Bytes
  pub name : Bytes
  pub host : Bytes
  pub description : Bytes
  pub delete : Bool
  pub active : Bool
  pub state : Option HealthState
  pub health_delay : ℕ

-- The options of `layout`, from position `i` on, and the last active one after `current`; the
-- clock is read at `now`.
unfoldable pub registry_options :
    (Registry → Bytes)
    → ℕ
    → List (Bytes × HealthState)
    → Bytes
    → ℕ
    → List Registry
    → Option RegistryOption
    → List RegistryOption × Option RegistryOption
unfolding health_get bytes_eq
registry_options pull_target now health id i [] current = ([], current)
registry_options pull_target now health id i (r ∷ rs) current =
    let opt : RegistryOption = record {
      id = r.id;
      name = r.name;
      host = pull_target r;
      description = r.description;
      delete = r.delete_enabled;
      active = bytes_eq r.id id;
      state = health_get now r.id health;
      health_delay = i * 120;
    } in
    let (opts, last) =
      registry_options pull_target now health id (i + 1) rs
        (if bytes_eq r.id id then some opt else current) in
    (opt ∷ opts, last)

-- the title that `layout` gives a page, with " · " in UTF-8
unfoldable pub page_title : Config → Bytes → Bytes
unfolding bytes_eq
page_title cfg title =
    if bytes_eq title cfg.ui.title
    then cfg.ui.title
    else title ++ ((32 ∷ 194 ∷ 183 ∷ 32 ∷ []) ++ cfg.ui.title)
