-- ===== src/Server/Visits.antt =====
-- internal/server/handlers.go: the handlers of the pages and of the fragments, and all requests for a
-- registry as visits that change the state of the server. A request that waits for a slot of
-- `acquire` has one here.
pub mod Apart
pub mod Same
pub mod Alone
use maze_registry_ui.Prelude.{
  ℕ, zero, suc, List, [], ◌∷◌, ◌++◌, Bool, true, ◌||◌, Option, none, some, if◌then◌else◌,
}
use maze_registry_ui.Prelude.Bytes.{Bytes, codes, bytes_eq, is_empty}
use maze_registry_ui.Prelude.Int.{ℤ, pos_part, le_zero}
use maze_registry_ui.Config.{Config, Registry, Url, pull_target}
use maze_registry_ui.Registry.Manifest.{unsupported}
use maze_registry_ui.Registry.Images.{Image}
use maze_registry_ui.Registry.Client.{
  Setup, Client, Outcome, done, fail, ClientError, request_error, not_found, manifest_error,
  TagPage,
}
use maze_registry_ui.Registry.Client.Pages.{catalog, tags}
use maze_registry_ui.Registry.Client.Resolve.{TagSummary, image, tag_summary}
use maze_registry_ui.Server.Catalog.{
  CatalogState, Walked, names, broken, max_catalog_entries, collect, is_fresh, list_repos,
  filter_repos, build_rows,
}
use maze_registry_ui.Server.Handlers.{
  Request, App, update, friendly_error, join_path, with_registry, handle_delete,
  handle_registry_health,
}
use maze_registry_ui.Server.Pages.{
  int_param, CatalogView, failed_catalog, TagLink, TagRows, catalog_view, tag_link, fill_tag_rows,
  count_text,
}
use maze_registry_ui.Server.Views.{Floats}
use maze_registry_ui.Server.Views.Page.{ImagePage, build_image_page}

-- the path values and the query parameters that the handlers of pages read
pub record PageRequest : Type 0 where
  pub rid : Bytes
  pub repo : Bytes
  pub q : Bytes
  pub o : Bytes
  pub last : Bytes
  pub t : Bytes
  pub ref : Bytes
  pub hx_request : Bytes

pub data Route : Type 0 where
  catalog_page : Route
  catalog_rows : Route
  repo_count : Route
  repository : Route
  tag_rows : Route
  tag_row : Route
  image_page : Route

-- what is rendered; the error of `repo_count` and of `catalog_page` is `some none` where its text is
-- that of the error itself
pub data PageReply (E Float : Type 0) : Type 0 where
  catalog_reply : CatalogView → PageReply E Float
  -- with the `HX-Push-Url` header, if there is one
  rows_reply : Option Bytes → CatalogView → PageReply E Float
  count_reply : Bytes → PageReply E Float
  count_error : Option Bytes → PageReply E Float
  repository_reply : TagRows → PageReply E Float
  repository_error : Option Bytes → PageReply E Float
  tags_reply : TagRows → PageReply E Float
  tag_reply : TagLink → TagSummary E → PageReply E Float
  image_reply : ImagePage (Image ⊥) Float → PageReply E Float
  -- `renderError` and `http.Error`
  error_reply : ℕ → PageReply E Float

abbrev pub tag_count_limit : ℕ
tag_count_limit = 1000

module _ {E S : Type 0} (cancelled : E) (w : Setup E S) where
  -- The loop of `walkCatalog` over the method `Catalog` of the client. The context of the request
  -- is cancelled after `patience` calls, and the next call fails.
  unfoldable pub walk_client :
      ℕ → ℤ → List Bytes → Bytes → Client S → Client S × Walked (ClientError E)
  unfolding collect
  walk_client zero page_size all last c = (c, broken (request_error cancelled))
  walk_client (suc patience) page_size all last c =
      let (c', r) = catalog w page_size last c in
      elim r [
        | fail e ↦ (c', broken e)
        | done p ↦
            let (all', full) = collect max_catalog_entries all p.repositories in
            let rest = walk_client patience page_size all' p.next_last c' in
            if full
            then (c', names all')
            else if is_empty p.next_last || bytes_eq p.next_last last
            then (c', names all')
            else rest
      ]

-- The configured server: the clients' setups, the configuration, the token of the forms, and the
-- packages outside of the repository. `cancelled` is the error of a request whose context has ended.
pub record Site (E S : Type 0) : Type 1 where
  pub setup : Bytes → Setup E S
  pub cfg : Config
  pub token : Bytes
  pub is_unauthorized : E → Bool
  pub cancelled : E
  pub floats : Floats
  pub escape : Bytes → Bytes
  pub pretty_json : Bytes → Bytes
  pub parse_url : Bytes → Option Url
  pub itoa : ℕ → Bytes
  pub atoi : Bytes → Option ℤ

-- a request for a registry, with the readings of the clock and the patience of its context
pub data Visit : Type 0 where
  viewing : ℕ → ℕ → ℕ → Route → PageRequest → Visit
  deleting : Request → Visit
  probing : ℕ → ℕ → Request → Visit

abbrev pub visited : Visit → Bytes
visited (viewing now later patience route r) = r.rid
visited (deleting r) = r.rid
visited (probing now later r) = r.rid

module _ {E S : Type 0} (site : Site E S) where
  abbrev pub State : Type 0
  State = App E S (ClientError E)

  abbrev pub Answer : Type 0
  Answer = PageReply E site.floats.Float

  -- a call of the client of a registry, and what is made of its outcome
  unfoldable pub on_client :
      {A : Type 0} → (Client S → Client S × A) → (A → Answer) → Registry → State → State × Answer
  on_client act reply reg app =
      let (c, r) = act (app.clients reg.id) in
      (record app { clients = update reg.id c app.clients }, reply r)

  -- `catalogCache.List` with a client whose catalog is walked if the entry is not fresh
  unfoldable pub list_catalog :
      ℕ
      → ℕ
      → ℕ
      → Registry
      → Client S
      → CatalogState (ClientError E)
      → Client S × CatalogState (ClientError E) × List Bytes × Option (ClientError E)
  unfolding walk_client is_fresh list_repos
  list_catalog now later patience reg c state =
      let limit = site.cfg.ui.catalog_page_size in
      let (c', out) =
        if is_fresh now reg.cache_ttl state.entry
        then (c, names [])
        else walk_client site.cancelled (site.setup reg.id) patience
            (if le_zero limit then ℤ.pos 100 else limit) [] [] c in
      let (state', all, err) = list_repos now later reg.cache_ttl (λ k. out) state in
      (c', state', all, err)

  -- `buildCatalog`; the clock is read at `now` and, after a walk, at `later`
  unfoldable pub build_catalog :
      ℕ → ℕ → ℕ → PageRequest → (CatalogView → Answer) → Registry → State → State × Answer
  unfolding list_catalog filter_repos build_rows catalog_view int_param friendly_error
  build_catalog now later patience r reply reg app =
      let limit = site.cfg.ui.catalog_page_size in
      let (c, state, all, err) =
        list_catalog now later patience reg (app.clients reg.id) (app.catalogs reg.id) in
      (
        record app {
          clients = update reg.id c app.clients;
          catalogs = update reg.id state app.catalogs;
        },
        reply (elim err [
          | some e ↦ failed_catalog (friendly_error site.is_unauthorized e)
          | none ↦
              catalog_view site.itoa site.escape site.cfg.server.base_path reg.id r.q
                (build_rows (filter_repos all r.q) (int_param site.atoi r.o 0) (pos_part limit))
        ]),
      )

  -- the `HX-Push-Url` of `handleCatalogRows`
  unfoldable pub push_url : PageRequest → Registry → Option Bytes
  unfolding join_path
  push_url r reg =
      let target = join_path site.cfg.server.base_path (codes "/r/" ++ reg.id) in
      if is_empty r.hx_request
      then none
      else some (if is_empty r.q then target else target ++ (codes "?q=" ++ site.escape r.q))

  unfoldable pub count_of : Outcome E TagPage → Answer
  unfolding friendly_error count_text
  count_of (fail e) = count_error (friendly_error site.is_unauthorized e)
  count_of (done page) =
      count_reply (count_text site.itoa site.escape site.cfg.server.base_path page)

  unfoldable pub repository_of : Bytes → Bytes → Outcome E TagPage → Answer
  unfolding friendly_error fill_tag_rows
  repository_of rid repo (fail (not_found s)) = error_reply 404
  repository_of rid repo (fail e) = repository_error (friendly_error site.is_unauthorized e)
  repository_of rid repo (done page) =
      repository_reply (fill_tag_rows site.itoa site.escape site.cfg.server.base_path rid repo page)

  unfoldable pub tag_rows_of : Bytes → Bytes → Outcome E TagPage → Answer
  unfolding fill_tag_rows
  tag_rows_of rid repo (fail e) = error_reply 502
  tag_rows_of rid repo (done page) =
      tags_reply (fill_tag_rows site.itoa site.escape site.cfg.server.base_path rid repo page)

  unfoldable pub image_of : Bytes → Bytes → Registry → Outcome E (Image (Image ⊥)) → Answer
  unfolding build_image_page pull_target
  image_of repo ref reg (fail (not_found s)) = error_reply 404
  image_of repo ref reg (fail (manifest_error unsupported)) = error_reply 415
  image_of repo ref reg (fail e) = error_reply 502
  image_of repo ref reg (done img) = image_reply (
      build_image_page site.floats site.escape site.pretty_json (pull_target site.parse_url)
        site.cfg site.token site.itoa reg repo ref img)

  unfoldable pub serve_page : ℕ → ℕ → ℕ → Route → PageRequest → Registry → State → State × Answer
  serve_page now later patience catalog_page r reg =
      build_catalog now later patience r (λ v. catalog_reply v) reg
  serve_page now later patience catalog_rows r reg =
      build_catalog now later patience r (λ v. rows_reply (push_url r reg) v) reg
  serve_page now later patience repo_count r reg =
      on_client (tags (site.setup reg.id) r.repo (ℤ.pos tag_count_limit) []) count_of reg
  serve_page now later patience repository r reg =
      on_client (tags (site.setup reg.id) r.repo site.cfg.ui.tag_page_size r.last)
        (repository_of reg.id r.repo) reg
  serve_page now later patience tag_rows r reg =
      on_client (tags (site.setup reg.id) r.repo site.cfg.ui.tag_page_size r.last)
        (tag_rows_of reg.id r.repo) reg
  serve_page now later patience tag_row r reg =
      on_client (tag_summary (site.setup reg.id) r.repo r.t)
        (tag_reply
          (record (tag_link site.itoa site.escape site.cfg.server.base_path reg.id r.repo r.t) {
            summary_url = [];
          }))
        reg
  serve_page now later patience image_page r reg =
      let ref = if is_empty r.ref then codes "latest" else r.ref in
      on_client (image (site.setup reg.id) r.repo ref true) (image_of r.repo ref reg) reg

  unfoldable pub handle_page : ℕ → ℕ → ℕ → Route → PageRequest → State → State × Answer
  unfolding with_registry serve_page
  handle_page now later patience route r app =
      with_registry site.setup site.cfg site.token site.is_unauthorized (error_reply 404) r.rid
        (serve_page now later patience route r) app

  unfoldable pub visit : Visit → State → State
  unfolding handle_page handle_delete handle_registry_health
  visit (viewing now later patience route r) app = (handle_page now later patience route r app).0
  visit (deleting r) app =
      (handle_delete site.setup site.cfg site.token site.is_unauthorized r app).0
  visit (probing now later r) app =
      (handle_registry_health site.setup site.cfg site.token site.is_unauthorized now later r app).0

  unfoldable pub visits : List Visit → State → State
  unfolding visit
  visits [] app = app
  visits (v ∷ vs) app = visits vs (visit v app)
