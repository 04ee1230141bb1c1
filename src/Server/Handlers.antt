-- ===== src/Server/Handlers.antt =====
-- internal/server/handlers.go, middleware.go and server.go: deletion, the health of a registry and
-- the theme. The maps of the server are functions of the registry id, which `New` fills for every
-- registry of the configuration; a reply is what the handler asks to be rendered.
pub mod Guards
use maze_registry_ui.Prelude.{
  ℕ, ◌+◌, ◌*◌, ◌-◌, List, [], ◌∷◌, ◌++◌, Bool, ◌&&◌, ◌||◌, not, Option, none, some, true, false,
  ltb, if◌then◌else◌,
}
use maze_registry_ui.Prelude.Assoc.{lookup, insert}
use maze_registry_ui.Prelude.Bytes.{Bytes, codes, bytes_eq, is_empty}
use maze_registry_ui.Config.{Config, Registry, find_registry}
use maze_registry_ui.Registry.Client.{
  Setup, Client, Outcome, done, fail, ClientError, request_error, auth_error, not_found,
  delete_denied, delete_denied_by_registry,
}
use maze_registry_ui.Registry.Client.Content.{delete_manifest}
use maze_registry_ui.Registry.Client.Pages.{ping}
use maze_registry_ui.Server.Catalog.{CatalogState, invalidate}
use maze_registry_ui.Server.Links.{safe_return}

-- what a handler reads of a request
pub record Request : Type 0 where
  pub rid : Bytes
  pub sec_fetch_site : Bytes
  pub csrf : Bytes
  pub repo : Bytes
  pub digest : Bytes

-- `sameOriginPost`
unfoldable pub same_origin_post : Request → Bytes → Bool
same_origin_post r token =
    if not (is_empty r.sec_fetch_site) && not (bytes_eq r.sec_fetch_site (codes "same-origin"))
    then false
    else bytes_eq r.csrf token

unfoldable pub join_path : Bytes → Bytes → Bytes
join_path base_path p = if is_empty base_path then p else base_path ++ p

-- `none` stands for the text of the error itself; `is_unauthorized` tells the errors of a request
-- that wrap `ErrUnauthorized`.
unfoldable pub friendly_error : {E : Type 0} → (E → Bool) → ClientError E → Option Bytes
friendly_error is_unauthorized (auth_error s) =
    some (codes "The registry rejected the configured credentials.")
friendly_error is_unauthorized (request_error e) =
    if is_unauthorized e
    then some (codes "The registry rejected the configured credentials.")
    else none
friendly_error is_unauthorized (not_found s) =
    some (codes "The registry returned 404 for this request.")
friendly_error is_unauthorized delete_denied =
    some (codes "Deletion is not enabled for this registry.")
friendly_error is_unauthorized delete_denied_by_registry =
    some (codes "Deletion is not enabled for this registry.")
friendly_error is_unauthorized _ = none

pub record HealthState : Type 0 where
  pub up : Bool
  pub message : Option Bytes
  pub at : ℕ

-- 30 seconds
abbrev pub health_ttl : ℕ
health_ttl = 30 * 1000000000

-- `healthCache.get`
unfoldable pub health_get : ℕ → Bytes → List (Bytes × HealthState) → Option HealthState
unfolding lookup
health_get now id h = elim (lookup id h) [
  | none ↦ none
  | some st ↦ if ltb health_ttl (now - st.at) then none else some st
]

-- `healthCache.set`
unfoldable pub health_set :
    ℕ → Bytes → HealthState → List (Bytes × HealthState) → List (Bytes × HealthState)
unfolding insert
health_set now id st h = insert id (record st { at = now }) h

pub data Reply : Type 0 where
  error_page : ℕ → Reply
  redirect : Bytes → Reply
  health_dot : HealthState → Reply

-- the server's state: its clients, the cached catalogs and the health of the registries
pub record App (E S W : Type 0) : Type 0 where
  pub clients : Bytes → Client S
  pub catalogs : Bytes → CatalogState W
  pub health : List (Bytes × HealthState)

unfoldable pub probe : {E A : Type 0} → (E → Bool) → Outcome E A → HealthState
unfolding friendly_error
probe is_unauthorized (done a) = record { up = true; message = some (codes "Reachable"); at = 0 }
probe is_unauthorized (fail e) = record {
  up = false;
  message = friendly_error is_unauthorized e;
  at = 0;
}

-- `m[k] = v` on a map that is a function
abbrev pub update {ℓ} : {A : Type ℓ} → Bytes → A → (Bytes → A) → Bytes → A
update k v m j = if bytes_eq k j then v else m j

module _ {E S W : Type 0} (setup : Bytes → Setup E S) (cfg : Config) (token : Bytes)
    (is_unauthorized : E → Bool) where
  -- `handleDelete` after the call of the client
  unfoldable pub after_delete :
      Request → Registry → App E S W → Client S × Outcome E Unit → App E S W × Reply
  unfolding join_path
  after_delete r reg app (c, fail e) =
      (record app { clients = update reg.id c app.clients }, error_page 502)
  after_delete r reg app (c, done _) = (
    record app {
      clients = update reg.id c app.clients;
      catalogs = update reg.id (invalidate (app.catalogs reg.id)) app.catalogs;
    },
    redirect (join_path cfg.server.base_path (codes "/r/" ++ reg.id ++ codes "/repo/" ++ r.repo)),
  )

  -- `handleDelete` for a registry that is configured
  unfoldable pub delete_from : Request → Registry → App E S W → App E S W × Reply
  unfolding same_origin_post after_delete
  delete_from r reg app =
      if not reg.delete_enabled
      then (app, error_page 403)
      else if not (same_origin_post r token)
      then (app, error_page 403)
      else if is_empty r.repo || is_empty r.digest
      then (app, error_page 400)
      else after_delete r reg app
          (delete_manifest (setup reg.id) r.repo r.digest (app.clients reg.id))

  -- `lookup`, with the page for a registry that is not configured, and what comes after it
  unfoldable pub with_registry :
      {A : Type 0} → A → Bytes → (Registry → App E S W → App E S W × A) → App E S W → App E S W × A
  unfolding find_registry
  with_registry missing rid next app = elim (find_registry rid cfg.registries) [
    | none ↦ (app, missing)
    | some reg ↦ next reg app
  ]

  unfoldable pub handle_delete : Request → App E S W → App E S W × Reply
  unfolding with_registry delete_from
  handle_delete r app = with_registry (error_page 404) r.rid (delete_from r) app

  -- `handleRegistryHealth`; the clock is read at `now` and, after a probe, at `later`
  unfoldable pub health_of : ℕ → ℕ → Registry → App E S W → App E S W × Reply
  unfolding health_get health_set probe
  health_of now later reg app = elim (health_get now reg.id app.health) [
    | some st ↦ (app, health_dot st)
    | none ↦
        let (c, r) = ping (setup reg.id) (app.clients reg.id) in
        (
          record app {
            clients = update reg.id c app.clients;
            health = health_set later reg.id (probe is_unauthorized r) app.health;
          },
          health_dot (probe is_unauthorized r),
        )
  ]

  unfoldable pub handle_registry_health : ℕ → ℕ → Request → App E S W → App E S W × Reply
  unfolding with_registry health_of
  handle_registry_health now later r app =
      with_registry (error_page 404) r.rid (health_of now later) app

-- the theme that `handleTheme` puts into the cookie, and where it redirects to
unfoldable pub handle_theme : Bytes → Bytes → Bytes → Bytes → Bytes × Bytes
unfolding safe_return
handle_theme base_path fallback to return_to = (
  if not (bytes_eq to (codes "light")) && not (bytes_eq to (codes "dark"))
      then codes "dark"
      else to,
  safe_return base_path fallback return_to,
)

-- `theme`; `cookie` is the value of the cookie, if there is one
unfoldable pub theme : Config → Option Bytes → Bytes
theme cfg cookie =
    let default_theme : Bytes =
      if bytes_eq cfg.ui.theme (codes "auto") then codes "dark" else cfg.ui.theme in
    elim cookie [
      | none ↦ default_theme
      | some v ↦
          if bytes_eq v (codes "dark") || bytes_eq v (codes "light") then v else default_theme
    ]
