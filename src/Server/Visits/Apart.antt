-- ===== src/Server/Visits/Apart.antt =====
-- internal/server/handlers.go: what requests for one registry leave of the others.
use maze_registry_ui.Prelude.{
  ℕ, ◌≡◌, refl, ◌∙◌, List, [], ◌∷◌, Bool, true, false, ◌||◌, not, some, if◌then◌else◌, arith,
  Bool-cases, Option-cases, inl, inr,
}
use maze_registry_ui.Prelude.Assoc.{lookup, lookup-insert}
use maze_registry_ui.Prelude.Bytes.{Bytes, bytes_eq, bytes_eq_iff, is_empty}
use maze_registry_ui.Config.{Config, Registry, find_registry}
use maze_registry_ui.Registry.Client.{Setup, Client, Outcome, done, fail}
use maze_registry_ui.Registry.Client.Content.{delete_manifest}
use maze_registry_ui.Server.Handlers.{
  Request, App, update, with_registry, handle_delete, delete_from, after_delete, same_origin_post,
  error_page, handle_registry_health, health_of, health_get, health_set,
}
use maze_registry_ui.Server.Pages.{CatalogView}
use maze_registry_ui.Server.Visits.{
  on_client, build_catalog, serve_page, handle_page, Route, catalog_page, catalog_rows, repo_count,
  repository, tag_rows, tag_row, image_page, PageRequest, State, Site, Answer, error_reply, Visit,
  viewing, deleting, probing, visited, visit,
}

-- the part of the state that belongs to a registry is the same
pub record IsKept {E S W : Type 0} (j : Bytes) (a b : App E S W) : Type 0 where
  pub client : b.clients j ≡ a.clients j
  pub catalog : b.catalogs j ≡ a.catalogs j
  pub health : lookup j b.health ≡ lookup j a.health

pub IsKept-refl : {E S W : Type 0} (j : Bytes) (a : App E S W) → IsKept j a a
IsKept-refl j a = record { client = refl; catalog = refl; health = refl }

pub IsKept-trans :
    {E S W : Type 0} (j : Bytes) (a b c : App E S W) → IsKept j a b → IsKept j b c → IsKept j a c
IsKept-trans j a b c p q = record {
  client = q.client ∙ p.client;
  catalog = q.catalog ∙ p.catalog;
  health = q.health ∙ p.health;
}

either-IsKept :
    {E S W A : Type 0} (j : Bytes) (a : App E S W) (b : Bool) (x y : App E S W × A)
    → IsKept j a x.0
    → IsKept j a y.0
    → IsKept j a (if b then x else y).0
either-IsKept j a true x y p q = p
either-IsKept j a false x y p q = q

update_other :
    {A : Type 0} (k j : Bytes) (v : A) (m : Bytes → A) → bytes_eq k j ≡ false → update k v m j ≡ m j
update_other k j v m h = ground (arith, h)

pub found_id :
    (id : Bytes) (rs : List Registry) (r : Registry)
    → find_registry id rs ≡ some r
    → bytes_eq r.id id ≡ true
unfolding find_registry
found_id id [] r h = absurd (ground (arith, h))
found_id id (x ∷ rs) r h = elim (Bool-cases (bytes_eq x.id id)) [
  | inl e ↦ ground (arith, h, e)
  | inr e ↦ found_id id rs r (ground (arith, h, e))
]

module _ {E S : Type 0} (setup : Bytes → Setup E S) (cfg : Config) (token : Bytes)
    (is_unauthorized : E → Bool) where
  with_registry-IsKept :
      {W A : Type 0} (missing : A) (rid j : Bytes) (next : Registry → App E S W → App E S W × A)
      (app : App E S W)
      → bytes_eq rid j ≡ false
      → ((reg : Registry) → bytes_eq reg.id j ≡ false → IsKept j app (next reg app).0)
      → IsKept j app (with_registry setup cfg token is_unauthorized missing rid next app).0
  unfolding with_registry
  with_registry-IsKept missing rid j next app apart h =
      elim (Option-cases (find_registry rid cfg.registries)) [
        | inl e ↦ rw (e, with_registry) (IsKept-refl j app)
        | inr (reg, e) ↦
            let same : reg.id ≡ rid =
              (bytes_eq_iff reg.id rid).0 (found_id rid cfg.registries reg e) in
            rw (e, with_registry) (h reg (rw same apart))
      ]

  after_delete-IsKept :
      {W : Type 0} (j : Bytes) (r : Request) (reg : Registry) (app : App E S W)
      (result : Client S × Outcome E Unit)
      → bytes_eq reg.id j ≡ false
      → IsKept j app (after_delete setup cfg token is_unauthorized r reg app result).0
  unfolding after_delete
  after_delete-IsKept j r reg app (c, fail e) apart = record {
    client = update_other reg.id j c app.clients apart;
    catalog = refl;
    health = refl;
  }
  after_delete-IsKept j r reg app (c, done u) apart = record {
    client = update_other reg.id j c app.clients apart;
    catalog = update_other reg.id j _ app.catalogs apart;
    health = refl;
  }

  delete_from-IsKept :
      {W : Type 0} (j : Bytes) (r : Request) (reg : Registry) (app : App E S W)
      → bytes_eq reg.id j ≡ false
      → IsKept j app (delete_from setup cfg token is_unauthorized r reg app).0
  unfolding delete_from
  delete_from-IsKept j r reg app apart =
      let result = delete_manifest (setup reg.id) r.repo r.digest (app.clients reg.id) in
      let kept = IsKept-refl j app in
      let after = after_delete setup cfg token is_unauthorized r reg app result in
      let incomplete = is_empty r.repo || is_empty r.digest in
      let named = if incomplete then (app, error_page 400) else after in
      let same = not (same_origin_post r token) in
      either-IsKept j app (not reg.delete_enabled) (app, error_page 403)
        (if same then (app, error_page 403) else named) kept
        (either-IsKept j app same (app, error_page 403) named kept
          (either-IsKept j app incomplete (app, error_page 400) after kept
            (after_delete-IsKept j r reg app result apart)))

  health_of-IsKept :
      {W : Type 0} (now later : ℕ) (j : Bytes) (reg : Registry) (app : App E S W)
      → bytes_eq reg.id j ≡ false
      → IsKept j app (health_of setup cfg token is_unauthorized now later reg app).0
  unfolding health_of health_set
  health_of-IsKept now later j reg app apart =
      elim (Option-cases (health_get now reg.id app.health)) [
        | inl e ↦
            rw (e, health_of)
              (record {
                client = update_other reg.id j _ app.clients apart;
                catalog = refl;
                health = lookup-insert reg.id j _ app.health ∙ rw apart refl;
              })
        | inr (st, e) ↦ rw (e, health_of) (IsKept-refl j app)
      ]

module _ {E S : Type 0} (site : Site E S) where
  on_client-IsKept :
      {A : Type 0} (j : Bytes) (act : Client S → Client S × A) (reply : A → Answer site)
      (reg : Registry) (app : State site)
      → bytes_eq reg.id j ≡ false
      → IsKept j app (on_client site act reply reg app).0
  unfolding on_client
  on_client-IsKept j act reply reg app apart = record {
    client = update_other reg.id j _ app.clients apart;
    catalog = refl;
    health = refl;
  }

  build_catalog-IsKept :
      (j : Bytes) (now later patience : ℕ) (r : PageRequest) (reply : CatalogView → Answer site)
      (reg : Registry) (app : State site)
      → bytes_eq reg.id j ≡ false
      → IsKept j app (build_catalog site now later patience r reply reg app).0
  unfolding build_catalog
  build_catalog-IsKept j now later patience r reply reg app apart = record {
    client = update_other reg.id j _ app.clients apart;
    catalog = update_other reg.id j _ app.catalogs apart;
    health = refl;
  }

  serve_page-IsKept :
      (j : Bytes) (now later patience : ℕ) (route : Route) (r : PageRequest) (reg : Registry)
      (app : State site)
      → bytes_eq reg.id j ≡ false
      → IsKept j app (serve_page site now later patience route r reg app).0
  unfolding serve_page
  serve_page-IsKept j now later patience catalog_page r reg app apart =
      build_catalog-IsKept j now later patience r _ reg app apart
  serve_page-IsKept j now later patience catalog_rows r reg app apart =
      build_catalog-IsKept j now later patience r _ reg app apart
  serve_page-IsKept j now later patience repo_count r reg app apart =
      on_client-IsKept j _ _ reg app apart
  serve_page-IsKept j now later patience repository r reg app apart =
      on_client-IsKept j _ _ reg app apart
  serve_page-IsKept j now later patience tag_rows r reg app apart =
      on_client-IsKept j _ _ reg app apart
  serve_page-IsKept j now later patience tag_row r reg app apart =
      on_client-IsKept j _ _ reg app apart
  serve_page-IsKept j now later patience image_page r reg app apart =
      on_client-IsKept j _ _ reg app apart

  pub visit-IsKept :
      (j : Bytes) (v : Visit) (app : State site)
      → bytes_eq (visited v) j ≡ false
      → IsKept j app (visit site v app)
  unfolding visit handle_page handle_delete handle_registry_health
  visit-IsKept j (viewing now later patience route r) app apart =
      with_registry-IsKept site.setup site.cfg site.token site.is_unauthorized (error_reply 404)
        r.rid j (serve_page site now later patience route r) app apart
        (λ reg h. serve_page-IsKept j now later patience route r reg app h)
  visit-IsKept j (deleting r) app apart =
      with_registry-IsKept site.setup site.cfg site.token site.is_unauthorized (error_page 404)
        r.rid j (delete_from site.setup site.cfg site.token site.is_unauthorized r) app apart
        (λ reg h.
          delete_from-IsKept site.setup site.cfg site.token site.is_unauthorized j r reg app h)
  visit-IsKept j (probing now later r) app apart =
      with_registry-IsKept site.setup site.cfg site.token site.is_unauthorized (error_page 404)
        r.rid j (health_of site.setup site.cfg site.token site.is_unauthorized now later) app apart
        (λ reg h.
          health_of-IsKept site.setup site.cfg site.token site.is_unauthorized now later j reg app
            h)
