-- ===== src/Server/Visits/Alone.antt =====
-- internal/server/handlers.go: sequences of requests, and those of them that are for one registry.
use maze_registry_ui.Prelude.{
  ℕ, ◌≡◌, sym, ap, subst, ◌∙◌, List, [], ◌∷◌, if◌then◌else◌, Bool-cases, inl, inr,
}
use maze_registry_ui.Prelude.Bytes.{Bytes, bytes_eq, bytes_eq_iff}
use maze_registry_ui.Config.{Registry}
use maze_registry_ui.Registry.Client.{Client}
use maze_registry_ui.Server.Handlers.{
  handle_delete, delete_from, error_page, handle_registry_health, health_of,
}
use maze_registry_ui.Server.Pages.{CatalogView}
use maze_registry_ui.Server.Visits.{
  on_client, list_catalog, build_catalog, serve_page, handle_page, Route, catalog_page,
  catalog_rows, repo_count, repository, tag_rows, tag_row, image_page, PageRequest, State, Site,
  Answer, error_reply, Visit, viewing, deleting, probing, visited, visit, visits,
}
use maze_registry_ui.Server.Visits.Apart.{IsKept, IsKept-refl, IsKept-trans, visit-IsKept}
use maze_registry_ui.Server.Visits.Same.{
  update_same, with_registry_same, delete_from_same, health_of_same,
}

-- the requests for a registry
abbrev pub visits_of : Bytes → List Visit → List Visit
visits_of j [] = []
visits_of j (v ∷ vs) =
    let rest = visits_of j vs in if bytes_eq (visited v) j then v ∷ rest else rest

module _ {E S : Type 0} (site : Site E S) where
  on_client_same :
      {A : Type 0} (act : Client S → Client S × A) (reply : A → Answer site) (reg : Registry)
      (a b : State site)
      → IsKept reg.id a b
      → IsKept reg.id (on_client site act reply reg a).0 (on_client site act reply reg b).0
  unfolding on_client
  on_client_same act reply reg a b k = record {
    client = update_same reg.id _ _ b.clients a.clients (ap (λ c. (act c).0) k.client);
    catalog = k.catalog;
    health = k.health;
  }

  build_catalog_same :
      (now later patience : ℕ) (r : PageRequest) (reply : CatalogView → Answer site)
      (reg : Registry) (a b : State site)
      → IsKept reg.id a b
      → IsKept reg.id
          (build_catalog site now later patience r reply reg a).0
          (build_catalog site now later patience r reply reg b).0
  unfolding build_catalog
  build_catalog_same now later patience r reply reg a b k =
      let list = list_catalog site now later patience reg in
      let same : list (b.clients reg.id) (b.catalogs reg.id)
          ≡ list (a.clients reg.id) (a.catalogs reg.id) =
        ap (λ c. list c (b.catalogs reg.id)) k.client ∙ ap (list (a.clients reg.id)) k.catalog in
      record {
        client = update_same reg.id _ _ b.clients a.clients (ap (λ p. p.0) same);
        catalog = update_same reg.id _ _ b.catalogs a.catalogs (ap (λ p. p.1) same);
        health = k.health;
      }

  serve_page_same :
      (now later patience : ℕ) (route : Route) (r : PageRequest) (reg : Registry) (a b : State site)
      → IsKept reg.id a b
      → IsKept reg.id
          (serve_page site now later patience route r reg a).0
          (serve_page site now later patience route r reg b).0
  unfolding serve_page
  serve_page_same now later patience catalog_page r reg a b k =
      build_catalog_same now later patience r _ reg a b k
  serve_page_same now later patience catalog_rows r reg a b k =
      build_catalog_same now later patience r _ reg a b k
  serve_page_same now later patience repo_count r reg a b k = on_client_same _ _ reg a b k
  serve_page_same now later patience repository r reg a b k = on_client_same _ _ reg a b k
  serve_page_same now later patience tag_rows r reg a b k = on_client_same _ _ reg a b k
  serve_page_same now later patience tag_row r reg a b k = on_client_same _ _ reg a b k
  serve_page_same now later patience image_page r reg a b k = on_client_same _ _ reg a b k

  visit_same :
      (v : Visit) (a b : State site)
      → IsKept (visited v) a b
      → IsKept (visited v) (visit site v a) (visit site v b)
  unfolding visit handle_page handle_delete handle_registry_health
  visit_same (viewing now later patience route r) a b k =
      with_registry_same site.setup site.cfg site.token site.is_unauthorized (error_reply 404) r.rid
        (serve_page site now later patience route r) a b k
        (λ reg h. serve_page_same now later patience route r reg a b h)
  visit_same (deleting r) a b k =
      with_registry_same site.setup site.cfg site.token site.is_unauthorized (error_page 404) r.rid
        (delete_from site.setup site.cfg site.token site.is_unauthorized r) a b k
        (λ reg h. delete_from_same site.setup site.cfg site.token site.is_unauthorized r reg a b h)
  visit_same (probing now later r) a b k =
      with_registry_same site.setup site.cfg site.token site.is_unauthorized (error_page 404) r.rid
        (health_of site.setup site.cfg site.token site.is_unauthorized now later) a b k
        (λ reg h.
          health_of_same site.setup site.cfg site.token site.is_unauthorized now later reg a b h)

  visits_same :
      (j : Bytes) (vs : List Visit) (a b : State site)
      → IsKept j a b
      → IsKept j (visits site (visits_of j vs) a) (visits site vs b)
  unfolding visits
  visits_same j [] a b k = k
  visits_same j (v ∷ vs) a b k = elim (Bool-cases (bytes_eq (visited v) j)) [
    | inl e ↦
        let same : visited v ≡ j = (bytes_eq_iff (visited v) j).0 e in
        rw (e, visits)
          (visits_same j vs (visit site v a) (visit site v b) (
            subst (λ i. IsKept i (visit site v a) (visit site v b)) same
              (visit_same v a b (subst (λ i. IsKept i a b) (sym same) k))))
    | inr e ↦ rw e (
        visits_same j vs a (visit site v b)
          (IsKept-trans j a b (visit site v b) k (visit-IsKept site j v b e)))
  ]

  -- After any sequence of requests for pages, fragments, deletions and health probes, whatever
  -- registries they name, the client of a registry with its cache and its connection, its cached
  -- list of repositories and its cached health are the same as after those of the requests alone
  -- that name this registry: no request for one registry changes what is kept for another.
  pub visits_alone :
      (j : Bytes) (vs : List Visit) (app : State site)
      → IsKept j (visits site (visits_of j vs) app) (visits site vs app)
  visits_alone j vs app = visits_same j vs app app (IsKept-refl j app)
