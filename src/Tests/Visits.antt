-- ===== src/Tests/Visits.antt =====
-- Requests for two registries, one of which is configured.
use maze_registry_ui.Prelude.{◌≡◌, refl, ℕ, List, [], ◌∷◌, none, some, false}
use maze_registry_ui.Prelude.Bytes.{Bytes, codes, bytes_eq}
use maze_registry_ui.Prelude.Int.{ℤ}
use maze_registry_ui.Config.{find_registry}
use maze_registry_ui.Registry.Client.{ClientError, TagPage, done, fail, manifest_error}
use maze_registry_ui.Registry.Manifest.{unsupported}
use maze_registry_ui.Server.Catalog.{new_state}
use maze_registry_ui.Server.Handlers.{App, with_registry}
use maze_registry_ui.Server.Pages.{int_param, fill_tag_rows, tag_link, fragment_url, count_text}
use maze_registry_ui.Server.Views.{image_href}
use maze_registry_ui.Server.Visits.{
  Site, PageRequest, catalog_page, tag_rows, Visit, viewing, deleting, probing, visits, count_of,
  count_reply, handle_page, image_of, error_reply,
}
use maze_registry_ui.Server.Visits.Apart.{IsKept}
use maze_registry_ui.Server.Visits.Alone.{visits_alone}
use maze_registry_ui.Tests.Client.{setup, fresh}
use maze_registry_ui.Tests.Config.{hub}
use maze_registry_ui.Tests.Handlers.{cfg, form}
use maze_registry_ui.Tests.Views.{floats}

abbrev site : Site ℕ (List Bytes)
site = record {
  setup = λ id. setup;
  cfg = cfg;
  token = codes "t";
  is_unauthorized = λ e. false;
  cancelled = 7;
  floats = floats;
  escape = λ s. s;
  pretty_json = λ s. s;
  parse_url = λ s. none;
  itoa = λ n. codes "n";
  atoi = λ s. some (ℤ.pos 2);
}

abbrev ask : Bytes → PageRequest
ask rid = record {
  rid = rid;
  repo = codes "a";
  q = [];
  o = [];
  last = [];
  t = [];
  ref = [];
  hx_request = [];
}

abbrev requests : List Visit
requests =
    viewing 1 2 9 catalog_page (ask (codes "hub"))
    ∷ deleting form
    ∷ probing 3 4 (record form { rid = codes "other" })
    ∷ viewing 5 6 9 tag_rows (ask (codes "other"))
    ∷ []

abbrev idle : App ℕ (List Bytes) (ClientError ℕ)
idle = record { clients = λ id. fresh; catalogs = λ id. new_state; health = [] }

visits_alone_example :
    IsKept
      (codes "hub")
      (visits site (viewing 1 2 9 catalog_page (ask (codes "hub")) ∷ deleting form ∷ []) idle)
      (visits site requests idle)
unfolding bytes_eq
visits_alone_example = visits_alone site (codes "hub") requests idle

offsets : (int_param site.atoi [] 5 ≡ 5) × (int_param site.atoi (codes "2") 5 ≡ 2)
unfolding int_param
offsets = (refl, refl)

abbrev tag_page : TagPage
tag_page = record {
  repository = codes "a";
  tags = codes "latest" ∷ codes "v1" ∷ [];
  next_last = codes "v1";
}

next_tags :
    (fill_tag_rows site.itoa site.escape (codes "/ui") (codes "hub") (codes "a") tag_page).more_url
    ≡ codes "/ui/x/tags/hub/a?last=v1"
unfolding fill_tag_rows tag_link fragment_url image_href
next_tags = refl

counted : count_of site (done tag_page) ≡ count_reply (codes "n+")
unfolding count_of count_text
counted = refl

unknown_registry :
    (handle_page site 1 2 9 catalog_page (ask (codes "other")) idle).1 ≡ error_reply 404
unfolding handle_page with_registry find_registry bytes_eq
unknown_registry = refl

missing_image :
    image_of site (codes "a") (codes "b") hub (fail (manifest_error unsupported)) ≡ error_reply 415
unfolding image_of
missing_image = refl
