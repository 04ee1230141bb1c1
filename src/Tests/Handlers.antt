-- ===== src/Tests/Handlers.antt =====
-- Deletion, health and compression on small requests.
use maze_registry_ui.Prelude.{◌≡◌, ◌⊎◌, refl, ℕ, List, [], ◌∷◌, true, false, Option, none}
use maze_registry_ui.Prelude.Assoc.{lookup, insert, remove, keep}
use maze_registry_ui.Prelude.Bytes.{Bytes, codes, bytes_eq}
use maze_registry_ui.Prelude.Int.{ℤ}
use maze_registry_ui.Prelude.Regex.{in_class, nullable, derive, accepts}
use maze_registry_ui.Prelude.Sort.{sort_by}
use maze_registry_ui.Prelude.Text.{
  split_from, split, cut, has_prefix, trim_space, trim_left, trim_right, is_space,
}
use maze_registry_ui.Config.{Config, find_registry}
use maze_registry_ui.Registry.Cache.{
  new_ttl_cache, get, set, evict_locked, drop_expired, trim, invalidate_repo, purge,
}
use maze_registry_ui.Registry.Names.{
  check_components, validate_repository, is_digest, validate_digest,
}
use maze_registry_ui.Registry.Client.{require, request, check_response, fetch}
use maze_registry_ui.Registry.Client.Content.{invalidate_cached, deleted, delete_manifest}
use maze_registry_ui.Registry.Client.Pages.{ping}
use maze_registry_ui.Server.Catalog.{new_state, invalidate}
use maze_registry_ui.Server.Compress.{
  sent_header, sent_bytes, gzip_write, gzip_close, sent_flush, Act, setting_header, writing_header,
  writing, flushing, header_of, compressible, is_small, known_small, commit, pass, encode,
  write_header, infer_type, write_body, write, flush_response, finish_gzip, act, run_handler, serve,
}
use maze_registry_ui.Server.Compress.Bodies.{IsResponse, serve-IsResponse}
use maze_registry_ui.Server.Compress.Shape.{body_of, written, is_orderly}
use maze_registry_ui.Server.Handlers.{
  Request, Reply, error_page, redirect, App, same_origin_post, join_path, after_delete, delete_from,
  with_registry, handle_delete, friendly_error, health_get, health_set, probe, health_of,
  handle_registry_health, theme,
}
use maze_registry_ui.Server.Handlers.Guards.{IsRejected, IsForwarded, handle_delete_cases}
use maze_registry_ui.Tests.Config.{hub, config}
use maze_registry_ui.Tests.Client.{setup, fresh, sha}

program : Unit {0}
unfolding lookup insert remove keep bytes_eq in_class nullable derive accepts sort_by split_from
    split cut has_prefix trim_space trim_left trim_right is_space find_registry new_ttl_cache get
    set evict_locked drop_expired trim invalidate_repo purge check_components validate_repository
    is_digest validate_digest require request check_response fetch invalidate_cached deleted
    delete_manifest ping invalidate header_of compressible is_small known_small commit pass encode
    is_orderly write_header infer_type write_body write flush_response finish_gzip act run_handler
    serve same_origin_post join_path after_delete delete_from with_registry handle_delete
    friendly_error health_get health_set probe health_of handle_registry_health theme
program = tt

abbrev pub app : App ℕ (List Bytes) ℕ
app = record { clients = λ id. fresh; catalogs = λ id. new_state; health = [] }

abbrev pub cfg : Config
cfg = config (record hub { id = codes "hub"; delete_enabled = true } ∷ [])

abbrev pub form : Request
form = record {
  rid = codes "hub";
  sec_fetch_site = codes "same-origin";
  csrf = codes "t";
  repo = codes "a";
  digest = sha;
}

abbrev delete : Request → App ℕ (List Bytes) ℕ × Reply
delete r = handle_delete (λ id. setup) cfg (codes "t") (λ e. false) r app

deletion : (delete form).1 ≡ redirect (codes "ui//r/hub/repo/a")
unfolding program
deletion = refl

cross_site : (delete (record form { sec_fetch_site = codes "cross-site" })).1 ≡ error_page 403
unfolding program
cross_site = refl

wrong_token : (delete (record form { csrf = codes "x" })).1 ≡ error_page 403
unfolding program
wrong_token = refl

no_registry : (delete (record form { rid = codes "x" })).1 ≡ error_page 404
unfolding program
no_registry = refl

no_digest : (delete (record form { digest = codes "latest" })).1 ≡ error_page 502
unfolding program
no_digest = refl

-- the second request within 30 seconds does not probe again
probed :
    let (app₁, dot) = handle_registry_health (λ id. setup) cfg [] (λ e. false) 5 6 form app in
    let (app₂, again) = handle_registry_health (λ id. setup) cfg [] (λ e. false) 7 8 form app₁ in
    (app₁.clients (codes "hub")).http ≡ (app₂.clients (codes "hub")).http
unfolding program
probed = refl

handle_delete_cases_example :
    IsRejected {W = ℕ} (λ id. setup) cfg (codes "t") (λ e. false) app (delete form)
    ⊎ IsForwarded {W = ℕ} (λ id. setup) cfg (codes "t") (λ e. false) form app (delete form)
handle_delete_cases_example =
    handle_delete_cases {W = ℕ} (λ id. setup) cfg (codes "t") (λ e. false) form app

abbrev page : List Act
page =
    setting_header (codes "Content-Type") (codes "text/html; charset=utf-8")
    ∷ writing (codes "<p>")
    ∷ flushing
    ∷ writing_header 500
    ∷ writing (codes "x")
    ∷ []

abbrev atoi : Bytes → Option ℤ
atoi s = none

in_gzip :
    serve atoi (λ b. codes "text/plain") (writing (codes "x") ∷ []) []
    ≡ sent_header 200
        ((codes "Content-Type", codes "text/plain") ∷ (codes "Content-Encoding", codes "gzip") ∷ [])
      ∷ gzip_write (codes "x")
      ∷ gzip_close
      ∷ []
unfolding program
in_gzip = refl

as_it_is :
    serve atoi (λ b. codes "image/png") (writing (codes "x") ∷ []) []
    ≡ sent_header 200 ((codes "Content-Type", codes "image/png") ∷ []) ∷ sent_bytes (codes "x") ∷ []
unfolding program
as_it_is = refl

orderly : is_orderly page ≡ true
unfolding program
orderly = refl

serve-IsResponse_example :
    IsResponse (serve atoi (λ b. codes "text/plain") page [])
    × (body_of (serve atoi (λ b. codes "text/plain") page []) ≡ written page)
serve-IsResponse_example = serve-IsResponse atoi (λ b. codes "text/plain") page [] orderly

-- a flush before the first write sends a header that does not tell of the gzip stream after it
early_flush :
    serve atoi (λ b. codes "text/plain") (flushing ∷ writing (codes "x") ∷ []) []
    ≡ sent_header 200 [] ∷ sent_flush ∷ gzip_write (codes "x") ∷ gzip_close ∷ []
unfolding program
early_flush = refl
