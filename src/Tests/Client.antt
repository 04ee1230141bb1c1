-- ===== src/Tests/Client.antt =====
-- The methods of the client against a small registry.
use maze_registry_ui.Prelude.{
  ◌≡◌, ◌⊎◌, refl, ℕ, ◌^◌, ◌-◌, List, [], ◌∷◌, ◌++◌, true, false, none, some, arith, if◌then◌else◌,
}
use maze_registry_ui.Prelude.Assoc.{lookup, insert, remove, keep}
use maze_registry_ui.Prelude.Bytes.{Bytes, codes, bytes_eq}
use maze_registry_ui.Prelude.Int.{pos}
use maze_registry_ui.Prelude.Regex.{in_class, nullable, derive, accepts}
use maze_registry_ui.Prelude.Sort.{sort_by}
use maze_registry_ui.Prelude.Text.{split_from, split, trim_space, trim_left, trim_right, is_space}
use maze_registry_ui.Registry.Auth.{Response, response}
use maze_registry_ui.Registry.Cache.{
  new_ttl_cache, get, set, evict_locked, drop_expired, trim, invalidate_repo, purge,
}
use maze_registry_ui.Registry.Cache.Bound.{IsValid}
use maze_registry_ui.Registry.Cache.Runs.{Call, setting, invalidating, run_calls, new-IsValid}
use maze_registry_ui.Registry.Cache.Refines.{spec_read, spec_run, run-spec_run}
use maze_registry_ui.Registry.Names.{
  check_components, validate_repository, is_digest, validate_digest,
}
use maze_registry_ui.Registry.Paging.{
  UrlPackage, clamp_page_size, last_of, flush, write_byte, scan_byte, scan_bytes, split_link_header,
  first_cursor, parse_link_next_last, next_cursor,
}
use maze_registry_ui.Registry.Client.{
  Setup, Client, done, fail, CatalogPage, body_too_long, body_broken, header_get, require, request,
  cache_get, cache_set, check_response, read_limited, read_size, fetch,
}
use maze_registry_ui.Registry.Client.Pages.{
  trimmed_names, as_catalog_page, catalog_key, catalog_of, fetch_catalog, catalog,
}
use maze_registry_ui.Registry.Client.Content.{invalidate_cached, deleted, delete_manifest}
use maze_registry_ui.Registry.Client.Deletion.{IsRefused, IsSent, delete_manifest_cases}
use maze_registry_ui.Registry.Client.Limits.{IsWhole, read_limited-IsWhole}
use maze_registry_ui.Registry.Client.Repeat.{catalog_repeated}

program : Unit {0}
unfolding lookup insert remove keep bytes_eq in_class nullable derive accepts sort_by split_from
    split trim_space trim_left trim_right is_space new_ttl_cache get set evict_locked drop_expired
    trim invalidate_repo purge check_components validate_repository is_digest validate_digest
    clamp_page_size last_of flush write_byte scan_byte scan_bytes split_link_header first_cursor
    parse_link_next_last next_cursor header_get require request cache_get cache_set check_response
    read_limited read_size fetch trimmed_names as_catalog_page catalog_key catalog_of fetch_catalog
    catalog invalidate_cached deleted delete_manifest
program = tt

abbrev net : UrlPackage
net = record {
  Url = Bytes;
  parse = λ s. some s;
  is_abs = λ u. true;
  resolve_reference = λ b u. u;
  query = λ name u. codes "z";
}

abbrev answer : ℕ → Response
answer status = record {
  status_code = status;
  www_authenticate = [];
  headers = [];
  content_length = pos 2;
  body = codes "ok";
  broken = false;
}

-- a registry of two repositories that deletes what it is asked to; its state is the log of URLs
abbrev pub setup : Setup ℕ (List Bytes)
setup = record {
  base = codes "http://r";
  delete_enabled = true;
  cache_ttl = pos 100;
  perform = λ method url accept log.
      (log ++ url ∷ [], response (answer (if bytes_eq method (codes "DELETE") then 202 else 200)));
  clock = λ k. k;
  net = net;
  redact = λ raw. some raw;
  encode = λ q. codes "q";
  itoa = λ n. codes "n";
  sum_hex = λ b. b;
  error_document = λ b. none;
  catalog_document = λ b. some (codes "a" ∷ codes " b " ∷ codes " " ∷ []);
  tags_document = λ b. none;
  manifest_document = λ b. none;
  config_document = λ b. none;
}

abbrev pub fresh : Client (List Bytes)
fresh = record { http = []; cache = new_ttl_cache (pos 10); reads = 0 }

abbrev page : CatalogPage
page = record { repositories = codes "a" ∷ codes "b" ∷ []; next_last = [] }

abbrev pub after : Client (List Bytes)
after = (fetch_catalog setup 100 [] fresh).0

fetched : (fetch_catalog setup 100 [] fresh).1 ≡ done page
unfolding program
fetched = refl

fresh-IsValid : IsValid fresh.cache
fresh-IsValid = new-IsValid (pos 10)

catalog_repeated_example :
    ((catalog setup (pos 0) [] after).0.http ≡ after.http)
    × ((catalog setup (pos 0) [] after).1 ≡ done page)
unfolding program
catalog_repeated_example =
    catalog_repeated setup (pos 0) [] fresh after page refl fresh-IsValid (omega arith)
      (omega arith) refl (omega arith) (omega arith)

abbrev pub sha : Bytes
sha = codes "sha256:e3b0c44298fc1c149afbf4c8996fb92427ae41e4649b934ca495991b7852b855"

deletion : (delete_manifest setup (codes "a") sha after).1 ≡ done tt
unfolding program
deletion = refl

-- the page of the catalog went with the manifest
forgotten : (delete_manifest setup (codes "a") sha after).0.cache.entries ≡ []
unfolding program
forgotten = refl

delete_manifest_cases_example :
    IsRefused setup (codes "a") sha after (delete_manifest setup (codes "a") sha after)
    ⊎ IsSent setup (codes "a") sha after (delete_manifest setup (codes "a") sha after)
delete_manifest_cases_example = delete_manifest_cases setup (codes "a") sha after

read_limited-IsWhole_example :
    (IsWhole (answer 200) 2
      × (read_limited setup (answer 200) 2 fresh ≡ (fresh, done (codes "ok"))))
    ⊎ ((¬ IsWhole (answer 200) 2)
        × ((read_limited setup (answer 200) 2 fresh ≡ (fresh, fail (body_too_long 2)))
            ⊎ (read_limited setup (answer 200) 2 fresh ≡ (fresh, fail body_broken))))
read_limited-IsWhole_example = read_limited-IsWhole setup (answer 200) 2 fresh (omega arith)

-- With the greatest int64 as its limit nothing is read.
greatest_limit : read_limited setup (answer 200) (2 ^ 63 - 1) fresh ≡ (fresh, done [])
unfolding program
greatest_limit = refl

abbrev calls : List (Call ℕ)
calls =
    setting 0 0 (codes "a") (codes "r") 1 (pos 100)
    ∷ setting 1 1 (codes "b") (codes "r") 2 (pos 100)
    ∷ invalidating (codes "q")
    ∷ []

run-spec_run_example :
    ((get 5 (codes "a") (run_calls calls (new_ttl_cache (pos 9)))).1 ≡ none)
    ⊎ ((get 5 (codes "a") (run_calls calls (new_ttl_cache (pos 9)))).1
        ≡ spec_read 5 (codes "a") (spec_run calls (λ _. none)))
run-spec_run_example = run-spec_run (pos 9) calls 5 (codes "a") (omega arith)
