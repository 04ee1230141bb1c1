-- ===== src/Registry/Client/Content.antt =====
-- internal/registry/client.go: blobs, manifests as they are served, and deletion.
use maze_registry_ui.Prelude.{
  ℕ, [], ◌++◌, Bool, ◌||◌, not, Option, none, some, ◌==◌, if◌then◌else◌, ltb, false,
}
use maze_registry_ui.Prelude.Bytes.{Bytes, codes}
use maze_registry_ui.Prelude.Int.{ℤ, le_zero, pos_part}
use maze_registry_ui.Registry.Auth.{Response}
use maze_registry_ui.Registry.Cache.{invalidate_repo}
use maze_registry_ui.Registry.Manifest.{
  media_type_oci_index, media_type_oci_manifest, media_type_docker_list, media_type_docker_v2,
  normalise_media_type,
}
use maze_registry_ui.Registry.Names.{validate_repository, validate_digest, is_digest}
use maze_registry_ui.Registry.Client.{
  Setup, Action, done, pure, raise, ◌>>=◌, ◌>>◌, blob_too_long, delete_denied,
  delete_denied_by_registry, max_manifest_bytes, default_blob_limit, immutable_ttl, Cached,
  manifest_fetch, blob_bytes, ManifestFetch, cache_get, cache_set, request, check_response, fetch,
  read_limited, require, header_get, digest_of,
}

abbrev pub accept_manifests : Bytes
accept_manifests =
    media_type_oci_index
    ++ codes ", "
    ++ media_type_oci_manifest
    ++ codes ", "
    ++ media_type_docker_list
    ++ codes ", "
    ++ media_type_docker_v2

-- `v.(*manifestFetch)`
unfoldable pub as_manifest : Option Cached → Option ManifestFetch
as_manifest (some (manifest_fetch m)) = some m
as_manifest _ = none

-- `v.([]byte)`
unfoldable pub as_blob : Option Cached → Option Bytes
as_blob (some (blob_bytes b)) = some b
as_blob _ = none

-- `resp.ContentLength > limit`
unfoldable pub declared_over : ℤ → ℕ → Bool
declared_over (ℤ.pos n) limit = ltb limit n
declared_over (ℤ.negsuc n) limit = false

module _ {E S : Type 0} (w : Setup E S) where
  -- the body of a response for a blob
  unfoldable pub read_blob : Response → ℕ → Action E S Bytes
  unfolding read_limited declared_over
  read_blob r limit =
      if declared_over r.content_length limit
      then raise (blob_too_long r.content_length limit)
      else read_limited w r limit

  unfoldable pub fetch_blob : Bytes → Bytes → ℕ → Action E S Bytes
  unfolding fetch read_blob
  fetch_blob repo digest limit = do
    r ← fetch w (codes "GET") (w.base ++ codes "/v2/" ++ repo ++ codes "/blobs/" ++ digest) []
    read_blob r limit

  abbrev pub blob_key : Bytes → Bytes → Bytes
  blob_key repo digest = codes "blob|" ++ repo ++ codes "|" ++ digest

  unfoldable pub store_blob : Bytes → Bytes → ℕ → Action E S Bytes
  unfolding fetch_blob cache_set
  store_blob repo digest limit = do
    b ← fetch_blob repo digest limit
    cache_set w (blob_key repo digest) repo (blob_bytes b) immutable_ttl
    pure b

  unfoldable pub fetch_blob_cached : Bytes → Bytes → ℕ → Action E S Bytes
  unfolding store_blob cache_get as_blob
  fetch_blob_cached repo digest limit c =
      let (c', v) = cache_get w (blob_key repo digest) c in
      elim (as_blob v) [ some b ↦ pure b c' | none ↦ store_blob repo digest limit c' ]

  unfoldable pub blob_limit : ℤ → ℕ
  blob_limit limit = if le_zero limit then default_blob_limit else pos_part limit

  unfoldable pub blob : Bytes → Bytes → ℤ → Action E S Bytes
  unfolding require validate_repository validate_digest fetch_blob blob_limit
  blob repo digest limit = do
    require (validate_repository repo)
    require (validate_digest digest)
    fetch_blob repo digest (blob_limit limit)

  abbrev pub manifest_key : Bytes → Bytes → Bytes
  manifest_key repo reference = codes "manifest|" ++ repo ++ codes "|" ++ reference

  -- The digest is that of the bytes, whatever the response advertises.
  unfoldable pub fetched_of : Response → Bytes → ManifestFetch
  unfolding header_get digest_of normalise_media_type
  fetched_of r raw = record {
    raw = raw;
    media_type = normalise_media_type (header_get (codes "Content-Type") r);
    digest = digest_of w raw;
  }

  -- A manifest that a tag named is cached under its digest too.
  unfoldable pub store_manifest : Bytes → Bytes → ManifestFetch → Action E S Unit
  unfolding is_digest cache_set
  store_manifest repo reference m =
      if is_digest reference
      then cache_set w (manifest_key repo reference) repo (manifest_fetch m) immutable_ttl
      else do
        cache_set w (manifest_key repo reference) repo (manifest_fetch m) w.cache_ttl
        cache_set w (manifest_key repo m.digest) repo (manifest_fetch m) immutable_ttl

  -- `fetchManifest` where the manifest is not cached
  unfoldable pub request_manifest : Bytes → Bytes → Action E S ManifestFetch
  unfolding fetch read_limited fetched_of store_manifest
  request_manifest repo reference = do
    r ←
        fetch w (codes "GET") (w.base ++ codes "/v2/" ++ repo ++ codes "/manifests/" ++ reference)
          accept_manifests
    raw ← read_limited w r max_manifest_bytes
    store_manifest repo reference (fetched_of r raw)
    pure (fetched_of r raw)

  unfoldable pub fetch_manifest : Bytes → Bytes → Action E S ManifestFetch
  unfolding request_manifest cache_get as_manifest
  fetch_manifest repo reference c =
      let (c', v) = cache_get w (manifest_key repo reference) c in
      elim (as_manifest v) [ some m ↦ pure m c' | none ↦ request_manifest repo reference c' ]

  -- `c.cache.InvalidateRepo`
  unfoldable pub invalidate_cached : Bytes → Action E S Unit
  invalidate_cached repo c = (record c { cache = invalidate_repo repo c.cache }, done tt)

  -- what the status of a deletion means
  unfoldable pub deleted : Bytes → Bytes → Response → Action E S Unit
  unfolding invalidate_cached check_response
  deleted repo url r =
      if r.status_code == 202 || r.status_code == 200
      then invalidate_cached repo
      else if r.status_code == 405
      then raise delete_denied_by_registry
      else check_response w r (codes "DELETE") url

  abbrev pub manifest_url : Bytes → Bytes → Bytes
  manifest_url repo digest = w.base ++ codes "/v2/" ++ repo ++ codes "/manifests/" ++ digest

  unfoldable pub delete_manifest : Bytes → Bytes → Action E S Unit
  unfolding require validate_repository validate_digest request deleted
  delete_manifest repo digest = if not w.delete_enabled then raise delete_denied else do
    require (validate_repository repo)
    require (validate_digest digest)
    r ← request w (codes "DELETE") (manifest_url repo digest) []
    deleted repo (manifest_url repo digest) r
