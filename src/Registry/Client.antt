-- ===== src/Registry/Client.antt =====
-- internal/registry/client.go: the plumbing of `client`. Values of Go are immutable here, so the
-- copies that `clone` makes are the values themselves. What the client calls outside of the
-- repository is the record `Setup`; `perform` is `do`, on a state of its own.
pub mod Pages
pub mod Content
pub mod Resolve
pub mod Totals
pub mod Steps
pub mod Limits
pub mod Repeat
pub mod Deletion
use maze_registry_ui.Prelude.{
  ℕ, ◌+◌, ◌-◌, ◌*◌, ◌^◌, List, [], ◌∷◌, ◌++◌, Bool, ◌&&◌, ◌||◌, Option, none, some, true, false,
  ltb, leb, ◌==◌, if◌then◌else◌, length, take,
}
use maze_registry_ui.Prelude.Assoc.{lookup}
use maze_registry_ui.Prelude.Bytes.{Bytes, codes}
use maze_registry_ui.Prelude.Int.{ℤ}
use maze_registry_ui.Prelude.Text.{trim_space}
use maze_registry_ui.Registry.Auth.{Response, Sent, response, send_error}
use maze_registry_ui.Registry.Cache.{TtlCache, get, set}
use maze_registry_ui.Registry.Manifest.{ManifestDoc, ManifestError, HistoryEntry}
use maze_registry_ui.Registry.Names.{Checked, valid, invalid, NameError}
use maze_registry_ui.Registry.Paging.{UrlPackage}

abbrev pub max_manifest_bytes : ℕ
max_manifest_bytes = 8 * 1048576

abbrev pub max_error_bytes : ℕ
max_error_bytes = 64 * 1024

abbrev pub default_blob_limit : ℕ
default_blob_limit = 8 * 1048576

-- an hour in nanoseconds
abbrev pub immutable_ttl : ℤ
immutable_ttl = ℤ.pos 3600000000000

pub record StatusError : Type 0 where
  pub method : Bytes
  pub url : Bytes
  pub status_code : ℕ
  pub code : Bytes
  pub message : Bytes

-- The errors of the client; E are those of the requests.
pub data ClientError (E : Type 0) : Type 0 where
  name_error : NameError → ClientError E
  request_error : E → ClientError E
  not_found : StatusError → ClientError E
  auth_error : StatusError → ClientError E
  status_error : StatusError → ClientError E
  body_broken : ClientError E
  body_too_long : ℕ → ClientError E
  blob_too_long : ℤ → ℕ → ClientError E
  undecodable : ClientError E
  manifest_error : ManifestError → ClientError E
  delete_denied : ClientError E
  delete_denied_by_registry : ClientError E

pub data Outcome (E A : Type 0) : Type 0 where
  done : A → Outcome E A
  fail : ClientError E → Outcome E A

pub record CatalogPage : Type 0 where
  pub repositories : List Bytes
  pub next_last : Bytes

pub record TagPage : Type 0 where
  pub repository : Bytes
  pub tags : List Bytes
  pub next_last : Bytes

pub record ManifestFetch : Type 0 where
  pub raw : Bytes
  pub media_type : Bytes
  pub digest : Bytes

-- what the cache holds, an `any` in the source
pub data Cached : Type 0 where
  catalog_page : CatalogPage → Cached
  tag_page : TagPage → Cached
  manifest_fetch : ManifestFetch → Cached
  blob_bytes : Bytes → Cached

-- `rawImageConfig`, with its times in nanoseconds: `none` is the zero time
pub record RawImageConfig : Type 0 where
  pub architecture : Bytes
  pub os : Bytes
  pub variant : Bytes
  pub created : Option ℕ
  pub author : Bytes
  pub user : Bytes
  pub exposed_ports : List (Bytes × Bytes)
  pub env : List Bytes
  pub entrypoint : List Bytes
  pub cmd : List Bytes
  pub volumes : List (Bytes × Bytes)
  pub working_dir : Bytes
  pub labels : List (Bytes × Bytes)
  pub history : List HistoryEntry

-- The options that the methods read, `do` on a state S, and the packages outside of the
-- repository: the clock, net/url (`redact` prints a URL without its user, `encode` is
-- `url.Values.Encode`), strconv, crypto/sha256 and the shapes that encoding/json decodes.
pub record Setup (E S : Type 0) : Type 1 where
  pub base : Bytes
  pub delete_enabled : Bool
  pub cache_ttl : ℤ
  pub perform : Bytes → Bytes → Bytes → S → S × Sent E
  pub clock : ℕ → ℕ
  pub net : UrlPackage
  pub redact : Bytes → Option Bytes
  pub encode : List (Bytes × Bytes) → Bytes
  pub itoa : ℕ → Bytes
  pub sum_hex : Bytes → Bytes
  pub error_document : Bytes → Option (List (Bytes × Bytes))
  pub catalog_document : Bytes → Option (List Bytes)
  pub tags_document : Bytes → Option (List Bytes)
  pub manifest_document : Bytes → Option ManifestDoc
  pub config_document : Bytes → Option RawImageConfig

-- `client`: the state of `do`, the cache, and the number of readings of the clock
pub record Client (S : Type 0) : Type 0 where
  pub http : S
  pub cache : TtlCache Cached
  pub reads : ℕ

-- a method: it changes the client, and returns a value or an error
abbrev pub Action : Type 0 → Type 0 → Type 0 → Type 0
Action E S A = Client S → Client S × Outcome E A

module _ {E S A : Type 0} where
  abbrev pub pure : A → Action E S A
  pure a c = (c, done a)

  abbrev pub raise : ClientError E → Action E S A
  raise e c = (c, fail e)

  abbrev pub or_raise : Option A → ClientError E → Action E S A
  or_raise none e = raise e
  or_raise (some a) e = pure a

infixl 5 ◌>>=◌ ◌>>◌
abbrev pub ◌>>=◌ : {E S A B : Type 0} → Action E S A → (A → Action E S B) → Action E S B
◌>>=◌ m f c = let (c', r) = m c in elim r [ done a ↦ f a c' | fail e ↦ raise e c' ]

abbrev pub ◌>>◌ : {E S A B : Type 0} → Action E S A → Action E S B → Action E S B
m >> k = m >>= λ _. k

-- `resp.Header.Get`
unfoldable pub header_get : Bytes → Response → Bytes
unfolding lookup
header_get name r = elim (lookup name r.headers) [ none ↦ [] | some v ↦ v ]

-- `error` results of the validators
unfoldable pub require : {E S : Type 0} → Checked → Action E S Unit
require valid = pure tt
require (invalid e) = raise (name_error e)

module _ {E S : Type 0} (w : Setup E S) where
  unfoldable pub request : Bytes → Bytes → Bytes → Action E S Response
  request method url accept c =
      let (s, sent) = w.perform method url accept c.http in
      elim sent [
        | response r ↦ (record c { http = s }, done r)
        | send_error e ↦ (record c { http = s }, fail (request_error e))
      ]

  -- `c.cache.get`
  unfoldable pub cache_get : Bytes → Client S → Client S × Option Cached
  cache_get key c =
      let (cache, v) = get (w.clock c.reads) key c.cache in
      (record c { cache = cache; reads = c.reads + 1 }, v)

  -- `c.cache.set`, which takes two readings of the clock
  unfoldable pub cache_set : Bytes → Bytes → Cached → ℤ → Action E S Unit
  cache_set key repo v ttl c = (
    record c {
      cache = set (w.clock c.reads) (w.clock (c.reads + 1)) key repo v ttl c.cache;
      reads = c.reads + 2;
    },
    done tt,
  )

  unfoldable pub digest_of : Bytes → Bytes
  digest_of b = codes "sha256:" ++ w.sum_hex b

  unfoldable pub sanitise_url : Bytes → Bytes
  sanitise_url raw = elim (w.redact raw) [ none ↦ raw | some u ↦ u ]

  unfoldable pub first_registry_error : Bytes → Bytes × Bytes
  first_registry_error body = elim (w.error_document body) [
    | none ↦ ([], [])
    | some [] ↦ ([], [])
    | some ((code, message) ∷ rest) ↦ (code, trim_space message)
  ]

  -- the error for a status, with what the body says of it
  unfoldable pub status_of : Response → Bytes → Bytes → StatusError
  unfolding first_registry_error sanitise_url
  status_of r method url =
      let (code, message) = first_registry_error (take max_error_bytes r.body) in
      record {
        method = method;
        url = sanitise_url url;
        status_code = r.status_code;
        code = code;
        message = message;
      }

  unfoldable pub check_response : Response → Bytes → Bytes → Action E S Unit
  unfolding status_of
  check_response r method url =
      if leb 200 r.status_code && leb r.status_code 299
      then pure tt
      else if r.status_code == 404
      then raise (not_found (status_of r method url))
      else if r.status_code == 401 || r.status_code == 403
      then raise (auth_error (status_of r method url))
      else raise (status_error (status_of r method url))

  -- `limit+1` on an int64: what `io.LimitReader` lets through
  unfoldable pub read_size : ℕ → ℕ
  read_size limit = if ltb limit (2 ^ 63 - 1) then limit + 1 else 0

  unfoldable pub read_limited : Response → ℕ → Action E S Bytes
  unfolding read_size
  read_limited r limit =
      let b = take (read_size limit) r.body in
      if r.broken && ltb (length r.body) (read_size limit)
      then raise body_broken
      else if ltb limit (length b)
      then raise (body_too_long limit)
      else pure b

  -- a request, the test of its status, and the response
  unfoldable pub fetch : Bytes → Bytes → Bytes → Action E S Response
  unfolding request check_response
  fetch method url accept = do r ← request method url accept; check_response r method url; pure r
