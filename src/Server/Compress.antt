-- ===== src/Server/Compress.antt =====
-- internal/server/compress.go: `gzipResponseWriter`, between a handler and the response writer below
-- it, which is the list of what it sends. That is the writer of net/http: the first header that it
-- gets goes out and any later one is ignored, and a flush before any header sends one of status 200
-- with the fields set so far. That it refuses a body under a status that has none, and sends
-- headers of status 1xx besides, is outside the model. compress/gzip is the stream of the bytes
-- that are written to it, and closing it; `http.DetectContentType` is the argument `detect`.
pub mod Shape
pub mod Phases
pub mod Bodies
use maze_registry_ui.Prelude.{
  ℕ, ◌+◌, ◌-◌, ◌*◌, List, [], ◌∷◌, ◌++◌, Bool, ◌&&◌, ◌||◌, not, Option, none, some, true, false,
  ltb, leb, if◌then◌else◌,
}
use maze_registry_ui.Prelude.Assoc.{lookup, insert, remove}
use maze_registry_ui.Prelude.Bytes.{Bytes, codes, bytes_eq, is_empty}
use maze_registry_ui.Prelude.Int.{ℤ}
use maze_registry_ui.Prelude.Text.{cut, trim_space, has_prefix, contains}

abbrev pub gzip_min_size : ℕ
gzip_min_size = 512

-- canonical names
abbrev pub Headers : Type 0
Headers = List (Bytes × Bytes)

-- what the response writer below sends; `gzip_write` is a write through the gzip stream
pub data Sent : Type 0 where
  sent_header : ℕ → Headers → Sent
  sent_bytes : Bytes → Sent
  gzip_write : Bytes → Sent
  gzip_flush : Sent
  gzip_close : Sent
  sent_flush : Sent

-- `gz` says that the gzip stream is open, `committed` that the writer below has sent its header.
pub record GzipWriter : Type 0 where
  pub headers : Headers
  pub wrote_header : Bool
  pub status : ℕ
  pub gz : Bool
  pub passing : Bool
  pub committed : Bool
  pub sent : List Sent

unfoldable pub header_of : Bytes → Headers → Bytes
unfolding lookup
header_of name h = elim (lookup name h) [ none ↦ [] | some v ↦ v ]

abbrev one_of : List Bytes → Bytes → Bool
one_of [] s = false
one_of (x ∷ xs) s = bytes_eq x s || one_of xs s

unfoldable pub compressible : Bytes → Bool
unfolding cut trim_space has_prefix
compressible content_type =
    let ct : Bytes =
      trim_space (elim (cut b';' content_type) [ none ↦ content_type | some (a, _) ↦ a ]) in
    one_of
      (codes "application/json"
        ∷ codes "application/javascript"
        ∷ codes "text/javascript"
        ∷ codes "image/svg+xml"
        ∷ codes "application/xml"
        ∷ [])
      ct
    || has_prefix (codes "text/") ct

-- `n < gzipMinSize` on an int
unfoldable pub is_small : ℤ → Bool
is_small (ℤ.pos n) = ltb n gzip_min_size
is_small (ℤ.negsuc n) = true

-- a header for the writer below
unfoldable pub commit : ℕ → Headers → GzipWriter → List Sent
commit status h g = if g.committed then g.sent else g.sent ++ sent_header status h ∷ []

-- the header goes out as it is, and the body will
unfoldable pub pass : ℕ → GzipWriter → GzipWriter
unfolding commit
pass status g = record g {
  wrote_header = true;
  status = status;
  passing = true;
  committed = true;
  sent = commit status g.headers g;
}

abbrev pub encoded : Headers → Headers
encoded h = insert (codes "Content-Encoding") (codes "gzip") (remove (codes "Content-Length") h)

-- the header goes out for a body in gzip
unfoldable pub encode : ℕ → GzipWriter → GzipWriter
unfolding commit
encode status g = record g {
  headers = encoded g.headers;
  wrote_header = true;
  status = status;
  gz = true;
  committed = true;
  sent = commit status (encoded g.headers) g;
}

unfoldable pub write_body : Bytes → GzipWriter → GzipWriter
write_body b g = record g {
  sent = g.sent ++ (if g.passing then sent_bytes b else gzip_write b) ∷ [];
}

-- `Flush`, over a writer that can flush
unfoldable pub flush_response : GzipWriter → GzipWriter
unfolding commit
flush_response g = record g {
  committed = true;
  sent = commit 200 g.headers g ++ (if g.gz then gzip_flush ∷ sent_flush ∷ [] else sent_flush ∷ []);
}

unfoldable pub finish_gzip : GzipWriter → GzipWriter
finish_gzip g = if not g.gz then g else record g { gz = false; sent = g.sent ++ gzip_close ∷ [] }

-- what a handler does with its response writer
pub data Act : Type 0 where
  setting_header : Bytes → Bytes → Act
  writing_header : ℕ → Act
  writing : Bytes → Act
  flushing : Act

module _ (atoi : Bytes → Option ℤ) (detect : Bytes → Bytes) where
  -- the response says that it is too small to gain
  unfoldable pub known_small : Headers → Bool
  unfolding header_of is_small
  known_small h = elim (atoi (header_of (codes "Content-Length") h)) [
    | none ↦ false
    | some n ↦ is_small n
  ]

  -- `WriteHeader`
  unfoldable pub write_header : ℕ → GzipWriter → GzipWriter
  unfolding compressible known_small pass encode
  write_header status g =
      if g.wrote_header
      then g
      else if not (is_empty (header_of (codes "Content-Encoding") g.headers))
          || not (compressible (header_of (codes "Content-Type") g.headers))
      then pass status g
      else if known_small g.headers
      then pass status g
      else encode status g

  -- the content type that net/http would infer
  unfoldable pub infer_type : Bytes → GzipWriter → GzipWriter
  infer_type b g = record g {
    headers =
        if is_empty (header_of (codes "Content-Type") g.headers)
        then insert (codes "Content-Type") (detect b) g.headers
        else g.headers;
  }

  -- `Write`
  unfoldable pub write : Bytes → GzipWriter → GzipWriter
  unfolding infer_type write_header write_body
  write b g = write_body b (if not g.wrote_header then write_header 200 (infer_type b g) else g)

  unfoldable pub act : Act → GzipWriter → GzipWriter
  unfolding write_header write flush_response
  act (setting_header k v) g = record g { headers = insert k v g.headers }
  act (writing_header status) g = write_header status g
  act (writing b) g = write b g
  act flushing g = flush_response g

  unfoldable pub run_handler : List Act → GzipWriter → GzipWriter
  unfolding act
  run_handler [] g = g
  run_handler (a ∷ rest) g = run_handler rest (act a g)

  -- `compress` around a handler, for a client that accepts gzip
  unfoldable pub serve : List Act → Headers → List Sent
  unfolding run_handler finish_gzip
  serve handler headers =
      (finish_gzip (
        run_handler handler (record {
          headers = headers;
          wrote_header = false;
          status = 0;
          gz = false;
          passing = false;
          committed = false;
          sent = [];
        }))).sent
