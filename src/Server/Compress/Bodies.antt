-- ===== src/Server/Compress/Bodies.antt =====
-- internal/server/compress.go: what the client gets of the body that a handler writes.
use maze_registry_ui.Prelude.{
  if_true, if_false, ℕ, ◌≡◌, refl, sym, ap, subst, ◌∙◌, List, [], ◌∷◌, ◌++◌, append-nil,
  append_assoc, Bool, not, Option, true, false, if◌then◌else◌, inl, inr, Bool-cases,
}
use maze_registry_ui.Prelude.Assoc.{insert}
use maze_registry_ui.Prelude.Bytes.{Bytes}
use maze_registry_ui.Prelude.Int.{ℤ}
use maze_registry_ui.Server.Compress.{
  Headers, Sent, sent_header, sent_bytes, gzip_write, gzip_flush, gzip_close, sent_flush,
  GzipWriter, encoded, commit, pass, encode, write_header, infer_type, write_body, write,
  flush_response, finish_gzip, Act, setting_header, writing_header, writing, flushing, act,
  run_handler, serve,
}
use maze_registry_ui.Server.Compress.Shape.{
  body_of, written, is_orderly, is_plain, is_coded, IsSplit, IsCoded, body_of-append,
}
use maze_registry_ui.Server.Compress.Phases.{Phase, waiting, opened, plain, coded, run-Phase}

-- a response: nothing at all, a body as it is, or a body in gzip whose stream is closed
pub data IsResponse (l : List Sent) : Type 0 where
  silent : l ≡ [] → IsResponse l
  as_is : (h : Headers) → IsSplit l is_plain h → IsResponse l
  in_gzip :
      (h : Headers) (stream : List Sent)
      → l ≡ stream ++ gzip_close ∷ []
      → IsCoded h
      → IsSplit stream is_coded h
      → IsResponse l

-- all branches leave the same body
same_body :
    (b : Bool) (x y : GzipWriter) (k : Bytes)
    → body_of x.sent ≡ k
    → body_of y.sent ≡ k
    → body_of (if b then x else y).sent ≡ k
same_body true x y k p q = p
same_body false x y k p q = q

body-commit : (g : GzipWriter) (st : ℕ) (h : Headers) → body_of (commit st h g) ≡ body_of g.sent
unfolding body_of commit
body-commit g st h = elim (Bool-cases g.committed) [
  | inl c ↦ rw c refl
  | inr c ↦ rw c (body_of-append g.sent (sent_header st h ∷ []) ∙ append-nil (body_of g.sent))
]

body-bytes :
    (l : List Sent) (b : Bytes) (p : Bool)
    → body_of (l ++ (if p then sent_bytes b else gzip_write b) ∷ []) ≡ body_of l ++ b
unfolding body_of
body-bytes l b true = body_of-append l (sent_bytes b ∷ []) ∙ ap (λ x. body_of l ++ x) (append-nil b)
body-bytes l b false =
    body_of-append l (gzip_write b ∷ []) ∙ ap (λ x. body_of l ++ x) (append-nil b)

body-flush :
    (l : List Sent) (z : Bool)
    → body_of (l ++ (if z then gzip_flush ∷ sent_flush ∷ [] else sent_flush ∷ [])) ≡ body_of l
unfolding body_of
body-flush l true = body_of-append l (gzip_flush ∷ sent_flush ∷ []) ∙ append-nil (body_of l)
body-flush l false = body_of-append l (sent_flush ∷ []) ∙ append-nil (body_of l)

body-close : (l : List Sent) → body_of (l ++ gzip_close ∷ []) ≡ body_of l
unfolding body_of
body-close l = body_of-append l (gzip_close ∷ []) ∙ append-nil (body_of l)

finish-IsResponse : (g : GzipWriter) → Phase g → IsResponse (finish_gzip g).sent
unfolding finish_gzip
finish-IsResponse g (waiting o z p c k) =
    subst (λ (x : GzipWriter). IsResponse x.sent) (sym (if_true (not g.gz) g _ (ap not z)))
      (silent k)
finish-IsResponse g (opened (plain h o z p c s)) =
    subst (λ (x : GzipWriter). IsResponse x.sent) (sym (if_true (not g.gz) g _ (ap not z)))
      (as_is h s)
finish-IsResponse g (opened (coded h o z p c t s)) =
    subst (λ (x : GzipWriter). IsResponse x.sent) (sym (if_false (not g.gz) g _ (ap not z)))
      (in_gzip h g.sent refl t s)

module _ (atoi : Bytes → Option ℤ) (detect : Bytes → Bytes) where
  write_header_body :
      (st : ℕ) (g : GzipWriter) → body_of (write_header atoi detect st g).sent ≡ body_of g.sent
  unfolding write_header pass encode
  write_header_body st g =
      let sent = body_of g.sent in
      let passed = body-commit g st g.headers in
      same_body g.wrote_header g _ sent refl (
        same_body _ (pass st g) _ sent passed (
          same_body _ (pass st g) (encode st g) sent passed (body-commit g st (encoded g.headers))))

  write_body_lem :
      (b : Bytes) (g : GzipWriter) → body_of (write atoi detect b g).sent ≡ body_of g.sent ++ b
  unfolding write write_body infer_type
  write_body_lem b g =
      let g' = infer_type atoi detect b g in
      let g'' = if not g.wrote_header then write_header atoi detect 200 g' else g in
      body-bytes g''.sent b g''.passing
      ∙ ap (λ x. x ++ b)
          (same_body (not g.wrote_header) (write_header atoi detect 200 g') g (body_of g.sent)
            (write_header_body 200 g') refl)

  run_body :
      (l : List Act) (g : GzipWriter)
      → body_of (run_handler atoi detect l g).sent ≡ body_of g.sent ++ written l
  unfolding run_handler act written flush_response
  run_body [] g = sym (append-nil (body_of g.sent))
  run_body (setting_header k v ∷ l) g = run_body l (record g { headers = insert k v g.headers })
  run_body (writing_header st ∷ l) g =
      run_body l (write_header atoi detect st g) ∙ ap (λ x. x ++ written l) (write_header_body st g)
  run_body (writing b ∷ l) g =
      run_body l (write atoi detect b g)
      ∙ ap (λ x. x ++ written l) (write_body_lem b g)
      ∙ append_assoc (body_of g.sent) b (written l)
  run_body (flushing ∷ l) g =
      run_body l (flush_response g)
      ∙ ap (λ x. x ++ written l)
          (body-flush (commit 200 g.headers g) g.gz ∙ body-commit g 200 g.headers)

  finish_body : (g : GzipWriter) → body_of (finish_gzip g).sent ≡ body_of g.sent
  unfolding finish_gzip
  finish_body g = same_body (not g.gz) g _ (body_of g.sent) refl (body-close g.sent)

  -- For a client that accepts gzip, and a handler that does not flush before its first write or
  -- WriteHeader, and whose WriteHeader, if that comes first, is of a status of at least 200,
  -- compress makes the writer below send nothing at all, or exactly one header first and after
  -- it a body: either every part of it as it is, or every part of it in gzip, the stream closed
  -- at the end and announced by a header that says Content-Encoding gzip and gives no Content-
  -- Length. With the compression undone the parts of the body are what the handler wrote.
  pub serve-IsResponse :
      (handler : List Act) (headers : Headers)
      → is_orderly handler ≡ true
      → IsResponse (serve atoi detect handler headers)
        × (body_of (serve atoi detect handler headers) ≡ written handler)
  unfolding serve body_of
  serve-IsResponse handler headers orderly =
      let fresh : GzipWriter = record {
        headers = headers;
        wrote_header = false;
        status = 0;
        gz = false;
        passing = false;
        committed = false;
        sent = [];
      } in
      let g = run_handler atoi detect handler fresh in
      (
        finish-IsResponse g (run-Phase atoi detect handler fresh refl refl refl refl refl orderly),
        finish_body g ∙ run_body handler fresh,
      )
