-- ===== src/Server/Compress/Shape.antt =====
-- internal/server/compress.go: what stands in the calls that the response writer below receives.
use maze_registry_ui.Prelude.{
  ℕ, ◌≡◌, refl, sym, List, [], ◌∷◌, ◌++◌, append_assoc, Bool, ◌&&◌, leb, none, some, true, false,
  arith,
}
use maze_registry_ui.Prelude.Assoc.{lookup}
use maze_registry_ui.Prelude.Bytes.{Bytes, codes}
use maze_registry_ui.Server.Compress.{
  Headers, Sent, sent_header, sent_bytes, gzip_write, gzip_flush, gzip_close, sent_flush, Act,
  setting_header, writing_header, writing, flushing, GzipWriter, commit,
}

-- the bytes of the body, once a reader has undone the compression
unfoldable pub body_of : List Sent → Bytes
body_of [] = []
body_of (sent_bytes b ∷ l) = b ++ body_of l
body_of (gzip_write b ∷ l) = b ++ body_of l
body_of (_ ∷ l) = body_of l

-- The first call that reaches the writer below is no flush, nor a header of status 1xx, which only
-- informs.
unfoldable pub is_orderly : List Act → Bool
is_orderly [] = true
is_orderly (setting_header k v ∷ l) = is_orderly l
is_orderly (writing_header st ∷ l) = leb 200 st
is_orderly (writing b ∷ l) = true
is_orderly (flushing ∷ l) = false

-- the bytes that a handler writes
unfoldable pub written : List Act → Bytes
written [] = []
written (writing b ∷ l) = b ++ written l
written (_ ∷ l) = written l

unfoldable pub all_sent : (Sent → Bool) → List Sent → Bool
all_sent p [] = true
all_sent p (x ∷ l) = p x && all_sent p l

unfoldable pub is_plain : Sent → Bool
is_plain sent_flush = true
is_plain (sent_bytes b) = true
is_plain _ = false

unfoldable pub is_coded : Sent → Bool
is_coded sent_flush = true
is_coded gzip_flush = true
is_coded (gzip_write b) = true
is_coded _ = false

-- one header, and after it only what `rest` admits
pub record IsSplit (l : List Sent) (rest : Sent → Bool) (h : Headers) : Type 0 where
  pub status : ℕ
  pub after : List Sent
  pub parts : l ≡ sent_header status h ∷ after
  pub admitted : all_sent rest after ≡ true

-- the header tells of gzip, and of no length
abbrev pub IsCoded : Headers → Type 0
IsCoded h =
    (lookup (codes "Content-Encoding") h ≡ some (codes "gzip"))
    × (lookup (codes "Content-Length") h ≡ none)

pub all_sent-append :
    (p : Sent → Bool) (a b : List Sent) → all_sent p (a ++ b) ≡ (all_sent p a && all_sent p b)
unfolding all_sent
all_sent-append p [] b = refl
all_sent-append p (x ∷ a) b = ground (arith, all_sent-append p a b)

pub body_of-append : (a b : List Sent) → body_of (a ++ b) ≡ body_of a ++ body_of b
unfolding body_of
body_of-append [] b = refl
body_of-append (sent_header st h ∷ a) b = body_of-append a b
body_of-append (sent_bytes c ∷ a) b =
    rw (body_of-append a b) (sym (append_assoc c (body_of a) (body_of b)))
body_of-append (gzip_write c ∷ a) b =
    rw (body_of-append a b) (sym (append_assoc c (body_of a) (body_of b)))
body_of-append (gzip_flush ∷ a) b = body_of-append a b
body_of-append (gzip_close ∷ a) b = body_of-append a b
body_of-append (sent_flush ∷ a) b = body_of-append a b

-- more events after the header
pub grow :
    (l more : List Sent) (rest : Sent → Bool) (h : Headers)
    → IsSplit l rest h
    → all_sent rest more ≡ true
    → IsSplit (l ++ more) rest h
grow l more rest h s k = record {
  status = s.status;
  after = s.after ++ more;
  parts = rw s.parts refl;
  admitted = rw (all_sent-append rest s.after more, s.admitted) k;
}

-- the header goes out
pub open-IsSplit :
    (g : GzipWriter) (rest : Sent → Bool) (st : ℕ) (h : Headers)
    → g.committed ≡ false
    → g.sent ≡ []
    → IsSplit (commit st h g) rest h
unfolding all_sent commit
open-IsSplit g rest st h c k = record {
  status = st;
  after = [];
  parts = rw (c, k) refl;
  admitted = refl;
}
