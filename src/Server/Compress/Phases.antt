-- ===== src/Server/Compress/Phases.antt =====
-- internal/server/compress.go: the phases of `gzipResponseWriter`, which every call keeps.
use maze_registry_ui.Prelude.{
  if_true, if_false, ℕ, ◌≡◌, refl, sym, ap, subst, ◌∙◌, List, [], ◌∷◌, ◌++◌, arith, Bool, not,
  Option, true, false, if◌then◌else◌,
}
use maze_registry_ui.Prelude.Assoc.{insert, remove, lookup-insert, lookup-remove}
use maze_registry_ui.Prelude.Bytes.{Bytes, codes, bytes_eq, bytes_eq_refl}
use maze_registry_ui.Prelude.Int.{ℤ}
use maze_registry_ui.Server.Compress.{
  Headers, Sent, sent_bytes, gzip_write, gzip_flush, sent_flush, GzipWriter, encoded, commit, pass,
  encode, write_header, infer_type, write_body, write, flush_response, Act, setting_header,
  writing_header, writing, flushing, act, run_handler,
}
use maze_registry_ui.Server.Compress.Shape.{
  all_sent, is_plain, is_coded, IsSplit, IsCoded, grow, is_orderly, open-IsSplit,
}

-- the writer once the header is out
pub data Opened (g : GzipWriter) : Type 0 where
  plain :
      (h : Headers)
      → g.wrote_header ≡ true
      → g.gz ≡ false
      → g.passing ≡ true
      → g.committed ≡ true
      → IsSplit g.sent is_plain h
      → Opened g
  coded :
      (h : Headers)
      → g.wrote_header ≡ true
      → g.gz ≡ true
      → g.passing ≡ false
      → g.committed ≡ true
      → IsCoded h
      → IsSplit g.sent is_coded h
      → Opened g

-- where the writer stands
pub data Phase (g : GzipWriter) : Type 0 where
  waiting :
      g.wrote_header ≡ false
      → g.gz ≡ false
      → g.passing ≡ false
      → g.committed ≡ false
      → g.sent ≡ []
      → Phase g
  opened : Opened g → Phase g

other_name : bytes_eq (codes "Content-Encoding") (codes "Content-Length") ≡ false
unfolding bytes_eq
other_name = refl

encoded-IsCoded : (h : Headers) → IsCoded (encoded h)
encoded-IsCoded h =
    let ce = codes "Content-Encoding" in
    let cl = codes "Content-Length" in
    (
      lookup-insert ce ce (codes "gzip") (remove cl h) ∙ rw (bytes_eq_refl ce) refl,
      lookup-insert ce cl (codes "gzip") (remove cl h)
          ∙ rw other_name (lookup-remove cl cl h ∙ rw (bytes_eq_refl cl) refl),
    )

pass-Opened :
    (st : ℕ) (g : GzipWriter)
    → g.gz ≡ false
    → g.committed ≡ false
    → g.sent ≡ []
    → Opened (pass st g)
unfolding pass
pass-Opened st g off c k =
    plain g.headers refl off refl refl (open-IsSplit g is_plain st g.headers c k)

encode-Opened :
    (st : ℕ) (g : GzipWriter)
    → g.passing ≡ false
    → g.committed ≡ false
    → g.sent ≡ []
    → Opened (encode st g)
unfolding encode
encode-Opened st g off c k =
    coded (encoded g.headers) refl refl off refl (encoded-IsCoded g.headers)
      (open-IsSplit g is_coded st (encoded g.headers) c k)

choose {ℓ} : {A : Type 0} (P : A → Type ℓ) (b : Bool) (x y : A) → P x → P y → P (if b then x else y)
choose P true x y p q = p
choose P false x y p q = q

admits_plain :
    (b : Bytes) (p : Bool)
    → p ≡ true
    → all_sent is_plain ((if p then sent_bytes b else gzip_write b) ∷ []) ≡ true
unfolding all_sent is_plain
admits_plain b p h = rw h refl

admits_coded :
    (b : Bytes) (p : Bool)
    → p ≡ false
    → all_sent is_coded ((if p then sent_bytes b else gzip_write b) ∷ []) ≡ true
unfolding all_sent is_coded
admits_coded b p h = rw h refl

write_body-Opened : (b : Bytes) (g : GzipWriter) → Opened g → Opened (write_body b g)
unfolding write_body
write_body-Opened b g (plain h o z p c s) =
    plain h o z p c (grow g.sent _ is_plain h s (admits_plain b g.passing p))
write_body-Opened b g (coded h o z p c t s) =
    coded h o z p c t (grow g.sent _ is_coded h s (admits_coded b g.passing p))

-- what `Flush` sends
abbrev flush_events : Bool → List Sent
flush_events gz = if gz then gzip_flush ∷ sent_flush ∷ [] else sent_flush ∷ []

flush_plain : (z : Bool) → z ≡ false → all_sent is_plain (flush_events z) ≡ true
unfolding all_sent is_plain
flush_plain z h = rw h refl

flush_coded : (z : Bool) → all_sent is_coded (flush_events z) ≡ true
unfolding all_sent is_coded
flush_coded true = refl
flush_coded false = refl

-- once a header is out no other goes out
commit_same : (st : ℕ) (h : Headers) (g : GzipWriter) → g.committed ≡ true → commit st h g ≡ g.sent
unfolding commit
commit_same st h g c = if_true g.committed g.sent _ c

flush-Opened : (g : GzipWriter) → Opened g → Opened (flush_response g)
unfolding flush_response
flush-Opened g (plain h o z p c s) = plain h o z p refl (
    subst (λ (l : List Sent). IsSplit (l ++ flush_events g.gz) is_plain h)
      (sym (commit_same 200 g.headers g c)) (grow g.sent _ is_plain h s (flush_plain g.gz z)))
flush-Opened g (coded h o z p c t s) = coded h o z p refl t (
    subst (λ (l : List Sent). IsSplit (l ++ flush_events g.gz) is_coded h)
      (sym (commit_same 200 g.headers g c)) (grow g.sent _ is_coded h s (flush_coded g.gz)))

Opened-wrote : (g : GzipWriter) → Opened g → g.wrote_header ≡ true
Opened-wrote g (plain h o z p c s) = o
Opened-wrote g (coded h o z p c t s) = o

module _ (atoi : Bytes → Option ℤ) (detect : Bytes → Bytes) where
  write_header_opens :
      (st : ℕ) (g : GzipWriter)
      → g.wrote_header ≡ false
      → g.gz ≡ false
      → g.passing ≡ false
      → g.committed ≡ false
      → g.sent ≡ []
      → Opened (write_header atoi detect st g)
  unfolding write_header
  write_header_opens st g o z p c k =
      let passed = pass-Opened st g z c k in
      subst Opened (sym (if_false g.wrote_header g _ o)) (
        choose Opened _ (pass st g) _ passed
          (choose Opened _ (pass st g) (encode st g) passed (encode-Opened st g p c k)))

  write_header_same :
      (st : ℕ) (g : GzipWriter) → g.wrote_header ≡ true → write_header atoi detect st g ≡ g
  unfolding write_header
  write_header_same st g o = if_true g.wrote_header g _ o

  write-Opened : (b : Bytes) (g : GzipWriter) → Phase g → Opened (write atoi detect b g)
  unfolding write infer_type
  write-Opened b g (waiting o z p c k) =
      let g' = infer_type atoi detect b g in
      write_body-Opened b _ (
        subst Opened
          (sym (if_true (not g.wrote_header) (write_header atoi detect 200 g') g (ap not o)))
          (write_header_opens 200 g' o z p c k))
  write-Opened b g (opened w) =
      let g' = infer_type atoi detect b g in
      write_body-Opened b _ (
        subst Opened
          (sym (
            if_false (not g.wrote_header) (write_header atoi detect 200 g') g
              (ap not (Opened-wrote g w))))
          w)

  write_header-Opened :
      (st : ℕ) (g : GzipWriter) → Opened g → Opened (write_header atoi detect st g)
  write_header-Opened st g w = subst Opened (sym (write_header_same st g (Opened-wrote g w))) w

  set_header-Opened : (h : Headers) (g : GzipWriter) → Opened g → Opened (record g { headers = h })
  set_header-Opened h g (plain j o z p c s) = plain j o z p c s
  set_header-Opened h g (coded j o z p c t s) = coded j o z p c t s

  run-Opened : (l : List Act) (g : GzipWriter) → Opened g → Opened (run_handler atoi detect l g)
  unfolding run_handler act
  run-Opened [] g w = w
  run-Opened (setting_header k v ∷ l) g w =
      run-Opened l _ (set_header-Opened (insert k v g.headers) g w)
  run-Opened (writing_header st ∷ l) g w = run-Opened l _ (write_header-Opened st g w)
  run-Opened (writing b ∷ l) g w = run-Opened l _ (write-Opened b g (opened w))
  run-Opened (flushing ∷ l) g w = run-Opened l _ (flush-Opened g w)

  pub run-Phase :
      (l : List Act) (g : GzipWriter)
      → g.wrote_header ≡ false
      → g.gz ≡ false
      → g.passing ≡ false
      → g.committed ≡ false
      → g.sent ≡ []
      → is_orderly l ≡ true
      → Phase (run_handler atoi detect l g)
  unfolding run_handler act is_orderly
  run-Phase [] g o z p c k ok = waiting o z p c k
  run-Phase (setting_header key v ∷ l) g o z p c k ok = run-Phase l _ o z p c k ok
  run-Phase (writing_header st ∷ l) g o z p c k ok =
      opened (run-Opened l _ (write_header_opens st g o z p c k))
  run-Phase (writing b ∷ l) g o z p c k ok =
      opened (run-Opened l _ (write-Opened b g (waiting o z p c k)))
  run-Phase (flushing ∷ l) g o z p c k ok = absurd (ground (arith, ok))
