-- ===== src/Config/Expand/Pieces.antt =====
-- internal/config/config.go: `expandString` on a text that is put together from plain parts and
-- references.
use maze_registry_ui.Prelude.{
  ℕ, ◌-◌, ◌≡◌, refl, ap, ◌∙◌, List, [], ◌∷◌, ◌++◌, Bool, true, false, ◌&&◌, not, Option, none, some,
  ◌==◌, length, arith, append_assoc,
}
use maze_registry_ui.Prelude.Bytes.{Bytes, codes}
use maze_registry_ui.Prelude.Text.{contains, has_prefix, cut}
use maze_registry_ui.Prelude.Regex.Shapes.{all_bytes, all_bytes-append, all_bytes_mono}
use maze_registry_ui.Config.Expand.{
  is_name_start, is_name_char, Reference, name_chars, match_ref, replace_ref, expand_from,
  expand_string,
}

-- a part of a text: plain bytes, or a reference with its fallback, if it has one
pub data Piece : Type 0 where
  plain : Bytes → Piece
  reference : Bytes → Option Bytes → Piece

abbrev pub print_piece : Piece → Bytes
print_piece (plain s) = s
print_piece (reference name none) = codes "${" ++ (name ++ codes "}")
print_piece (reference name (some f)) = codes "${" ++ (name ++ (codes ":-" ++ (f ++ codes "}")))

abbrev pub print_pieces : List Piece → Bytes
print_pieces [] = []
print_pieces (p ∷ ps) = print_piece p ++ print_pieces ps

abbrev pub is_name : Bytes → Bool
is_name [] = false
is_name (c ∷ s) = is_name_start c && all_bytes is_name_char s

abbrev pub is_not : ℕ → ℕ → Bool
is_not b c = not (c == b)

-- Plain parts have no dollar sign, names are identifiers, and fallbacks have no closing brace.
abbrev pub is_piece : Piece → Bool
is_piece (plain s) = all_bytes (is_not b'$') s
is_piece (reference name none) = is_name name
is_piece (reference name (some f)) = is_name name && all_bytes (is_not b'}') f

abbrev pub are_pieces : List Piece → Bool
are_pieces [] = true
are_pieces (p ∷ ps) = is_piece p && are_pieces ps

-- what a part stands for, and the name that it leaves unset
abbrev pub meaning : (Bytes → Option Bytes) → Piece → Bytes × List Bytes
meaning env (plain s) = (s, [])
meaning env (reference name fallback) = elim (env name) [
  | some v ↦ (v, [])
  | none ↦ elim fallback [ none ↦ ([], name ∷ []) | some f ↦ (f, []) ]
]

abbrev pub meanings : (Bytes → Option Bytes) → List Piece → Bytes × List Bytes
meanings env [] = ([], [])
meanings env (p ∷ ps) =
    let (value, lost) = meaning env p in
    let (values, missing) = meanings env ps in (value ++ values, lost ++ missing)

expand_from-append :
    (env : Bytes → Option Bytes) (xs ys : Bytes)
    → expand_from env (length xs) (xs ++ ys) ≡ expand_from env 0 ys
unfolding expand_from
expand_from-append env [] ys = refl
expand_from-append env (x ∷ xs) ys = expand_from-append env xs ys

name_chars-append :
    (name : Bytes) (c : ℕ) (ys : Bytes)
    → all_bytes is_name_char name ≡ true
    → is_name_char c ≡ false
    → name_chars (name ++ c ∷ ys) ≡ (name, c ∷ ys)
unfolding name_chars all_bytes
name_chars-append [] c ys h k = ground arith
name_chars-append (x ∷ name) c ys h k = ground (arith, name_chars-append name c ys)

cut-append :
    (f : Bytes) (ys : Bytes)
    → all_bytes (is_not b'}') f ≡ true
    → cut b'}' (f ++ b'}' ∷ ys) ≡ some (f, ys)
unfolding cut all_bytes
cut-append [] ys h = refl
cut-append (x ∷ f) ys h = ground (arith, cut-append f ys)

contains-no_colon : (s : Bytes) → all_bytes (is_not b':') s ≡ true → contains (codes ":-") s ≡ false
unfolding contains has_prefix all_bytes
contains-no_colon [] h = refl
contains-no_colon (c ∷ s) h = ground (arith, contains-no_colon s)

contains_colon : (xs ys : Bytes) → contains (codes ":-") (xs ++ (codes ":-" ++ ys)) ≡ true
unfolding contains has_prefix
contains_colon [] ys = refl
contains_colon (c ∷ xs) ys = ground (arith, contains_colon xs ys)

-- a reference without a fallback is matched, and so is one with a fallback
match_ref_bare :
    (name ys : Bytes)
    → is_name name ≡ true
    → match_ref (codes "${" ++ (name ++ (codes "}" ++ ys)))
      ≡ some record { text = codes "${" ++ (name ++ codes "}"); name = name; fallback = [] }
unfolding match_ref all_bytes
match_ref_bare [] ys h = cc
match_ref_bare (c ∷ name) ys h = ground (arith, name_chars-append name b'}' ys)

match_ref_fallback :
    (name f ys : Bytes)
    → is_name name ≡ true
    → all_bytes (is_not b'}') f ≡ true
    → match_ref (codes "${" ++ (name ++ (codes ":-" ++ (f ++ (codes "}" ++ ys)))))
      ≡ some record {
        text = codes "${" ++ (name ++ (codes ":-" ++ (f ++ codes "}")));
        name = name;
        fallback = f;
      }
unfolding match_ref
match_ref_fallback [] f ys h k = cc
match_ref_fallback (c ∷ name) f ys h k =
    ground (arith, name_chars-append name b':' (b'-' ∷ (f ++ (codes "}" ++ ys))), cut-append f ys)

is_name-no_colon : (name : Bytes) → is_name name ≡ true → all_bytes (is_not b':') name ≡ true
unfolding all_bytes
is_name-no_colon [] h = refl
is_name-no_colon (c ∷ s) h =
    ground (arith, all_bytes_mono is_name_char (is_not b':') (λ d k. ground arith) s)

-- the text of a match has a colon and a dash exactly if it has a fallback
replace_bare :
    (env : Bytes → Option Bytes) (name : Bytes)
    → is_name name ≡ true
    → replace_ref env
        (record { text = codes "${" ++ (name ++ codes "}"); name = name; fallback = [] })
      ≡ meaning env (reference name none)
unfolding replace_ref all_bytes
replace_bare env name h =
    let text = codes "${" ++ (name ++ codes "}") in
    ground (
      arith,
      contains-no_colon text,
      all_bytes-append (is_not b':') name (codes "}"),
      is_name-no_colon name,
    )

replace_fallback :
    (env : Bytes → Option Bytes) (name f : Bytes)
    → replace_ref env (record {
      text = codes "${" ++ (name ++ (codes ":-" ++ (f ++ codes "}")));
      name = name;
      fallback = f;
    })
      ≡ meaning env (reference name (some f))
unfolding replace_ref
replace_fallback env name f = ground (arith, contains_colon (codes "${" ++ name) (f ++ codes "}"))

-- what an expansion makes of a text whose first part has been replaced
abbrev after : Bytes × List Bytes → Bytes × List Bytes → Bytes × List Bytes
after (value, lost) (out, missing) = (value ++ out, lost ++ missing)

expand_match :
    (env : Bytes → Option Bytes) (c : ℕ) (s ys : Bytes) (m : Reference)
    → match_ref (c ∷ (s ++ ys)) ≡ some m
    → m.text ≡ c ∷ s
    → expand_from env 0 (c ∷ (s ++ ys)) ≡ after (replace_ref env m) (expand_from env 0 ys)
unfolding expand_from
expand_match env c s ys m h e =
    let k : length m.text - 1 ≡ length s = ap (λ t. length t - 1) e ∙ omega arith in
    rw (h, expand_from) (rw (k, expand_from-append env s ys) refl)

expand_plain :
    (env : Bytes → Option Bytes) (s ys : Bytes)
    → all_bytes (is_not b'$') s ≡ true
    → expand_from env 0 (s ++ ys) ≡ after (s, []) (expand_from env 0 ys)
unfolding expand_from match_ref all_bytes
expand_plain env [] ys h = refl
expand_plain env (c ∷ s) ys h = ground (arith, expand_plain env s ys)

expand_piece :
    (env : Bytes → Option Bytes) (p : Piece) (ys : Bytes)
    → is_piece p ≡ true
    → expand_from env 0 (print_piece p ++ ys) ≡ after (meaning env p) (expand_from env 0 ys)
expand_piece env (plain s) ys h = expand_plain env s ys h
expand_piece env (reference name none) ys h =
    expand_match env b'$' (b'{' ∷ (name ++ codes "}")) ys _
      (rw (append_assoc name (codes "}") ys) (match_ref_bare name ys h)) refl
    ∙ ap (λ r. after r (expand_from env 0 ys)) (replace_bare env name h)
expand_piece env (reference name (some f)) ys h =
    let name_ok : is_name name ≡ true = ground arith in
    let f_ok : all_bytes (is_not b'}') f ≡ true = ground arith in
    expand_match env b'$' (b'{' ∷ (name ++ (codes ":-" ++ (f ++ codes "}")))) ys _
      (rw (append_assoc name (codes ":-" ++ (f ++ codes "}")) ys, append_assoc f (codes "}") ys)
        (match_ref_fallback name f ys name_ok f_ok))
      refl
    ∙ ap (λ r. after r (expand_from env 0 ys)) (replace_fallback env name f)

-- expandString of a text that is put together from plain pieces without a dollar sign,
-- references ${NAME} and references ${NAME:-fallback} with no closing brace in the fallback
-- gives, one after another, the plain pieces, the values of the variables that are set, the
-- fallbacks of those that are not, and nothing for a reference without a fallback whose variable
-- is not set; the names of the latter, in their order, are what it adds to the missing ones.
pub expand_string-print_pieces :
    (env : Bytes → Option Bytes) (ps : List Piece)
    → are_pieces ps ≡ true
    → expand_string env (print_pieces ps) ≡ meanings env ps
unfolding expand_string
expand_string-print_pieces env [] h = refl
expand_string-print_pieces env (p ∷ ps) h =
    ground (arith, expand_piece env p (print_pieces ps), expand_string-print_pieces env ps)
