-- ===== src/Registry/Paging/RoundTrip.antt =====
-- internal/registry/client.go: `splitLinkHeader` and `parseLink` give back the links of a header.
use maze_registry_ui.Prelude.{
  ℕ, suc, ◌+◌, ◌-◌, List, [], ◌∷◌, ◌++◌, map, true, not, some, ◌==◌, length, take, drop, arith, ◌≡◌,
  refl, ap, ◌∙◌, append_assoc, append-nil, sym, length-append, inl,
}
use maze_registry_ui.Prelude.Assoc.{insert}
use maze_registry_ui.Prelude.Bytes.{Bytes, codes, bytes_eq_iff}
use maze_registry_ui.Prelude.Text.{
  split, split_from, cut, trim_space, trim_left, trim_right, is_space, to_lower, lower_byte,
}
use maze_registry_ui.Prelude.Regex.Shapes.{all_bytes, all_bytes-append, all_bytes_mono, and_intro}
use maze_registry_ui.Registry.Paging.{
  flush, scan_bytes, split_link_header, index_byte, last_byte, without_last, unquote, Params,
  add_param, add_params, parse_link,
}
use maze_registry_ui.Registry.Paging.Links.{
  print_link, print_links, target_byte, rel_byte, all_plain, trim_right_last, scan_links,
}

take-length : (t s : Bytes) → take (length t) (t ++ s) ≡ t
take-length [] s = refl
take-length (c ∷ t) s = ap (◌∷◌ c) (take-length t s)

drop_past : (t : Bytes) (c : ℕ) (s : Bytes) → drop (suc (length t)) (t ++ c ∷ s) ≡ s
drop_past [] c s = refl
drop_past (x ∷ t) c s = drop_past t c s

index_past :
    (t s : Bytes)
    → all_bytes target_byte t ≡ true
    → index_byte b'>' (t ++ b'>' ∷ s) ≡ some (length t)
unfolding index_byte target_byte all_bytes
index_past [] s h = refl
index_past (c ∷ t) s h = rw (index_past t s (ground (arith, h))) (ground (arith, h))

split_none :
    (sep : ℕ) (part s : Bytes)
    → all_bytes (λ c. not (c == sep)) s ≡ true
    → split_from sep part s ≡ (part ++ s) ∷ []
unfolding split_from all_bytes
split_none sep part [] h = ap (λ x. x ∷ []) (sym (append-nil part))
split_none sep part (c ∷ s) h =
    ground (arith, h, append_assoc part (c ∷ []) s, split_none sep (part ++ c ∷ []) s)

last_byte_lem : (s : Bytes) (c : ℕ) → last_byte (s ++ c ∷ []) ≡ c
unfolding last_byte
last_byte_lem [] c = refl
last_byte_lem (x ∷ []) c = refl
last_byte_lem (x ∷ y ∷ s) c = last_byte_lem (y ∷ s) c

without_last_lem : (s : Bytes) (c : ℕ) → without_last (s ++ c ∷ []) ≡ s
unfolding without_last
without_last_lem s c =
    ap (λ n. take n (s ++ c ∷ [])) (omega (arith, length-append s (c ∷ [])))
    ∙ take-length s (c ∷ [])

unquote_quoted : (r : Bytes) → unquote (b'"' ∷ (r ++ codes "\"")) ≡ r
unfolding unquote
unquote_quoted r =
    ground (arith, last_byte_lem r b'"', without_last_lem r b'"', length-append r (codes "\""))

rel_no_semicolon : (c : ℕ) → rel_byte c ≡ true → not (c == b';') ≡ true
unfolding rel_byte
rel_no_semicolon c h = ground arith

module _ (t r : Bytes) where
  abbrev printed_tail : Bytes
  printed_tail = codes " rel=\"" ++ r ++ codes "\""

  link_shape : print_link (t, r) ≡ b'<' ∷ (t ++ b'>' ∷ b';' ∷ printed_tail)
  link_shape = simp (append_assoc)

  trim_tail : trim_space printed_tail ≡ codes "rel=\"" ++ r ++ codes "\""
  unfolding trim_space trim_left is_space
  trim_tail = trim_right_last is_space (codes "rel=\"" ++ r) b'"' refl

  trim_value : trim_space (b'"' ∷ (r ++ codes "\"")) ≡ b'"' ∷ (r ++ codes "\"")
  unfolding trim_space trim_left is_space
  trim_value = trim_right_last is_space (b'"' ∷ r) b'"' refl

  trim_key : trim_space (codes "rel") ≡ codes "rel"
  unfolding trim_space trim_left trim_right is_space
  trim_key = refl

  add_rel : add_param printed_tail [] ≡ (codes "rel", r) ∷ []
  unfolding add_param cut insert to_lower lower_byte
  add_rel = rw (trim_tail, add_param, trim_key, trim_value, unquote_quoted r) refl

  no_semicolon : all_bytes rel_byte r ≡ true → all_bytes (λ c. not (c == b';')) printed_tail ≡ true
  unfolding all_bytes
  no_semicolon h =
      rw (all_bytes-append (λ c. not (c == b';')) r (codes "\""))
        (and_intro _ _ (all_bytes_mono rel_byte (λ c. not (c == b';')) rel_no_semicolon r h) refl)

  add_nothing : (params : Params) → add_param [] params ≡ params
  unfolding add_param cut trim_space trim_left trim_right
  add_nothing params = refl

  split_tail :
      all_bytes rel_byte r ≡ true → split b';' (b';' ∷ printed_tail) ≡ [] ∷ printed_tail ∷ []
  unfolding split split_from
  split_tail h = ap (λ x. [] ∷ x) (split_none b';' [] printed_tail (no_semicolon h))

  params_print :
      all_bytes rel_byte r ≡ true
      → add_params (split b';' (b';' ∷ printed_tail)) [] ≡ (codes "rel", r) ∷ []
  unfolding add_params
  params_print h = rw (split_tail h, add_nothing [], add_rel) refl

  slice_target : take (suc (length t) - (0 + 1)) (t ++ b'>' ∷ b';' ∷ printed_tail) ≡ t
  slice_target =
      ap (λ n. take n (t ++ b'>' ∷ b';' ∷ printed_tail)) (omega arith)
      ∙ take-length t (b'>' ∷ b';' ∷ printed_tail)

  slice_params :
      drop (suc (length t) + 1) (b'<' ∷ (t ++ b'>' ∷ b';' ∷ printed_tail)) ≡ b';' ∷ printed_tail
  slice_params =
      let e : suc (length t) + 1 ≡ suc (suc (length t)) = omega arith in
      ap (λ n. drop n (b'<' ∷ (t ++ b'>' ∷ b';' ∷ printed_tail))) e
      ∙ drop_past t b'>' (b';' ∷ printed_tail)

  parse_print :
      all_bytes target_byte t ≡ true
      → trim_space t ≡ t
      → all_bytes rel_byte r ≡ true
      → parse_link (print_link (t, r)) ≡ (t, (codes "rel", r) ∷ [])
  unfolding parse_link index_byte
  parse_print plain trimmed quoted =
      ap parse_link link_shape
      ∙ rw
          (
            index_past t (b';' ∷ printed_tail) plain,
            parse_link,
            slice_target,
            slice_params,
            trimmed,
            params_print quoted,
          )
          (ground arith)

-- what a reader of the header is to find
abbrev pub read_back : Bytes × Bytes → Bytes × Params
read_back (target, rel) = (target, (codes "rel", rel) ∷ [])

parse_prints :
    (ls : List (Bytes × Bytes))
    → all_plain ls ≡ true
    → map parse_link (map print_link ls) ≡ map read_back ls
unfolding all_plain
parse_prints [] h = refl
parse_prints ((t, r) ∷ ls) h =
    rw
      (
        parse_print t r (ground (arith, h)) ((bytes_eq_iff (trim_space t) t).0 (ground (arith, h)))
            (ground (arith, h)),
        parse_prints ls (ground (arith, h)),
      )
      refl

split_print :
    (ls : List (Bytes × Bytes))
    → all_plain ls ≡ true
    → split_link_header (print_links ls) ≡ map print_link ls
unfolding split_link_header
split_print [] h = unfold print_links scan_bytes flush trim_space trim_left trim_right in refl
split_print (l ∷ ls) h = scan_links ls l [] [] h (inl refl)

-- If links are printed as <target>; rel="relation" with a comma and a space between them, where
-- no target has a quote, an angle bracket or outer white space and no relation has a quote, a
-- backslash or a semicolon, splitLinkHeader and parseLink give back the targets and the
-- relations in order, commas inside them included.
pub split_link_header-parse_link :
    (ls : List (Bytes × Bytes))
    → all_plain ls ≡ true
    → map parse_link (split_link_header (print_links ls)) ≡ map read_back ls
split_link_header-parse_link ls h = ap (map parse_link) (split_print ls h) ∙ parse_prints ls h
