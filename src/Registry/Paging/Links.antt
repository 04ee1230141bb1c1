-- ===== src/Registry/Paging/Links.antt =====
-- internal/registry/client.go: `splitLinkHeader` and `parseLink` read what a registry prints.
use maze_registry_ui.Prelude.{
  ℕ, List, [], ◌∷◌, ◌++◌, map, Bool, ◌&&◌, ◌||◌, true, false, not, ◌==◌, if◌then◌else◌, arith, ◌≡◌,
  refl, ap, ◌∙◌, append_assoc, append-nil, ◌⊎◌, inl, inr,
}
use maze_registry_ui.Prelude.Bytes.{Bytes, codes, is_empty, bytes_eq}
use maze_registry_ui.Prelude.Text.{trim_space, trim_left, trim_right, is_space}
use maze_registry_ui.Prelude.Regex.Shapes.{all_bytes}
use maze_registry_ui.Registry.Paging.{LinkScan, flush, write_byte, scan_byte, scan_bytes}

-- `<target>; rel="rel"`
abbrev pub print_link : Bytes × Bytes → Bytes
print_link (target, rel) = b'<' ∷ (target ++ codes ">; rel=\"" ++ rel ++ codes "\"")

-- links with a comma and a space between them
unfoldable pub print_links : List (Bytes × Bytes) → Bytes
print_links [] = []
print_links (l ∷ ls) =
    let rest = print_links ls in
    elim ls [ [] ↦ print_link l | m ∷ ms ↦ print_link l ++ codes ", " ++ rest ]

unfoldable pub target_byte : ℕ → Bool
target_byte c = not (c == b'"' || c == b'<' || c == b'>')

unfoldable pub rel_byte : ℕ → Bool
rel_byte c = not (c == b'"' || c == b'\\' || c == b';')

-- A target without quotes, angle brackets and outer white space, and a relation without quotes,
-- backslashes and semicolons.
unfoldable pub all_plain : List (Bytes × Bytes) → Bool
unfolding target_byte rel_byte all_bytes
all_plain [] = true
all_plain ((target, rel) ∷ ls) =
    (all_bytes target_byte target && bytes_eq (trim_space target) target && all_bytes rel_byte rel)
    && all_plain ls

abbrev at : List Bytes → Bytes → Bool → Bool → LinkScan
at out current in_angle in_quotes = record {
  out = out;
  current = current;
  in_angle = in_angle;
  in_quotes = in_quotes;
  escaped = false;
}

scan_bytes-append :
    (s : LinkScan) (a b : Bytes) → scan_bytes s (a ++ b) ≡ scan_bytes (scan_bytes s a) b
unfolding scan_bytes
scan_bytes-append s [] b = refl
scan_bytes-append s (c ∷ a) b = scan_bytes-append (scan_byte s c) a b

module _ (o : List Bytes) where
  target_step :
      (cur : Bytes) (c : ℕ)
      → target_byte c ≡ true
      → scan_byte (at o cur true false) c ≡ at o (cur ++ c ∷ []) true false
  unfolding scan_byte write_byte target_byte
  target_step cur c h = ground arith

  rel_step :
      (cur : Bytes) (c : ℕ)
      → rel_byte c ≡ true
      → scan_byte (at o cur false true) c ≡ at o (cur ++ c ∷ []) false true
  unfolding scan_byte write_byte rel_byte
  rel_step cur c h = ground arith

  scan_target :
      (t cur : Bytes)
      → all_bytes target_byte t ≡ true
      → scan_bytes (at o cur true false) t ≡ at o (cur ++ t) true false
  unfolding scan_bytes all_bytes
  scan_target [] cur h = rw (append-nil cur) refl
  scan_target (c ∷ t) cur h =
      rw
        (
          target_step cur c (ground (arith, h)),
          scan_target t (cur ++ c ∷ []) (ground (arith, h)),
          append_assoc cur (c ∷ []) t,
        )
        refl

  scan_rel :
      (t cur : Bytes)
      → all_bytes rel_byte t ≡ true
      → scan_bytes (at o cur false true) t ≡ at o (cur ++ t) false true
  unfolding scan_bytes all_bytes
  scan_rel [] cur h = rw (append-nil cur) refl
  scan_rel (c ∷ t) cur h =
      rw
        (
          rel_step cur c (ground (arith, h)),
          scan_rel t (cur ++ c ∷ []) (ground (arith, h)),
          append_assoc cur (c ∷ []) t,
        )
        refl

  scan_middle :
      (cur : Bytes)
      → scan_bytes (at o cur true false) (codes ">; rel=\"")
        ≡ at o (cur ++ codes ">; rel=\"") false true
  unfolding scan_bytes scan_byte write_byte
  scan_middle cur = simp (append_assoc)

  scan_open :
      (cur s : Bytes)
      → scan_bytes (at o cur false false) (b'<' ∷ s)
        ≡ scan_bytes (at o (cur ++ b'<' ∷ []) true false) s
  unfolding scan_bytes scan_byte write_byte
  scan_open cur s = refl

  scan_close :
      (cur : Bytes)
      → scan_bytes (at o cur false true) (codes "\"") ≡ at o (cur ++ codes "\"") false false
  unfolding scan_bytes scan_byte write_byte
  scan_close cur = refl

  scan_link :
      (t r cur : Bytes)
      → all_bytes target_byte t ≡ true
      → all_bytes rel_byte r ≡ true
      → scan_bytes (at o cur false false) (print_link (t, r))
        ≡ at o (cur ++ print_link (t, r)) false false
  scan_link t r cur ht hr =
      let c₁ = cur ++ b'<' ∷ [] in
      let c₂ = c₁ ++ t in
      let c₃ = c₂ ++ codes ">; rel=\"" in
      scan_open cur (t ++ codes ">; rel=\"" ++ r ++ codes "\"")
      ∙ scan_bytes-append (at o c₁ true false) (t ++ codes ">; rel=\"" ++ r) (codes "\"")
      ∙ ap (λ x. scan_bytes x (codes "\""))
          (scan_bytes-append (at o c₁ true false) (t ++ codes ">; rel=\"") r
            ∙ ap (λ x. scan_bytes x r)
                (scan_bytes-append (at o c₁ true false) t (codes ">; rel=\"")
                  ∙ ap (λ x. scan_bytes x (codes ">; rel=\"")) (scan_target t c₁ ht)
                  ∙ scan_middle c₂)
            ∙ scan_rel r c₃ hr)
      ∙ scan_close (c₃ ++ r)
      ∙ ap (λ x. at o x false false) (simp (append_assoc))

shown :
    (b : Bool) (x : ℕ) (s : Bytes) (c : ℕ)
    → (if b && is_empty (s ++ c ∷ []) then [] else x ∷ (s ++ c ∷ [])) ≡ x ∷ (s ++ c ∷ [])
shown false x s c = refl
shown true x [] c = refl
shown true x (y ∷ s) c = refl

-- trimming stops at a byte that is no space
pub trim_right_last :
    (p : ℕ → Bool) (s : Bytes) (c : ℕ) → p c ≡ false → trim_right p (s ++ c ∷ []) ≡ s ++ c ∷ []
unfolding trim_right
trim_right_last p [] c h = rw h refl
trim_right_last p (x ∷ s) c h = rw (trim_right_last p s c h) (shown (p x) x s c)

module _ (t r : Bytes) where
  link_end : print_link (t, r) ≡ (b'<' ∷ (t ++ codes ">; rel=\"" ++ r)) ++ codes "\""
  link_end = refl

  trim_link : trim_space (print_link (t, r)) ≡ print_link (t, r)
  unfolding trim_space trim_left is_space
  trim_link =
      rw link_end (trim_right_last is_space (b'<' ∷ (t ++ codes ">; rel=\"" ++ r)) b'"' refl)

  trim_padded : trim_space (b' ' ∷ print_link (t, r)) ≡ print_link (t, r)
  unfolding trim_space trim_left is_space
  trim_padded = trim_link

  link_scanned :
      (o : List Bytes) (cur : Bytes) (a q : Bool)
      → ((cur ≡ print_link (t, r)) ⊎ (cur ≡ b' ' ∷ print_link (t, r)))
      → flush (at o cur a q) ≡ at (o ++ print_link (t, r) ∷ []) [] a q
  unfolding flush
  link_scanned o cur a q (inl e) = rw (e, trim_link) refl
  link_scanned o cur a q (inr e) = rw (e, trim_padded) refl

  comma_step :
      (o : List Bytes) (cur : Bytes)
      → scan_bytes (at o cur false false) (codes ", ")
        ≡ scan_byte (flush (at o cur false false)) b' '
  unfolding scan_bytes scan_byte
  comma_step o cur = refl

  space_step :
      (o : List Bytes) → scan_byte (at o [] false false) b' ' ≡ at o (codes " ") false false
  unfolding scan_byte write_byte
  space_step o = refl

  scan_comma :
      (o : List Bytes) (cur : Bytes)
      → ((cur ≡ print_link (t, r)) ⊎ (cur ≡ b' ' ∷ print_link (t, r)))
      → scan_bytes (at o cur false false) (codes ", ")
        ≡ at (o ++ print_link (t, r) ∷ []) (codes " ") false false
  scan_comma o cur e =
      comma_step o cur
      ∙ ap (λ x. scan_byte x b' ') (link_scanned o cur false false e)
      ∙ space_step (o ++ print_link (t, r) ∷ [])

padded : (cur l : Bytes) → (cur ≡ []) ⊎ (cur ≡ codes " ") → (cur ++ l ≡ l) ⊎ (cur ++ l ≡ b' ' ∷ l)
padded cur l (inl e) = inl (rw e refl)
padded cur l (inr e) = inr (rw e refl)

pub scan_links :
    (ls : List (Bytes × Bytes)) (l : Bytes × Bytes) (o : List Bytes) (cur : Bytes)
    → all_plain (l ∷ ls) ≡ true
    → (cur ≡ []) ⊎ (cur ≡ codes " ")
    → (flush (scan_bytes (at o cur false false) (print_links (l ∷ ls)))).out
      ≡ o ++ map print_link (l ∷ ls)
unfolding print_links all_plain
scan_links [] (t, r) o cur h pad =
    ap (λ x. (flush x).out) (scan_link o t r cur (ground (arith, h)) (ground (arith, h)))
    ∙ ap (λ (x : LinkScan). x.out)
        (link_scanned t r o (cur ++ print_link (t, r)) false false
          (padded cur (print_link (t, r)) pad))
scan_links (m ∷ ms) (t, r) o cur h pad =
    let rest = print_links (m ∷ ms) in
    let p = print_link (t, r) in
    ap (λ x. (flush x).out)
      (scan_bytes-append (at o cur false false) (p ++ codes ", ") rest
        ∙ ap (λ x. scan_bytes x rest)
            (scan_bytes-append (at o cur false false) p (codes ", ")
              ∙ ap (λ x. scan_bytes x (codes ", "))
                  (scan_link o t r cur (ground (arith, h)) (ground (arith, h)))
              ∙ scan_comma t r o (cur ++ p) (padded cur p pad)))
    ∙ scan_links ms m (o ++ p ∷ []) (codes " ") (ground (arith, h)) (inr refl)
    ∙ append_assoc o (p ∷ []) (map print_link (m ∷ ms))
