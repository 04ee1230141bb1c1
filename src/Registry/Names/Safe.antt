-- ===== src/Registry/Names/Safe.antt =====
-- internal/registry/client.go: what the validators let through.
use mathlib.Core.List.{Mem, mem-cons_self, not-mem-nil, forall_mem-cons}
use maze_registry_ui.Prelude.{
  ℕ, ◌≤◌, ◌≡◌, ◌≢◌, ◌⊎◌, ◌↔◌, inl, inr, refl, ap, sym, ◌∙◌, List, [], ◌∷◌, ◌++◌, Bool, true, false,
  ◌||◌, arith, length, ◌==◌, Bool-cases, subst, append-nil, append_assoc, ltb,
}
use maze_registry_ui.Prelude.Bytes.{Bytes, codes}
use maze_registry_ui.Prelude.Text.{split_from, split}
use maze_registry_ui.Prelude.Regex.{chars, in_class, accepts, star, up_to}
use maze_registry_ui.Prelude.Regex.Meaning.{Means, both, matches_iff}
use maze_registry_ui.Prelude.Regex.Shapes.{
  all_bytes, all_bytes_mono, all_bytes-append, and_intro, occurs, Means-occurs, Means-literal,
  Means-step, step-Means, Means-times, times-Means, Means-up_to, up_to-Means,
}
use maze_registry_ui.Registry.Names.{
  valid, lower_alnum, repo_component_pattern, tag_pattern, digest_pattern, word_ranges, tag_ranges,
  hex_ranges, check_components, validate_repository, is_digest, validate_reference,
}

-- isDigest accepts exactly the texts that are "sha256:" and 64 hexadecimal digits in lower case.
pub is_digest_iff :
    (s : Bytes)
    → (is_digest s ≡ true) ↔ (
        (hex : Bytes) × (s ≡ codes "sha256:" ++ hex)
        × (length hex ≡ 64)
        × (all_bytes (in_class hex_ranges) hex ≡ true))
unfolding is_digest
is_digest_iff s = (
  λ h. elim ((matches_iff digest_pattern s).0 h) [
    | both a b m n e ↦
        let (k, all) = Means-times 64 hex_ranges b n in
        (b, e ∙ ap (λ x. x ++ b) ((Means-literal (codes "sha256:") a).0 m), k, all)
  ],
  λ d.
      let (hex, e, k, all) = d in
      (matches_iff digest_pattern s).1 (
        both (codes "sha256:") hex ((Means-literal (codes "sha256:") (codes "sha256:")).1 refl)
          (times-Means 64 hex_ranges hex k all) e),
)

-- a tag: a letter, a digit or an underscore, and up to 127 of these, dots and dashes
abbrev pub IsTag : Bytes → Type 0
IsTag s =
    (c : ℕ) × (t : Bytes) × (s ≡ c ∷ t)
    × (in_class word_ranges c ≡ true)
    × (length t ≤ 127)
    × (all_bytes (in_class tag_ranges) t ≡ true)

abbrev pub IsDigestText : Bytes → Type 0
IsDigestText s =
    (hex : Bytes) × (s ≡ codes "sha256:" ++ hex)
    × (length hex ≡ 64)
    × (all_bytes (in_class hex_ranges) hex ≡ true)

accepts-IsTag : (s : Bytes) → accepts tag_pattern s ≡ true → IsTag s
accepts-IsTag s h =
    let (c, t, e, first, rest) =
      Means-step (up_to 127 (chars tag_ranges)) word_ranges s ((matches_iff tag_pattern s).0 h) in
    let (k, all) = Means-up_to 127 tag_ranges t rest in (c, t, e, first, k, all)

IsTag-accepts : (s : Bytes) → IsTag s → accepts tag_pattern s ≡ true
IsTag-accepts s (c, t, e, first, k, all) = rw e (
    (matches_iff tag_pattern (c ∷ t)).1 (
      step-Means (up_to 127 (chars tag_ranges)) word_ranges c t first
        (up_to-Means 127 tag_ranges t k all)))

-- validateReference accepts a text if and only if it is "sha256:" and 64 hexadecimal digits in
-- lower case, or a letter, a digit or an underscore that at most 127 letters, digits, dots,
-- underscores and dashes follow.
pub validate_reference_iff :
    (ref : Bytes) → (validate_reference ref ≡ valid) ↔ (IsDigestText ref ⊎ IsTag ref)
unfolding validate_reference
validate_reference_iff [] =
    (λ h. cc, λ d. elim d [ inl (hex, e, k, all) ↦ cc | inr (c, t, e, first, k, all) ↦ cc ])
validate_reference_iff (x ∷ s) = (
  λ h. elim (Bool-cases (is_digest (x ∷ s))) [
    | inl digest ↦ inl ((is_digest_iff (x ∷ s)).0 digest)
    | inr other ↦ inr (accepts-IsTag (x ∷ s) (ground (arith, h, other)))
  ],
  λ d. elim d [
    | inl digest ↦ rw ((is_digest_iff (x ∷ s)).1 digest) refl
    | inr tag ↦ rw (IsTag-accepts (x ∷ s) tag) (ground arith)
  ],
)

-- the bytes of a repository name
abbrev pub name_ranges : List (ℕ × ℕ)
name_ranges = (b'a', b'z') ∷ (b'0', b'9') ∷ (b'.', b'.') ∷ (b'_', b'_') ∷ (b'-', b'-') ∷ []

abbrev pub path_byte : ℕ → Bool
path_byte c = in_class name_ranges c || c == b'/'

-- What may stand in the path of a URL as it is: no byte that a URL treats specially but the slash,
-- and no part between slashes that is empty or a dot segment.
pub record IsSafePath (repo : Bytes) : Type 0 where
  pub not_empty : repo ≢ []
  pub short : length repo ≤ 255
  pub plain : all_bytes path_byte repo ≡ true
  pub parts :
      (part : Bytes)
      → Mem part (split b'/' repo)
      → (c : ℕ) × (t : Bytes) × (part ≡ c ∷ t)
        × (in_class ((b'a', b'z') ∷ (b'0', b'9') ∷ []) c ≡ true)

component_byte : (c : ℕ) → occurs repo_component_pattern c ≡ true → in_class name_ranges c ≡ true
unfolding occurs in_class
component_byte c h = ground arith

component-starts :
    (part : Bytes)
    → Means repo_component_pattern part
    → (c : ℕ) × (t : Bytes) × (part ≡ c ∷ t)
      × (in_class ((b'a', b'z') ∷ (b'0', b'9') ∷ []) c ≡ true)
component-starts part (both a b m n e) =
    let (c, t, e', h, _) = Means-step (star lower_alnum) ((b'a', b'z') ∷ (b'0', b'9') ∷ []) a m in
    (c, t ++ b, e ∙ ap (λ x. x ++ b) e', h)

checked-accepts :
    (repo : Bytes) (parts : List Bytes)
    → check_components repo parts ≡ valid
    → (part : Bytes) → Mem part parts
    → accepts repo_component_pattern part ≡ true
unfolding check_components
checked-accepts repo [] h = λ part m. absurd (not-mem-nil m)
checked-accepts repo (p ∷ ps) h =
    (forall_mem-cons (λ x. (hlevel))).1
      (ground (arith, h), checked-accepts repo ps (ground (arith, h)))

split_at :
    (sep : ℕ) (part : Bytes) (c : ℕ) (s : Bytes)
    → (c == sep) ≡ true
    → split_from sep part (c ∷ s) ≡ part ∷ split_from sep [] s
unfolding split_from
split_at sep part c s at = rw at refl

split_on :
    (sep : ℕ) (part : Bytes) (c : ℕ) (s : Bytes)
    → (c == sep) ≡ false
    → split_from sep part (c ∷ s) ≡ split_from sep (part ++ c ∷ []) s
unfolding split_from
split_on sep part c s other = rw other refl

module _ (q : ℕ → Bool) (sep : ℕ) where
  abbrev or_sep : ℕ → Bool
  or_sep c = q c || c == sep

  cons_sep :
      (c : ℕ) (s : Bytes)
      → (c == sep) ≡ true
      → all_bytes or_sep s ≡ true
      → all_bytes or_sep (c ∷ s) ≡ true
  unfolding all_bytes
  cons_sep c s at h = ground (arith, at, h)

  or_sep_of : (s : Bytes) → all_bytes q s ≡ true → all_bytes or_sep s ≡ true
  or_sep_of s h = all_bytes_mono q or_sep (λ c k. rw k refl) s h

  -- If no part has a byte outside a set, the whole has none outside the set but the separator.
  split_plain :
      (part s : Bytes)
      → ((x : Bytes) → Mem x (split_from sep part s) → all_bytes q x ≡ true)
      → all_bytes or_sep (part ++ s) ≡ true
  unfolding split_from
  split_plain part [] h = rw (append-nil part) (or_sep_of part (h part mem-cons_self))
  split_plain part (c ∷ s) h = elim (Bool-cases (c == sep)) [
    | inl at ↦
        let (own, rest) =
          (forall_mem-cons (λ x. (hlevel))).0
            (λ x m. h x (subst (Mem x) (sym (split_at sep part c s at)) m)) in
        rw (all_bytes-append or_sep part (c ∷ s))
          (and_intro _ _ (or_sep_of part own) (cons_sep c s at (split_plain [] s rest)))
    | inr other ↦
        subst (λ x. all_bytes or_sep x ≡ true) (append_assoc part (c ∷ []) s)
          (split_plain (part ++ c ∷ []) s
            (λ x m. h x (subst (Mem x) (sym (split_on sep part c s other)) m)))
  ]

-- A repository name that validateRepository accepts is not empty, has at most 255 bytes, all of
-- them lower case letters, digits, dots, underscores, dashes and slashes, and each of its parts
-- between slashes begins with a letter or a digit, so that none is empty or a dot segment.
pub validate_repository-IsSafePath :
    (repo : Bytes) → validate_repository repo ≡ valid → IsSafePath repo
unfolding validate_repository split
validate_repository-IsSafePath [] h = cc
validate_repository-IsSafePath (x ∷ s) h = elim (Bool-cases (ltb 255 (length (x ∷ s)))) [
  | inl long ↦ absurd (ground (arith, h, long))
  | inr short ↦
      let good = checked-accepts (x ∷ s) (split b'/' (x ∷ s)) (ground (arith, h, short)) in
      let means : (part : Bytes)
          → Mem part (split b'/' (x ∷ s))
          → Means repo_component_pattern part =
        λ part m. (matches_iff repo_component_pattern part).0 (good part m) in
      record {
        not_empty = λ e. cc;
        short = ground (arith, short);
        plain = split_plain (in_class name_ranges) b'/' [] (x ∷ s) (λ part m.
            all_bytes_mono (occurs repo_component_pattern) (in_class name_ranges) component_byte
              part (Means-occurs repo_component_pattern part (means part m)));
        parts = λ part m. component-starts part (means part m);
      }
]
