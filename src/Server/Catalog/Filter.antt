-- ===== src/Server/Catalog/Filter.antt =====
-- internal/server/catalog.go: which repositories `filterRepos` keeps.
use mathlib.Core.List.Sublist
use mathlib.Core.List.{
  Mem, Sublist, nil-sublist, not-mem-nil, mem-cons_self, mem-cons_of_mem, eq-or-mem_of_mem-cons,
}
use mathlib.Core.Logic.Or
use maze_registry_ui.Prelude.{
  ◌≡◌, ◌↔◌, refl, ap, sym, ◌∙◌, List, [], ◌∷◌, ◌++◌, true, ◌==◌, if◌then◌else◌, arith, inl, inr,
  Bool-cases, length, append-nil, append_assoc, ==_iff,
}
use maze_registry_ui.Prelude.Bytes.{Bytes}
use maze_registry_ui.Prelude.Text.{has_prefix, contains, fields, to_lower}
use maze_registry_ui.Prelude.Prefixes.{has_prefix_split, has_prefix-append}
use maze_registry_ui.Server.Catalog.{matches, filter_loop, filter_repos}

contains_split :
    (t s : Bytes) → contains t s ≡ true → (a : Bytes) × (b : Bytes) × (s ≡ a ++ (t ++ b))
unfolding contains
contains_split t [] h = let (b, e) = has_prefix_split t [] h in ([], b, e)
contains_split t (x ∷ s) h = elim (Bool-cases (has_prefix t (x ∷ s))) [
  | inl e ↦ let (b, r) = has_prefix_split t (x ∷ s) e in ([], b, r)
  | inr e ↦ let (a, b, r) = contains_split t s (ground (arith, e)) in (x ∷ a, b, ap (◌∷◌ x) r)
]

contains_of_prefix : (t s : Bytes) → has_prefix t s ≡ true → contains t s ≡ true
unfolding contains
contains_of_prefix t [] h = h
contains_of_prefix t (x ∷ s) h = rw h refl

contains-append : (a t b : Bytes) → contains t (a ++ (t ++ b)) ≡ true
unfolding contains has_prefix
contains-append [] t b = contains_of_prefix t (t ++ b) (has_prefix-append t b)
contains-append (x ∷ a) t b = ground (arith, contains-append a t b)

-- a term stands somewhere in a text
abbrev pub Occurs : Bytes → Bytes → Type 0
Occurs t s = (a : Bytes) × (b : Bytes) × (s ≡ a ++ (t ++ b))

matches_mem : (ts : List Bytes) (s t : Bytes) → matches ts s ≡ true → Mem t ts → contains t s ≡ true
unfolding matches
matches_mem [] s t h m = absurd (not-mem-nil m)
matches_mem (u ∷ ts) s t h m =
    Or.elim (hlevel) (eq-or-mem_of_mem-cons m) (λ e. rw e (ground arith))
      (λ later. matches_mem ts s t (ground arith) later)

matches_all :
    (ts : List Bytes) (s : Bytes)
    → ((t : Bytes) → Mem t ts → contains t s ≡ true)
    → matches ts s ≡ true
unfolding matches
matches_all [] s h = refl
matches_all (u ∷ ts) s h =
    ground (arith, h u mem-cons_self, matches_all ts s (λ t m. h t (mem-cons_of_mem u m)))

-- the names that match, in their order
abbrev pub matching : List Bytes → List Bytes → List Bytes
matching terms [] = []
matching terms (r ∷ rs) =
    if matches terms (to_lower r) then r ∷ matching terms rs else matching terms rs

filter_loop-matching :
    (terms rs out : List Bytes) → filter_loop terms rs out ≡ out ++ matching terms rs
unfolding filter_loop
filter_loop-matching terms [] out = sym (append-nil out)
filter_loop-matching terms (r ∷ rs) out = elim (Bool-cases (matches terms (to_lower r))) [
  | inl e ↦ rw e (
      filter_loop-matching terms rs (out ++ r ∷ []) ∙ append_assoc out (r ∷ []) (matching terms rs))
  | inr e ↦ rw e (filter_loop-matching terms rs out)
]

nil_of_length {ℓ} : {A : Type ℓ} (xs : List A) → length xs ≡ 0 → xs ≡ []
nil_of_length [] h = refl
nil_of_length (x ∷ xs) h = absurd (omega arith)

matching_none : (ts rs : List Bytes) → ts ≡ [] → rs ≡ matching ts rs
unfolding matches
matching_none ts [] e = refl
matching_none ts (r ∷ rs) e = ground (arith, matching_none ts rs e)

matching-sublist : (ts rs : List Bytes) → Sublist (matching ts rs) rs
matching-sublist ts [] = nil-sublist []
matching-sublist ts (r ∷ rs) = elim (Bool-cases (matches ts (to_lower r))) [
  | inl e ↦ rw e (Sublist.cons-cons r (matching-sublist ts rs))
  | inr e ↦ rw e (Sublist.cons r (matching-sublist ts rs))
]

matching-mem :
    (ts rs : List Bytes) (r : Bytes)
    → Mem r (matching ts rs) ↔ (Mem r rs × (matches ts (to_lower r) ≡ true))
matching-mem ts [] r = (λ m. absurd (not-mem-nil m), λ (m, h). absurd (not-mem-nil m))
matching-mem ts (x ∷ rs) r = elim (Bool-cases (matches ts (to_lower x))) [
  | inl e ↦ rw e (
    λ m.
        Or.elim (hlevel) (eq-or-mem_of_mem-cons m) (λ q. rw q (mem-cons_self, e))
          (λ t. let (a, h) = (matching-mem ts rs r).0 t in (mem-cons_of_mem x a, h)),
    λ (m, h).
        Or.elim (hlevel) (eq-or-mem_of_mem-cons m) (λ q. rw q mem-cons_self)
          (λ t. mem-cons_of_mem x ((matching-mem ts rs r).1 (t, h))),
  )
  | inr e ↦ rw e (
    λ m. let (a, h) = (matching-mem ts rs r).0 m in (mem-cons_of_mem x a, h),
    λ (m, h).
        Or.elim (hlevel) (eq-or-mem_of_mem-cons m)
          (λ q. absurd (ground (arith, ap (λ s. matches ts (to_lower s)) q, e, h)))
          (λ t. (matching-mem ts rs r).1 (t, h)),
  )
]

filter_repos-matching :
    (repos : List Bytes) (query : Bytes)
    → filter_repos repos query ≡ matching (fields (to_lower query)) repos
unfolding filter_repos
filter_repos-matching repos query = elim (Bool-cases (length (fields (to_lower query)) == 0)) [
  | inl e ↦ rw e (matching_none _ repos (nil_of_length _ ((==_iff _ _).0 e)))
  | inr e ↦ rw e (filter_loop-matching (fields (to_lower query)) repos [])
]

-- filterRepos keeps the repositories in their order, and keeps exactly those in whose lower-case
-- name each field of the lower-case query occurs.
pub filter_repos-mem :
    (repos : List Bytes) (query r : Bytes)
    → Sublist (filter_repos repos query) repos
      × (Mem r (filter_repos repos query)
          ↔ (Mem r repos × ((t : Bytes) → Mem t (fields (to_lower query)) → Occurs t (to_lower r))))
filter_repos-mem repos query r = rw (filter_repos-matching repos query) (
  matching-sublist (fields (to_lower query)) repos,
  (
    λ m.
        let (a, h) = (matching-mem (fields (to_lower query)) repos r).0 m in
        (
          a,
          λ t term.
              contains_split t (to_lower r)
                (matches_mem (fields (to_lower query)) (to_lower r) t h term),
        ),
    λ (m, h). (matching-mem (fields (to_lower query)) repos r).1 (
      m,
      matches_all (fields (to_lower query)) (to_lower r)
          (λ t term. let (a, b, e) = h t term in rw e (contains-append a t b)),
    ),
  ),
)
