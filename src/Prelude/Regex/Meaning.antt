-- ===== src/Prelude/Regex/Meaning.antt =====
-- The matcher finds the texts that an expression means.
use Prim.Native.Nat.{ℕ}
use mathlib.Core.Bool.{Bool, true, false}
use mathlib.Core.List.{List, [], ◌∷◌, ◌++◌}
use mathlib.Core.Logic.{◌⊎◌, inl, inr, ◌↔◌}
use mathlib.Core.Path.{◌≡◌, refl, ap, sym, ◌∙◌}
use native.Mathlib.Omega.{arith}
use maze_registry_ui.Prelude.Bytes.{Bytes}
use maze_registry_ui.Prelude.Tests.{Bool-cases, if◌then◌else◌}
use maze_registry_ui.Prelude.Regex.{
  Regex, empty_set, epsilon, chars, seq, alt, star, in_class, nullable, derive, accepts,
}

-- The texts that an expression means. The text of a sequence is given by an equation.
pub data Means : Regex → Bytes → Type 0 where
  nothing : {s : Bytes} → s ≡ [] → Means epsilon s
  one :
      {l : List (ℕ × ℕ)} {s : Bytes} (c : ℕ) → in_class l c ≡ true → s ≡ c ∷ [] → Means (chars l) s
  both :
      {r q : Regex} {s : Bytes} (a b : Bytes)
      → Means r a
      → Means q b
      → s ≡ a ++ b
      → Means (seq r q) s
  left : {r q : Regex} {s : Bytes} → Means r s → Means (alt r q) s
  right : {r q : Regex} {s : Bytes} → Means q s → Means (alt r q) s
  done : {r : Regex} {s : Bytes} → s ≡ [] → Means (star r) s
  again :
      {r : Regex} {s : Bytes} (c : ℕ) (a b : Bytes)
      → Means r (c ∷ a)
      → Means (star r) b
      → s ≡ c ∷ (a ++ b)
      → Means (star r) s

cast : {r : Regex} {s t : Bytes} → s ≡ t → Means r s → Means r t
cast {r} e m = rw (← e) m

nullable-Means : (r : Regex) → nullable r ≡ true → Means r []
unfolding nullable
nullable-Means empty_set h = cc
nullable-Means epsilon h = nothing refl
nullable-Means (chars l) h = cc
nullable-Means (seq r q) h =
    both [] [] (nullable-Means r (ground arith)) (nullable-Means q (ground arith)) refl
nullable-Means (alt r q) h = elim (Bool-cases (nullable r)) [
  | inl e ↦ left (nullable-Means r e)
  | inr e ↦ right (nullable-Means q (ground arith))
]
nullable-Means (star r) h = done refl

append_empty : (a b : Bytes) → [] ≡ a ++ b → (a ≡ []) × (b ≡ [])
append_empty [] b e = (refl, sym e)
append_empty (x ∷ a) b e = ground arith

Means-nullable : (r : Regex) (s : Bytes) → s ≡ [] → Means r s → nullable r ≡ true
unfolding nullable
Means-nullable empty_set s e x = elim x [ ]
Means-nullable epsilon s e (nothing _) = refl
Means-nullable (chars l) s e (one c _ e') = ground (arith, sym e ∙ e')
Means-nullable (seq r q) s e (both a b m n e') =
    let (ea, eb) = append_empty a b (sym e ∙ e') in
    rw (Means-nullable r a ea m, Means-nullable q b eb n) refl
Means-nullable (alt r q) s e (left m) = ground (arith, Means-nullable r s e m)
Means-nullable (alt r q) s e (right m) = ground (arith, Means-nullable q s e m)
Means-nullable (star r) s e _ = refl

seq_cases :
    {r q : Regex} {s : Bytes} (b : Bool)
    → Means (if b then alt r q else r) s
    → Means r s ⊎ ((b ≡ true) × Means q s)
seq_cases true (left m) = inl m
seq_cases true (right m) = inr (refl, m)
seq_cases false m = inl m

seq_first :
    {r : Regex} (q : Regex) {s : Bytes} (b : Bool) → Means r s → Means (if b then alt r q else r) s
seq_first q true m = left m
seq_first q false m = m

seq_second :
    (r : Regex) {q : Regex} {s : Bytes} (b : Bool)
    → b ≡ true
    → Means q s
    → Means (if b then alt r q else r) s
seq_second r true h m = right m
seq_second r false h m = cc

class_meaning :
    {s : Bytes} (l : List (ℕ × ℕ)) (c : ℕ) (b : Bool)
    → in_class l c ≡ b
    → Means (if b then epsilon else empty_set) s
    → Means (chars l) (c ∷ s)
class_meaning l c true h (nothing e) = one c h (ap (◌∷◌ c) e)
class_meaning l c false h m = elim m [ ]

cons_parts : {x y : ℕ} {a b : Bytes} → x ∷ a ≡ y ∷ b → (x ≡ y) × (a ≡ b)
cons_parts e = (ground (arith, e), ground (arith, e))

class_first :
    {s : Bytes} (l : List (ℕ × ℕ)) (c : ℕ)
    → in_class l c ≡ true
    → s ≡ []
    → Means (if in_class l c then epsilon else empty_set) s
class_first l c h e = rw h (nothing e)

derive-Means : (r : Regex) (c : ℕ) (s : Bytes) → Means (derive c r) s → Means r (c ∷ s)
unfolding derive
derive-Means empty_set c s m = elim m [ ]
derive-Means epsilon c s m = elim m [ ]
derive-Means (chars l) c s m = class_meaning l c (in_class l c) refl m
derive-Means (seq r q) c s m = elim (seq_cases (nullable r) m) [
  | inl (both a b ma mb e) ↦ both (c ∷ a) b (derive-Means r c a ma) mb (ap (◌∷◌ c) e)
  | inr (h, mq) ↦ both [] (c ∷ s) (nullable-Means r h) (derive-Means q c s mq) refl
]
derive-Means (alt r q) c s (left m) = left (derive-Means r c s m)
derive-Means (alt r q) c s (right m) = right (derive-Means q c s m)
derive-Means (star r) c s (both a b ma mb e) = again c a b (derive-Means r c a ma) mb (ap (◌∷◌ c) e)

Means-derive : (r : Regex) (c : ℕ) (s t : Bytes) → t ≡ c ∷ s → Means r t → Means (derive c r) s
unfolding derive
Means-derive empty_set c s t e x = elim x [ ]
Means-derive epsilon c s t e (nothing e') = cc
Means-derive (chars l) c s t e (one d h e') =
    let (ed, es) = cons_parts (sym e ∙ e') in class_first l c (rw ed h) es
Means-derive (seq r q) c s t e (both [] b ma mb e') =
    seq_second (seq (derive c r) q) (nullable r) (Means-nullable r [] refl ma)
      (Means-derive q c s b (sym e' ∙ e) mb)
Means-derive (seq r q) c s t e (both (x ∷ a) b ma mb e') =
    let (ed, es) = cons_parts (sym e ∙ e') in
    seq_first (derive c q) (nullable r)
      (both a b (Means-derive r c a (x ∷ a) (ap (λ y. y ∷ a) (sym ed)) ma) mb es)
Means-derive (alt r q) c s t e (left m) = left (Means-derive r c s t e m)
Means-derive (alt r q) c s t e (right m) = right (Means-derive q c s t e m)
Means-derive (star r) c s t e (done e') = cc
Means-derive (star r) c s t e (again x a b ma mb e') =
    let (ed, es) = cons_parts (sym e ∙ e') in
    both a b (Means-derive r c a (x ∷ a) (ap (λ y. y ∷ a) (sym ed)) ma) mb es

-- The matcher accepts exactly the texts that the expression means.
pub matches_iff : (r : Regex) (s : Bytes) → (accepts r s ≡ true) ↔ Means r s
unfolding accepts
matches_iff r [] = (nullable-Means r, Means-nullable r [] refl)
matches_iff r (c ∷ s) = (
  λ h. derive-Means r c s ((matches_iff (derive c r) s).0 h),
  λ m. (matches_iff (derive c r) s).1 (Means-derive r c s (c ∷ s) refl m),
)
