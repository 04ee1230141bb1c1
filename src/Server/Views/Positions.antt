-- ===== src/Server/Views/Positions.antt =====
-- internal/server/handlers.go: the positions of the layers that `layerViews` numbers.
use mathlib.Core.List.{Mem, eq-or-mem_of_mem-cons, not-mem-nil}
use mathlib.Core.Logic.Or
use native.Mathlib.Bridge.{le_prop}
use maze_registry_ui.Prelude.{
  ℕ, suc, zero, ◌+◌, ◌≤◌, ◌<◌, ◌≡◌, ◌≢◌, refl, ap, List, [], ◌∷◌, Ordering, ◌==◌, arith, Bool-cases,
  inl, inr, if◌then◌else◌, length, take,
}
use maze_registry_ui.Prelude.Int.{ℤ, compare_int, compare_int-IsOrder}
use maze_registry_ui.Prelude.Order.{IsOrder, by_key-IsOrder, reversed-IsOrder}
use maze_registry_ui.Registry.Manifest.{Layer}
use maze_registry_ui.Server.Views.{number, by_size, has_index}

pub by_size-IsOrder : IsOrder by_size
unfolding by_size
by_size-IsOrder = reversed-IsOrder (by_key-IsOrder (λ e. e.1.size) compare_int-IsOrder)

number_le : (k : ℕ) (ls : List Layer) (i : ℕ) (l : Layer) → Mem (i, l) (number k ls) → k ≤ i
unfolding number
number_le k [] i l m = absurd (not-mem-nil m)
number_le k (x ∷ ls) i l m =
    Or.elim le_prop (eq-or-mem_of_mem-cons m) (λ e. ground (arith, ap (λ p. p.0) e))
      (λ later. omega (arith, number_le (k + 1) ls i l later))

pub ranked_apart :
    (i j : ℕ) (l m : Layer)
    → by_size (i, l) (j, m) ≢ Ordering.gt
    → compare_int l.size m.size ≢ Ordering.lt
unfolding by_size
ranked_apart i j l m h e = h (ground (arith, compare_int-IsOrder.flip l.size m.size))

-- two layers at one position compare alike
pub number_same :
    (k : ℕ) (ls : List Layer) (i : ℕ) (l l' : Layer) (s : ℤ)
    → Mem (i, l) (number k ls)
    → Mem (i, l') (number k ls)
    → compare_int l.size s ≡ compare_int l'.size s
unfolding number
number_same k [] i l l' s m m' = absurd (not-mem-nil m)
number_same k (x ∷ ls) i l l' s m m' =
    Or.elim (hlevel) (eq-or-mem_of_mem-cons m)
      (λ e.
        Or.elim (hlevel) (eq-or-mem_of_mem-cons m')
          (λ e'.
            ground (arith, ap (λ p. compare_int p.1.size s) e, ap (λ p. compare_int p.1.size s) e'))
          (λ later'. absurd (ground (arith, ap (λ p. p.0) e, number_le (k + 1) ls i l' later'))))
      (λ later.
        Or.elim (hlevel) (eq-or-mem_of_mem-cons m')
          (λ e'. absurd (ground (arith, ap (λ p. p.0) e', number_le (k + 1) ls i l later)))
          (λ later'. number_same (k + 1) ls i l l' s later later'))

-- how many of the numbers stand among the given ones
abbrev pub count_in : List ℕ → List (ℕ × Layer) → ℕ
count_in hot [] = 0
count_in hot ((i, l) ∷ es) = (if has_index i hot then 1 else 0) + count_in hot es

pub count_empty : (es : List (ℕ × Layer)) → count_in [] es ≡ 0
count_empty [] = refl
count_empty ((i, l) ∷ es) = omega (arith, count_empty es)

count_single_after : (h k : ℕ) (ls : List Layer) → h < k → count_in (h ∷ []) (number k ls) ≡ 0
unfolding number
count_single_after h k [] lt = refl
count_single_after h k (x ∷ ls) lt = ground (arith, count_single_after h (k + 1) ls (omega arith))

count_single : (h k : ℕ) (ls : List Layer) → count_in (h ∷ []) (number k ls) ≤ 1
unfolding number
count_single h k [] = omega arith
count_single h k (x ∷ ls) = elim (Bool-cases (h == k)) [
  | inl e ↦ ground (arith, count_single_after h (k + 1) ls)
  | inr e ↦ ground (arith, count_single h (k + 1) ls)
]

count_cons :
    (h : ℕ) (hs : List ℕ) (es : List (ℕ × Layer))
    → count_in (h ∷ hs) es ≤ count_in (h ∷ []) es + count_in hs es
count_cons h hs [] = omega arith
count_cons h hs ((i, l) ∷ es) = ground (arith, count_cons h hs es)

pub count_le : (hot : List ℕ) (ls : List Layer) → count_in hot (number 0 ls) ≤ length hot
count_le [] ls = omega (arith, count_empty (number 0 ls))
count_le (h ∷ hs) ls =
    omega (arith, count_cons h hs (number 0 ls), count_single h 0 ls, count_le hs ls)

pub length-take-le {ℓ} : {A : Type ℓ} (n : ℕ) (xs : List A) → length (take n xs) ≤ n
length-take-le zero xs = omega arith
length-take-le (suc n) [] = omega arith
length-take-le (suc n) (x ∷ xs) = omega (arith, length-take-le n xs)
