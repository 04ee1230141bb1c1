-- ===== src/Prelude/Sort.antt =====
-- Sorting by a three-way comparison: `sort.Strings`, `slices.SortFunc` and
-- `slices.SortStableFunc` of Go's library, as a stable insertion sort.
use Prim.Native.Nat.{Ordering}
use mathlib.Core.HLevel.{¬_prop}
use mathlib.Core.List.Pairwise
use mathlib.Core.List.Perm
use mathlib.Core.List.{
  List, [], ◌∷◌, Mem, Perm, Pairwise, Pairwise-singleton, mem-cons_self, forall_mem-cons,
}
use mathlib.Core.Logic.{◌≢◌}
use mathlib.Core.Path.{◌≡◌, refl, ap, subst}
use native.Mathlib.Omega.{arith}
use maze_registry_ui.Prelude.Order.{IsOrder, IsStrict, le_trans, cmp_refl}

gt-dec : (o : Ordering) → Dec (o ≡ Ordering.gt)
gt-dec Ordering.lt = no (λ e. cc)
gt-dec Ordering.eq = no (λ e. cc)
gt-dec Ordering.gt = yes refl

module _ {ℓ} {A : Type ℓ} (cmp : A → A → Ordering) where
  insert_by : A → List A → List A
  insert_by x [] = x ∷ []
  insert_by x (y ∷ ys) = elim (cmp x y) [ Ordering.gt ↦ y ∷ insert_by x ys | _ ↦ x ∷ y ∷ ys ]

  unfoldable pub sort_by : List A → List A
  unfolding insert_by
  sort_by [] = []
  sort_by (x ∷ xs) = insert_by x (sort_by xs)

  -- no later element comes strictly before an earlier one
  abbrev pub IsSorted : List A → Type ℓ
  IsSorted = Pairwise (λ a b. cmp a b ≢ Ordering.gt)

  insert_by_after :
      (x y : A) (ys : List A) → cmp x y ≡ Ordering.gt → insert_by x (y ∷ ys) ≡ y ∷ insert_by x ys
  unfolding insert_by
  insert_by_after x y ys h = ground arith

  insert_by_before :
      (x y : A) (ys : List A) → cmp x y ≢ Ordering.gt → insert_by x (y ∷ ys) ≡ x ∷ y ∷ ys
  unfolding insert_by
  insert_by_before x y ys h = ground arith

  insert_by-perm : (x : A) (l : List A) → Perm (insert_by x l) (x ∷ l)
  unfolding insert_by
  insert_by-perm x [] = Perm.rfl
  insert_by-perm x (y ∷ ys) = elim (gt-dec (cmp x y)) [
    | yes p ↦
        rw (insert_by_after x y ys p)
          (Perm.trans (Perm.cons y (insert_by-perm x ys)) (Perm.swap x y ys))
    | no p ↦ rw (insert_by_before x y ys p) Perm.rfl
  ]

  pub sort_by-perm : (l : List A) → Perm (sort_by l) l
  unfolding sort_by
  sort_by-perm [] = Perm.rfl
  sort_by-perm (x ∷ xs) = Perm.trans (insert_by-perm x (sort_by xs)) (Perm.cons x (sort_by-perm xs))

module _ {ℓ} {A : Type ℓ} {cmp : A → A → Ordering} (o : IsOrder cmp) where
  -- what is not after the head of a sorted list is not after any of it
  pub head_below :
      (a b : A) {l : List A}
      → cmp a b ≢ Ordering.gt
      → IsSorted cmp (b ∷ l)
      → (x : A) → Mem x (b ∷ l)
      → cmp a x ≢ Ordering.gt
  head_below a b h (Pairwise.cons below _) =
      (forall_mem-cons (λ x. ¬_prop)).1 (h, λ x m. le_trans o a b x h (below x m))

  insert_by-IsSorted : (x : A) {l : List A} → IsSorted cmp l → IsSorted cmp (insert_by cmp x l)
  unfolding insert_by
  insert_by-IsSorted x Pairwise.nil = Pairwise-singleton _ x
  insert_by-IsSorted x (Pairwise.cons {a = y} {l = ys} below s) = elim (gt-dec (cmp x y)) [
    | yes p ↦ rw (insert_by_after cmp x y ys p) (
        Pairwise.cons
          (λ z m.
            (forall_mem-cons (λ w. ¬_prop)).1 (ground (arith, o.flip x y), below) z
              ((Perm.mem_iff (insert_by-perm cmp x ys)).0 m))
          (insert_by-IsSorted x s))
    | no p ↦
        let whole = Pairwise.cons below s in
        rw (insert_by_before cmp x y ys p) (Pairwise.cons (head_below x y p whole) whole)
  ]

  pub sort_by-IsSorted : (l : List A) → IsSorted cmp (sort_by cmp l)
  unfolding sort_by
  sort_by-IsSorted [] = Pairwise.nil
  sort_by-IsSorted (x ∷ xs) = insert_by-IsSorted x (sort_by-IsSorted xs)

  -- nothing that a sorted list holds comes strictly before its head
  first_le :
      (x : A) (xs : List A) (y : A) → Mem y (x ∷ xs) → IsSorted cmp (x ∷ xs) → cmp x y ≢ Ordering.gt
  first_le x xs y m ascending = head_below x x (ground (arith, cmp_refl o x)) ascending y m

  module _ (strict : IsStrict cmp) where
    same_first :
        (x : A) (xs : List A) (y : A) (ys : List A)
        → Perm (x ∷ xs) (y ∷ ys)
        → IsSorted cmp (x ∷ xs)
        → IsSorted cmp (y ∷ ys)
        → y ≡ x
    same_first x xs y ys p left right =
        let up = first_le x xs y ((Perm.mem_iff p).1 mem-cons_self) left in
        let down = first_le y ys x ((Perm.mem_iff p).0 mem-cons_self) right in
        ground (arith, up, down, o.flip x y, strict x y)

    -- a list has one sorted rearrangement
    pub sorted_unique : (xs ys : List A) → Perm xs ys → IsSorted cmp xs → IsSorted cmp ys → xs ≡ ys
    sorted_unique [] ys p left right = Perm.nil-eq p
    sorted_unique (x ∷ xs) [] p left right = Perm.eq-nil p
    sorted_unique (x ∷ xs) (y ∷ ys) p left right =
        let same = same_first x xs y ys p left right in
        let rest : Perm xs ys = Perm.cons_inv (subst (λ z. Perm (x ∷ xs) (z ∷ ys)) same p) in
        rw same
          (ap (◌∷◌ x) (sorted_unique xs ys rest (Pairwise.of_cons left) (Pairwise.of_cons right)))

    -- the order of the input does not show in the result
    pub sort_by-perm_invariant : {l r : List A} → Perm l r → sort_by cmp l ≡ sort_by cmp r
    sort_by-perm_invariant {l} {r} p =
        let moved = Perm.trans p (Perm.symm (sort_by-perm cmp r)) in
        sorted_unique (sort_by cmp l) (sort_by cmp r) (Perm.trans (sort_by-perm cmp l) moved)
          (sort_by-IsSorted l) (sort_by-IsSorted r)
