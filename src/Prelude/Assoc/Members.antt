-- ===== src/Prelude/Assoc/Members.antt =====
-- Which entries an association list holds, and what deletions leave of them.
use mathlib.Core.HLevel.{⊥_prop, ¬_prop}
use mathlib.Core.List.Nodup
use mathlib.Core.List.Perm
use mathlib.Core.List.Sublist
use mathlib.Core.List.{
  List, [], ◌∷◌, ◌++◌, map, Mem, Nodup, Perm, Perm-prop, Sublist, Nodup-cons, Nodup-nil,
  nil-sublist, not-mem-nil, mem-cons_self, mem-cons_of_mem, eq-or-mem_of_mem-cons, mem-map_of_mem,
}
use mathlib.Core.Bool.{Bool}
use mathlib.Core.Logic.Or
use mathlib.Core.Logic.{◌≢◌, ◌⊎◌, inl, inr, ◌∨₁◌, ∨₁_prop}
use mathlib.Core.Option.{none, some}
use mathlib.Core.Path.{◌≡◌, refl, ap}
use native.Mathlib.Omega.{arith}
use maze_registry_ui.Prelude.Bytes.{Bytes, bytes_eq, bytes_eq_iff}
use maze_registry_ui.Prelude.Tests.{if◌then◌else◌, Bool-cases}
use maze_registry_ui.Prelude.Assoc.{lookup, insert, remove, remove_all, keep, keys, lookup-remove}

module _ {ℓ} {V : Type ℓ} where
  pub mem-keys : {k : Bytes} {v : V} {m : List (Bytes × V)} → Mem (k, v) m → Mem k (keys m)
  mem-keys mem = mem-map_of_mem (λ e. e.0) mem

  pub lookup_absent : (k : Bytes) (m : List (Bytes × V)) → (¬ Mem k (keys m)) → lookup k m ≡ none
  unfolding lookup
  lookup_absent k [] h = refl
  lookup_absent k ((j, w) ∷ m) h = elim (Bool-cases (bytes_eq j k)) [
    | inl e ↦ absurd (h (rw ((bytes_eq_iff j k).0 e) mem-cons_self))
    | inr e ↦ rw e (lookup_absent k m (λ t. h (mem-cons_of_mem j t)))
  ]

  pub lookup-ne-none : (k : Bytes) (m : List (Bytes × V)) → Mem k (keys m) → lookup k m ≢ none
  unfolding lookup
  lookup-ne-none k [] h = absurd (not-mem-nil h)
  lookup-ne-none k ((j, w) ∷ m) h =
      Or.elim ¬_prop (eq-or-mem_of_mem-cons h) (λ e. ground (arith, bytes_eq_iff j k))
        (λ t. ground (arith, lookup-ne-none k m t))

  pub mem_of_lookup :
      (k : Bytes) (v : V) (m : List (Bytes × V)) → lookup k m ≡ some v → Mem (k, v) m
  unfolding lookup
  mem_of_lookup k v [] h = cc
  mem_of_lookup k v ((j, w) ∷ m) h = elim (Bool-cases (bytes_eq j k)) [
    | inl e ↦
        let same : ◌≡◌ {A = Bytes × V} (j, w) (k, v) = ground (arith, bytes_eq_iff j k) in
        rw same mem-cons_self
    | inr e ↦ mem-cons_of_mem (j, w) (mem_of_lookup k v m (rw (e, lookup) at h))
  ]

  remove_absent : (k : Bytes) (m : List (Bytes × V)) → (¬ Mem k (keys m)) → remove k m ≡ m
  unfolding remove
  remove_absent k [] h = refl
  remove_absent k ((j, w) ∷ m) h = elim (Bool-cases (bytes_eq j k)) [
    | inl e ↦ absurd (h (rw ((bytes_eq_iff j k).0 e) mem-cons_self))
    | inr e ↦ rw e (ap (◌∷◌ (j, w)) (remove_absent k m (λ t. h (mem-cons_of_mem j t))))
  ]

  -- a removal leaves the other keys as they were, or hides one
  pub lookup-remove_all :
      (j : Bytes) (ks : List Bytes) (m : List (Bytes × V))
      → (lookup j (remove_all ks m) ≡ none) ⊎ (lookup j (remove_all ks m) ≡ lookup j m)
  unfolding remove_all
  lookup-remove_all j [] m = inr refl
  lookup-remove_all j (k ∷ ks) m =
      ground (arith, lookup-remove_all j ks (remove k m), lookup-remove k j m)

  module _ {κ} {B : Type κ} (g : Bytes × V → B) where
    pub keep-sublist : (p : V → Bool) (m : List (Bytes × V)) → Sublist (map g (keep p m)) (map g m)
    unfolding keep
    keep-sublist p [] = nil-sublist []
    keep-sublist p ((j, w) ∷ m) = elim (Bool-cases (p w)) [
      | inl e ↦ rw (e, keep) (Sublist.cons-cons (g (j, w)) (keep-sublist p m))
      | inr e ↦ rw (e, keep) (Sublist.cons (g (j, w)) (keep-sublist p m))
    ]

    pub remove-sublist : (k : Bytes) (m : List (Bytes × V)) → Sublist (map g (remove k m)) (map g m)
    unfolding remove
    remove-sublist k [] = nil-sublist []
    remove-sublist k ((j, w) ∷ m) = elim (Bool-cases (bytes_eq j k)) [
      | inl e ↦ rw (e, remove) (Sublist.cons (g (j, w)) (remove-sublist k m))
      | inr e ↦ rw (e, remove) (Sublist.cons-cons (g (j, w)) (remove-sublist k m))
    ]

    pub remove_all-sublist :
        (ks : List Bytes) (m : List (Bytes × V)) → Sublist (map g (remove_all ks m)) (map g m)
    unfolding remove_all
    remove_all-sublist [] m = Sublist.refl (map g m)
    remove_all-sublist (k ∷ ks) m =
        Sublist.trans (remove_all-sublist ks (remove k m)) (remove-sublist k m)

    pub mem-insert :
        (r : B) (k : Bytes) (v : V) (m : List (Bytes × V))
        → Mem r (map g (insert k v m))
        → (r ≡ g (k, v)) ∨₁ Mem r (map g m)
    unfolding insert
    mem-insert r k v [] h = eq-or-mem_of_mem-cons h
    mem-insert r k v ((j, w) ∷ m) h = elim (Bool-cases (bytes_eq j k)) [
      | inl e ↦
          Or.elim ∨₁_prop (eq-or-mem_of_mem-cons (rw (e, insert) at h)) Or.inl
            (λ t. Or.inr (mem-cons_of_mem (g (j, w)) t))
      | inr e ↦
          Or.elim ∨₁_prop (eq-or-mem_of_mem-cons (rw (e, insert) at h))
            (λ t. Or.inr (rw t mem-cons_self))
            (λ t.
              Or.elim ∨₁_prop (mem-insert r k v m t) Or.inl
                (λ t'. Or.inr (mem-cons_of_mem (g (j, w)) t')))
    ]

  pub insert-Nodup :
      (k : Bytes) (v : V) (m : List (Bytes × V)) → Nodup (keys m) → Nodup (keys (insert k v m))
  unfolding insert
  insert-Nodup k v [] d = Nodup-cons.1 (not-mem-nil, Nodup-nil)
  insert-Nodup k v ((j, w) ∷ m) d =
      let (fresh, rest) = Nodup-cons.0 d in
      elim (Bool-cases (bytes_eq j k)) [
        | inl e ↦ rw (e, insert, ← (bytes_eq_iff j k).0 e) d
        | inr e ↦
            rw (e, insert)
              (Nodup-cons.1 (
                λ t.
                    Or.elim ⊥_prop (mem-insert (λ x. x.0) j k v m t)
                      (λ q. ground (arith, bytes_eq_iff j k)) fresh,
                insert-Nodup k v m rest,
              ))
      ]

  pub lookup-keep :
      (j : Bytes) (p : V → Bool) (m : List (Bytes × V))
      → Nodup (keys m)
      → lookup j (keep p m)
        ≡ elim (lookup j m) [ none ↦ none | some v ↦ if p v then some v else none ]
  unfolding lookup keep
  lookup-keep j p [] d = refl
  lookup-keep j p ((i, w) ∷ m) d =
      let (fresh, rest) = Nodup-cons.0 d in
      elim (Bool-cases (bytes_eq i j)) [
        | inl e ↦
            let gone : lookup j (keep p m) ≡ none = lookup_absent j (keep p m) (λ t.
              fresh
                (rw ((bytes_eq_iff i j).0 e) (Sublist.subset (keep-sublist (λ x. x.0) p m) j t))) in
            ground arith
        | inr e ↦ ground (arith, lookup-keep j p m rest)
      ]

module _ {ℓ κ} {V : Type ℓ} {B : Type κ} (f : V → B) where
  -- what is left of the entries when only a part of each value is looked at
  abbrev pub view : List (Bytes × V) → List (Bytes × B)
  view = map (λ e. (e.0, f e.1))

  keys-view : (m : List (Bytes × V)) → keys (view m) ≡ keys m
  keys-view [] = refl
  keys-view (e ∷ m) = ap (◌∷◌ e.0) (keys-view m)

  pub mem-keys_of_view :
      (k : Bytes) (b : B) (m : List (Bytes × V)) → Mem (k, b) (view m) → Mem k (keys m)
  mem-keys_of_view k b m h = rw (keys-view m) at (mem-keys h)

  remove-perm :
      (k : Bytes) (b : B) (m : List (Bytes × V))
      → Nodup (keys m)
      → Mem (k, b) (view m)
      → Perm ((k, b) ∷ view (remove k m)) (view m)
  unfolding remove
  remove-perm k b [] d h = absurd (not-mem-nil h)
  remove-perm k b ((j, w) ∷ m) d h =
      let (fresh, rest) = Nodup-cons.0 d in
      elim (Bool-cases (bytes_eq j k)) [
        | inl e ↦
            let j≡k : j ≡ k = (bytes_eq_iff j k).0 e in
            rw (e, remove, remove_absent k m (rw j≡k at fresh))
              (Or.elim Perm-prop (eq-or-mem_of_mem-cons h) (λ q. Perm.cons' q Perm.rfl)
                (λ t. absurd (fresh (rw j≡k (mem-keys_of_view k b m t)))))
        | inr e ↦
            rw (e, remove)
              (Or.elim Perm-prop (eq-or-mem_of_mem-cons h)
                (λ q. absurd (ground (arith, bytes_eq_iff j k)))
                (λ t.
                  Perm.trans (Perm.swap (j, f w) (k, b) (view (remove k m)))
                    (Perm.cons (j, f w) (remove-perm k b m rest t))))
      ]

  -- Removing the keys of a part of the entries leaves the other part.
  pub remove_all-perm :
      (gone left : List (Bytes × B)) (m : List (Bytes × V))
      → Nodup (keys m)
      → Perm (gone ++ left) (view m)
      → Perm left (view (remove_all (keys gone) m))
  unfolding remove_all
  remove_all-perm [] left m d p = p
  remove_all-perm ((k, b) ∷ gone) left m d p =
      remove_all-perm gone left (remove k m) (Nodup.sublist (remove-sublist (λ e. e.0) k m) d) (
        Perm.cons_inv
          (Perm.trans p (Perm.symm (remove-perm k b m d ((Perm.mem_iff p).0 mem-cons_self)))))
