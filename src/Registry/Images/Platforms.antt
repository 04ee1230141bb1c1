-- ===== src/Registry/Images/Platforms.antt =====
-- internal/registry/client.go: the platform list that `dedupePlatforms` makes.
use mathlib.Core.HLevel.{⊥_prop}
use mathlib.Core.List.Perm
use mathlib.Core.List.{
  Mem, Mem-prop, Nodup, Nodup-cons, Nodup-nil, mem-cons_self, mem-cons_of_mem,
  eq-or-mem_of_mem-cons, exists_of_mem-map, not-mem-nil,
}
use mathlib.Core.Logic.Or
use mathlib.Core.Logic.{∥∥₁_elim}
use maze_registry_ui.Prelude.{
  ◌≡◌, refl, sym, subst, ◌≢◌, ◌⊎◌, inl, inr, List, [], ◌∷◌, map, false, none, arith, Bool-cases,
  Option-cases,
}
use maze_registry_ui.Prelude.Assoc.{lookup, insert, lookup-insert}
use maze_registry_ui.Prelude.Bytes.{Bytes, bytes_eq, bytes_eq_iff, compare_bytes-IsOrder}
use maze_registry_ui.Prelude.Order.{IsOrder, by_key-IsOrder, broken_by-IsOrder}
use maze_registry_ui.Prelude.Sort.{IsSorted, sort_by-perm, sort_by-IsSorted}
use maze_registry_ui.Registry.Manifest.{Platform}
use maze_registry_ui.Registry.Images.{
  Counted, platform_key, is_placeholder, distinct_platforms, compare_platforms, dedupe_platforms,
}

compare_platforms-IsOrder : IsOrder compare_platforms
unfolding compare_platforms
compare_platforms-IsOrder = broken_by-IsOrder (by_key-IsOrder _ compare_bytes-IsOrder) (
    broken_by-IsOrder (by_key-IsOrder _ compare_bytes-IsOrder) (
      broken_by-IsOrder (by_key-IsOrder _ compare_bytes-IsOrder)
        (by_key-IsOrder _ compare_bytes-IsOrder)))

-- the loop passes over the platform, or takes it
record IsSkipped (p : Platform) (ps : List Platform) (seen : Counted) : Type 0 where
  same : distinct_platforms seen (p ∷ ps) ≡ distinct_platforms seen ps
  why : is_placeholder p ≡ false → lookup (platform_key p) seen ≢ none

record IsTaken (p : Platform) (ps : List Platform) (seen : Counted) : Type 0 where
  taken :
      distinct_platforms seen (p ∷ ps) ≡ p ∷ distinct_platforms (insert (platform_key p) tt seen) ps
  real : is_placeholder p ≡ false
  fresh : lookup (platform_key p) seen ≡ none

distinct_platforms_cases :
    (p : Platform) (ps : List Platform) (seen : Counted) → IsSkipped p ps seen ⊎ IsTaken p ps seen
unfolding distinct_platforms
distinct_platforms_cases p ps seen = elim (Bool-cases (is_placeholder p)) [
  | inl e ↦ inl record { same = rw e refl; why = λ h. cc }
  | inr e ↦ elim (Option-cases (lookup (platform_key p) seen)) [
    | inl fresh ↦ inr record { taken = rw (e, fresh) refl; real = e; fresh = fresh }
    | inr (u, h) ↦ inl record { same = rw (e, h) refl; why = λ f n. cc }
  ]
]

absent_before :
    (k j : Bytes) (m : Counted) → lookup j (insert k tt m) ≡ none → (lookup j m ≡ none) × (j ≢ k)
absent_before k j m h = (
  ground (arith, lookup-insert k j tt m),
  λ e. ground (arith, lookup-insert k j tt m, bytes_eq_iff k j),
)

absent_after :
    (k j : Bytes) (m : Counted)
    → lookup j m ≡ none
    → bytes_eq k j ≡ false
    → lookup j (insert k tt m) ≡ none
absent_after k j m h n = ground (arith, lookup-insert k j tt m)

distinct_sound :
    (ps : List Platform) (seen : Counted) (q : Platform)
    → Mem q (distinct_platforms seen ps)
    → Mem q ps × (is_placeholder q ≡ false) × (lookup (platform_key q) seen ≡ none)
unfolding distinct_platforms
distinct_sound [] seen q m = absurd (not-mem-nil m)
distinct_sound (p ∷ ps) seen q m = elim (distinct_platforms_cases p ps seen) [
  | inl s ↦
      let (there, real, fresh) = distinct_sound ps seen q (subst (Mem q) s.same m) in
      (mem-cons_of_mem p there, real, fresh)
  | inr t ↦
      Or.elim (hlevel) (eq-or-mem_of_mem-cons (subst (Mem q) t.taken m))
        (λ e.
          subst
            (λ r.
              Mem r (p ∷ ps) × (is_placeholder r ≡ false) × (lookup (platform_key r) seen ≡ none))
            (sym e) (mem-cons_self, t.real, t.fresh))
        (λ later.
          let (there, real, fresh) = distinct_sound ps (insert (platform_key p) tt seen) q later in
          (mem-cons_of_mem p there, real, (absent_before _ _ seen fresh).0))
]

distinct-Nodup :
    (ps : List Platform) (seen : Counted) → Nodup (map platform_key (distinct_platforms seen ps))
unfolding distinct_platforms
distinct-Nodup [] seen = Nodup-nil
distinct-Nodup (p ∷ ps) seen = elim (distinct_platforms_cases p ps seen) [
  | inl s ↦ subst (λ l. Nodup (map platform_key l)) (sym s.same) (distinct-Nodup ps seen)
  | inr t ↦
      let seen' : Counted = insert (platform_key p) tt seen in
      subst (λ l. Nodup (map platform_key l)) (sym t.taken)
        (Nodup-cons.1 (
          λ m. ∥∥₁_elim (exists_of_mem-map m) ⊥_prop (λ (q, there, same).
              (absent_before _ _ seen (distinct_sound ps seen' q there).2).1 same),
          distinct-Nodup ps seen',
        ))
]

distinct_complete :
    (ps : List Platform) (seen : Counted) (q : Platform)
    → Mem q ps
    → is_placeholder q ≡ false
    → lookup (platform_key q) seen ≡ none
    → Mem (platform_key q) (map platform_key (distinct_platforms seen ps))
distinct_complete [] seen q m real fresh = absurd (not-mem-nil m)
distinct_complete (p ∷ ps) seen q m real fresh = elim (distinct_platforms_cases p ps seen) [
  | inl s ↦
      subst (λ l. Mem (platform_key q) (map platform_key l)) (sym s.same)
        (Or.elim Mem-prop (eq-or-mem_of_mem-cons m)
          (λ e. absurd (
            s.why (subst (λ r. is_placeholder r ≡ false) e real)
              (subst (λ r. lookup (platform_key r) seen ≡ none) e fresh)))
          (λ later. distinct_complete ps seen q later real fresh))
  | inr t ↦
      let seen' : Counted = insert (platform_key p) tt seen in
      let keys : List Bytes = map platform_key (distinct_platforms seen' ps) in
      subst (λ l. Mem (platform_key q) (map platform_key l)) (sym t.taken)
        (elim (Bool-cases (bytes_eq (platform_key p) (platform_key q))) [
          | inl e ↦
              subst (λ k. Mem k (platform_key p ∷ keys))
                ((bytes_eq_iff (platform_key p) (platform_key q)).0 e) mem-cons_self
          | inr e ↦
              Or.elim Mem-prop (eq-or-mem_of_mem-cons m)
                (λ same.
                  subst (λ r. Mem (platform_key r) (platform_key p ∷ keys)) (sym same)
                    mem-cons_self)
                (λ later.
                  mem-cons_of_mem (platform_key p)
                    (distinct_complete ps seen' q later real (absent_after _ _ seen fresh e)))
        ])
]

-- What the list says of the platforms that it was made of.
pub record IsDeduped (ps out : List Platform) : Type 0 where
  pub sorted : IsSorted compare_platforms out
  pub distinct : Nodup (map platform_key out)
  pub real : (q : Platform) → Mem q out → Mem q ps × (is_placeholder q ≡ false)
  pub complete :
      (q : Platform)
      → Mem q ps
      → is_placeholder q ≡ false
      → Mem (platform_key q) (map platform_key out)

-- dedupePlatforms gives a list in the order of its comparison, without two platforms of one key;
-- each platform on it is one of those given and no placeholder, and each given platform that is
-- no placeholder has its key on it.
pub dedupe_platforms-IsDeduped : (ps : List Platform) → IsDeduped ps (dedupe_platforms ps)
unfolding dedupe_platforms lookup
dedupe_platforms-IsDeduped ps =
    let l = distinct_platforms [] ps in
    let moved = sort_by-perm compare_platforms l in
    record {
      sorted = sort_by-IsSorted compare_platforms-IsOrder l;
      distinct = Perm.nodup (Perm.map platform_key (Perm.symm moved)) (distinct-Nodup ps []);
      real = λ q m.
          let (there, real, fresh) = distinct_sound ps [] q ((Perm.mem_iff moved).0 m) in
          (there, real);
      complete = λ q m real.
          (Perm.mem_iff (Perm.map platform_key moved)).1 (distinct_complete ps [] q m real refl);
    }
