-- ===== src/Registry/Cache/Bound.antt =====
-- internal/registry/cache.go: the invariant of `ttlCache` and its bound.
use mathlib.Core.List.Nodup
use mathlib.Core.List.Sublist
use mathlib.Core.List.{Mem, Nodup, Perm}
use mathlib.Core.Logic.Or
use native.Mathlib.Bridge.{le_prop}
use maze_registry_ui.Prelude.{
  ℕ, ◌+◌, ◌-◌, ◌^◌, ◌≤◌, ◌<◌, ◌≡◌, refl, ap, inl, inr, List, arith, compare, take, drop,
  take-append-drop, length, length-drop, length-map, length-perm, Bool-cases, Option-cases, leb,
  leb→le, Bool,
}
use maze_registry_ui.Prelude.Assoc.{
  lookup, insert, keep, keys, length-keep, length-remove, length-insert_present,
}
use maze_registry_ui.Prelude.Assoc.Members.{
  keep-sublist, remove-sublist, mem-insert, insert-Nodup, remove_all-perm, remove_all-sublist,
}
use maze_registry_ui.Prelude.Bytes.{Bytes}
use maze_registry_ui.Prelude.Int.{ℤ, le_zero}
use maze_registry_ui.Prelude.Order.{by_key}
use maze_registry_ui.Prelude.Sort.{sort_by-perm}
use maze_registry_ui.Registry.Cache.{
  CacheEntry, TtlCache, get, refs, by_use, target, trim, drop_expired, evict_locked, set,
  invalidate_repo, size, is_live, next_tick,
}

-- Keys stand once, the cache is within its limit, and no entry was used after the last tick.
pub record IsValid {ℓ} {V : Type ℓ} (c : TtlCache V) : Type ℓ where
  pub distinct : Nodup (keys c.entries)
  pub bounded : size c ≤ c.max
  pub stamped : (r : Bytes × ℕ) → Mem r (refs c.entries) → r.1 ≤ c.tick

pub next_tick_lem : (tick : ℕ) → tick + 1 < 2 ^ 64 → next_tick tick ≡ tick + 1
next_tick_lem tick h = omega arith

module _ {ℓ} {V : Type ℓ} where
  -- `by_use` is a rearrangement of the references
  pub by_use-perm : (m : List (Bytes × CacheEntry V)) → Perm (by_use m) (refs m)
  unfolding by_use
  by_use-perm m = sort_by-perm (by_key (λ r. r.1) compare) (refs m)

  -- how many references `trim` deletes
  abbrev pub surplus : TtlCache V → ℕ
  surplus c = length (by_use c.entries) - target c

  pub trim-perm :
      (c : TtlCache V)
      → Nodup (keys c.entries)
      → Perm (drop (surplus c) (by_use c.entries)) (refs (trim c).entries)
  unfolding trim
  trim-perm c d =
      let s = by_use c.entries in
      remove_all-perm (λ e. e.used) (take (surplus c) s) (drop (surplus c) s) c.entries d
        (rw (take-append-drop (surplus c) s) (by_use-perm c.entries))

  length-refs : (m : List (Bytes × CacheEntry V)) → length (refs m) ≡ length m
  length-refs m = length-map m _

  pub size-trim-le : (c : TtlCache V) → Nodup (keys c.entries) → size (trim c) ≤ target c
  size-trim-le c d = omega (
    arith,
    length-perm (trim-perm c d),
    length-drop (surplus c) (by_use c.entries),
    length-refs (trim c).entries,
  )

  -- what the two clauses of the invariant other than the bound come to
  abbrev pub IsStamped : ℕ → List (Bytes × CacheEntry V) → Type 0
  IsStamped tick m = (r : Bytes × ℕ) → Mem r (refs m) → r.1 ≤ tick

  keep-distinct :
      (p : CacheEntry V → Bool) (m : List (Bytes × CacheEntry V))
      → Nodup (keys m)
      → Nodup (keys (keep p m))
  keep-distinct p m = Nodup.sublist (keep-sublist (λ e. e.0) p m)

  keep-IsStamped :
      (p : CacheEntry V → Bool) (m : List (Bytes × CacheEntry V)) {tick : ℕ}
      → IsStamped tick m
      → IsStamped tick (keep p m)
  keep-IsStamped p m h r t = h r (Sublist.subset (keep-sublist (λ e. (e.0, e.1.used)) p m) r t)

  insert-IsStamped :
      (k : Bytes) (e : CacheEntry V) (m : List (Bytes × CacheEntry V)) {tick : ℕ}
      → IsStamped tick m
      → e.used ≡ tick + 1
      → IsStamped (tick + 1) (insert k e m)
  insert-IsStamped k e m h u r t =
      Or.elim le_prop (mem-insert (λ x. (x.0, x.1.used)) r k e m t)
        (λ q. omega (arith, ap (λ (x : Bytes × ℕ). x.1) q)) (λ old. omega (arith, h r old))

  trim-IsValid :
      (c : TtlCache V) → Nodup (keys c.entries) → IsStamped c.tick c.entries → IsValid (trim c)
  unfolding trim
  trim-IsValid c d s =
      let gone = keys (take (surplus c) (by_use c.entries)) in
      record {
        distinct = Nodup.sublist (remove_all-sublist (λ e. e.0) gone c.entries) d;
        bounded = omega (arith, size-trim-le c d);
        stamped = λ r t.
            s r (Sublist.subset (remove_all-sublist (λ e. (e.0, e.1.used)) gone c.entries) r t);
      }

  pub evict-IsValid :
      (now : ℕ) (c : TtlCache V)
      → Nodup (keys c.entries)
      → IsStamped c.tick c.entries
      → IsValid (evict_locked now c)
  unfolding evict_locked drop_expired
  evict-IsValid now c d s = elim (Bool-cases (leb (length c.entries) c.max)) [
    | inl fits ↦ rw fits (record { distinct = d; bounded = leb→le _ _ fits; stamped = s })
    | inr over ↦
        let live = drop_expired now c in
        let d' = keep-distinct (is_live now) c.entries d in
        let s' = keep-IsStamped (is_live now) c.entries s in
        elim (Bool-cases (leb (length live.entries) c.max)) [
          | inl fits ↦
              rw (over, fits) (record { distinct = d'; bounded = leb→le _ _ fits; stamped = s' })
          | inr still ↦ rw (over, still) (trim-IsValid live d' s')
        ]
  ]

  -- `set` keeps the invariant: in particular, the cache never holds more than `max` entries.
  pub set-IsValid :
      (at now : ℕ) (key repo : Bytes) (value : V) (ttl : ℤ) (c : TtlCache V)
      → IsValid c
      → c.tick + 1 < 2 ^ 64
      → IsValid (set at now key repo value ttl c)
  unfolding set
  set-IsValid at now key repo value ttl c v h = elim (Bool-cases (le_zero ttl)) [
    | inl skip ↦ rw skip v
    | inr store ↦
        rw (store, next_tick_lem c.tick h)
          (evict-IsValid now _ (insert-Nodup key _ c.entries v.distinct)
            (insert-IsStamped key _ c.entries v.stamped refl))
  ]

  pub get-IsValid :
      (now : ℕ) (key : Bytes) (c : TtlCache V)
      → IsValid c
      → c.tick + 1 < 2 ^ 64
      → IsValid (get now key c).0
  unfolding get
  get-IsValid now key c v h = elim (Option-cases (lookup key c.entries)) [
    | inl miss ↦ rw (miss, get) v
    | inr (e, hit) ↦ elim (Bool-cases (is_live now e)) [
      | inl live ↦
          rw (hit, get, live, next_tick_lem c.tick h)
            (record {
              distinct = insert-Nodup key _ c.entries v.distinct;
              bounded = omega (
                arith,
                length-insert_present key (record e { used = c.tick + 1 }) e c.entries hit,
                v.bounded,
              );
              stamped = insert-IsStamped key _ c.entries v.stamped refl;
            })
      | inr dead ↦
          rw (hit, get, dead)
            (record {
              distinct = Nodup.sublist (remove-sublist (λ x. x.0) key c.entries) v.distinct;
              bounded = omega (arith, length-remove key c.entries, v.bounded);
              stamped = λ r t.
                  v.stamped r
                    (Sublist.subset (remove-sublist (λ x. (x.0, x.1.used)) key c.entries) r t);
            })
    ]
  ]

  pub invalidate-IsValid :
      (repo : Bytes) (c : TtlCache V) → IsValid c → IsValid (invalidate_repo repo c)
  unfolding invalidate_repo
  invalidate-IsValid repo c v = record {
    distinct = keep-distinct _ c.entries v.distinct;
    bounded = omega (arith, length-keep _ c.entries, v.bounded);
    stamped = keep-IsStamped _ c.entries v.stamped;
  }
