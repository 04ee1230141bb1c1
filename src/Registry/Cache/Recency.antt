-- ===== src/Registry/Cache/Recency.antt =====
-- internal/registry/cache.go: which entries `evictLocked` deletes, and what a reader finds after a
-- `set`.
use mathlib.Core.List.Nodup
use mathlib.Core.List.Perm
use mathlib.Core.List.Sublist
use mathlib.Core.List.{
  Mem, Mem-prop, Nodup, Pairwise-append, mem-append, mem-append_right, mem-cons_self,
  mem-map_of_mem,
}
use mathlib.Core.HLevel.{¬_prop}
use mathlib.Core.Logic.Or
use mathlib.Core.Logic.{◌∨₁◌}
use native.Mathlib.Bridge.{le_prop}
use maze_registry_ui.Prelude.{
  ℕ, ◌≤◌, ◌<◌, ◌≡◌, ap, inl, inr, List, ◌∷◌, arith, compare, take, drop, take-append-drop, length,
  length-drop, cons_of_length_pos, length_pos_of_mem, Bool-cases, leb, if◌then◌else◌, true, some,
  none, ◌≢◌, ◌⊎◌, Ordering,
}
use maze_registry_ui.Prelude.Assoc.{lookup, keys}
use maze_registry_ui.Prelude.Assoc.Members.{
  mem-keys_of_view, mem_of_lookup, lookup-ne-none, keep-sublist, lookup-remove_all, lookup-keep,
}
use maze_registry_ui.Prelude.Bytes.{Bytes}
use maze_registry_ui.Prelude.Order.{by_key, by_key-IsOrder, compare-IsOrder}
use maze_registry_ui.Prelude.Sort.{IsSorted, sort_by-IsSorted}
use maze_registry_ui.Registry.Cache.{
  CacheEntry, TtlCache, refs, by_use, target, trim, drop_expired, evict_locked, is_live,
}
use maze_registry_ui.Registry.Cache.Bound.{by_use-perm, surplus, trim-perm}

module _ {ℓ} {V : Type ℓ} where
  by_use-IsSorted :
      (m : List (Bytes × CacheEntry V))
      → IsSorted (by_key (λ (r : Bytes × ℕ). r.1) compare) (by_use m)
  unfolding by_use
  by_use-IsSorted m = sort_by-IsSorted (by_key-IsOrder (λ r. r.1) compare-IsOrder) (refs m)

  module _ (c : TtlCache V) where
    gone_refs : List (Bytes × ℕ)
    gone_refs = take (surplus c) (by_use c.entries)

    left_refs : List (Bytes × ℕ)
    left_refs = drop (surplus c) (by_use c.entries)

    -- every deleted reference was used no later than every one that is left
    gone-le-left : (r q : Bytes × ℕ) → Mem r gone_refs → Mem q left_refs → r.1 ≤ q.1
    unfolding gone_refs left_refs
    gone-le-left r q mr mq =
        let gone = take (surplus c) (by_use c.entries) in
        let left = drop (surplus c) (by_use c.entries) in
        let parts =
          (Pairwise-append (λ a b. ¬_prop) {l₁ = gone} {l₂ = left}).0 (
            rw (← take-append-drop (surplus c) (by_use c.entries)) at
              (by_use-IsSorted c.entries)) in
        let fact : compare r.1 q.1 ≢ Ordering.gt = parts.2 r mr q mq in ground arith

    gone_or_left : (r : Bytes × ℕ) → Mem r (refs c.entries) → Mem r gone_refs ∨₁ Mem r left_refs
    unfolding gone_refs left_refs
    gone_or_left r m = mem-append.0 (
        rw (take-append-drop (surplus c) (by_use c.entries))
          ((Perm.mem_iff (by_use-perm c.entries)).1 m))

    trim_unchanged :
        (j : Bytes)
        → (lookup j (trim c).entries ≡ none) ⊎ (lookup j (trim c).entries ≡ lookup j c.entries)
    unfolding trim
    trim_unchanged j = lookup-remove_all j _ c.entries

    ref_of_lookup :
        (j : Bytes) (e : CacheEntry V) (m : List (Bytes × CacheEntry V))
        → lookup j m ≡ some e
        → Mem (j, e.used) (refs m)
    ref_of_lookup j e m h = mem-map_of_mem (λ x. (x.0, x.1.used)) (mem_of_lookup j e m h)

    module _ (d : Nodup (keys c.entries)) where
      key_left : (j : Bytes) (u : ℕ) → Mem (j, u) left_refs → Mem j (keys (trim c).entries)
      unfolding left_refs
      key_left j u m =
          mem-keys_of_view (λ e. e.used) j u (trim c).entries ((Perm.mem_iff (trim-perm c d)).0 m)

      -- what `trim` deletes was used no later than anything that it keeps
      trim_lru :
          (j k : Bytes) (e f : CacheEntry V)
          → lookup j c.entries ≡ some e
          → lookup j (trim c).entries ≡ none
          → lookup k (trim c).entries ≡ some f
          → e.used ≤ f.used
      unfolding left_refs
      trim_lru j k e f was now_gone stays =
          Or.elim le_prop (gone_or_left (j, e.used) (ref_of_lookup j e c.entries was))
            (λ g.
              gone-le-left (j, e.used) (k, f.used) g
                ((Perm.mem_iff (trim-perm c d)).1 (ref_of_lookup k f (trim c).entries stays)))
            (λ l. absurd (lookup-ne-none j (trim c).entries (key_left j e.used l) now_gone))

      some_left :
          {r : Bytes × ℕ}
          → Mem r (refs c.entries)
          → 0 < target c
          → (x : Bytes × ℕ) × (rest : List (Bytes × ℕ)) × (left_refs ≡ x ∷ rest)
      unfolding left_refs
      some_left m room = cons_of_length_pos left_refs (
          omega (
            arith,
            length-drop (surplus c) (by_use c.entries),
            length_pos_of_mem (by_use c.entries) ((Perm.mem_iff (by_use-perm c.entries)).1 m),
          ))

      left-mem : (r : Bytes × ℕ) → Mem r left_refs → Mem r (refs c.entries)
      unfolding left_refs
      left-mem r m = (Perm.mem_iff (by_use-perm c.entries)).0 (
          rw (take-append-drop (surplus c) (by_use c.entries)) at
            (mem-append_right (take (surplus c) (by_use c.entries)) m))

      -- the newest entry is never among those that `trim` deletes, if there is room for one
      trim_newest :
          (key : Bytes) (t : ℕ)
          → Mem (key, t) (refs c.entries)
          → ((r : Bytes × ℕ) → Mem r (refs c.entries) → t ≤ r.1 → r ≡ (key, t))
          → 0 < target c
          → Mem key (keys (trim c).entries)
      trim_newest key t m newest room =
          Or.elim Mem-prop (gone_or_left (key, t) m)
            (λ g.
              let (x, rest, whole) = some_left m room in
              let here : Mem x left_refs = rw whole mem-cons_self in
              let same : ◌≡◌ {A = Bytes × ℕ} x (key, t) =
                newest x (left-mem x here) (gone-le-left (key, t) x g here) in
              key_left key t (rw same at here))
            (λ l. key_left key t l)

module _ {ℓ} {V : Type ℓ} (now : ℕ) (c : TtlCache V) where
  pub evict_cases :
      (evict_locked now c ≡ c)
      ⊎ ((evict_locked now c ≡ drop_expired now c)
          ⊎ (evict_locked now c ≡ trim (drop_expired now c)))
  unfolding evict_locked
  evict_cases = elim (Bool-cases (leb (length c.entries) c.max)) [
    | inl fits ↦ inl (rw fits)
    | inr over ↦
        elim (Bool-cases (leb (length (drop_expired now c).entries) (drop_expired now c).max)) [
          | inl fits ↦ inr (inl (rw (over, fits)))
          | inr still ↦ inr (inr (rw (over, still)))
        ]
  ]

  module _ (d : Nodup (keys c.entries)) where
    lookup-drop_expired :
        (j : Bytes)
        → lookup j (drop_expired now c).entries ≡ elim (lookup j c.entries) [
          | none ↦ none
          | some e ↦ if is_live now e then some e else none
        ]
    unfolding drop_expired
    lookup-drop_expired j = lookup-keep j (is_live now) c.entries d

    drop_expired-distinct : Nodup (keys (drop_expired now c).entries)
    unfolding drop_expired
    drop_expired-distinct = Nodup.sublist (keep-sublist (λ e. e.0) (is_live now) c.entries) d

    -- an entry that is in the cache after an eviction is the one that was there before
    pub evict_unchanged :
        (j : Bytes)
        → (lookup j (evict_locked now c).entries ≡ none)
          ⊎ (lookup j (evict_locked now c).entries ≡ lookup j c.entries)
    evict_unchanged j = elim evict_cases [
      | inl same ↦ inr (ap (λ (x : TtlCache V). lookup j x.entries) same)
      | inr (inl dropped) ↦ rw dropped (ground (arith, lookup-drop_expired j))
      | inr (inr trimmed) ↦
          rw trimmed (ground (arith, lookup-drop_expired j, trim_unchanged (drop_expired now c) j))
    ]

    -- If the keys stand once, an entry that had not expired and is gone after an eviction was
    -- used no later than any entry that is still there.
    pub evict_lru :
        (j k : Bytes) (e f : CacheEntry V)
        → lookup j c.entries ≡ some e
        → is_live now e ≡ true
        → lookup j (evict_locked now c).entries ≡ none
        → lookup k (evict_locked now c).entries ≡ some f
        → e.used ≤ f.used
    evict_lru j k e f was live now_gone stays = elim evict_cases [
      | inl same ↦ absurd (ground (arith, ap (λ (x : TtlCache V). lookup j x.entries) same))
      | inr (inl dropped) ↦ absurd (
          ground
            (arith, ap (λ (x : TtlCache V). lookup j x.entries) dropped, lookup-drop_expired j))
      | inr (inr trimmed) ↦
          trim_lru (drop_expired now c) drop_expired-distinct j k e f
            (ground (arith, lookup-drop_expired j)) (rw trimmed at now_gone) (rw trimmed at stays)
    ]

    -- the newest entry survives an eviction, unless it has expired or there is no room at all
    pub evict_newest :
        (key : Bytes) (e : CacheEntry V)
        → lookup key c.entries ≡ some e
        → is_live now e ≡ true
        → ((r : Bytes × ℕ) → Mem r (refs c.entries) → e.used ≤ r.1 → r ≡ (key, e.used))
        → 0 < target c
        → lookup key (evict_locked now c).entries ≡ some e
    unfolding drop_expired
    evict_newest key e was live newest room =
        let kept : lookup key (drop_expired now c).entries ≡ some e =
          ground (arith, lookup-drop_expired key) in
        elim evict_cases [
          | inl same ↦ rw same was
          | inr (inl dropped) ↦ rw dropped kept
          | inr (inr trimmed) ↦
              let stays = lookup-ne-none key (trim (drop_expired now c)).entries (
                trim_newest (drop_expired now c) drop_expired-distinct key e.used
                  (ref_of_lookup (drop_expired now c) key e (drop_expired now c).entries kept)
                  (λ r m. newest r (
                    Sublist.subset (keep-sublist (λ x. (x.0, x.1.used)) (is_live now) c.entries) r
                      m))
                  room) in
              rw trimmed (ground (arith, stays, trim_unchanged (drop_expired now c) key))
        ]
