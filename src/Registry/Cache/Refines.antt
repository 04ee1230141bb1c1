-- ===== src/Registry/Cache/Refines.antt =====
-- internal/registry/cache.go against its specification: a map without a bound, on which entries
-- expire and are invalidated but are never evicted.
use maze_registry_ui.Prelude.{
  ℕ, ◌+◌, ◌^◌, ◌<◌, ◌≡◌, ◌⊎◌, refl, ◌∙◌, ap, inl, inr, List, [], ◌∷◌, arith, length, Bool, ◌||◌,
  Option, none, some, ltb, if◌then◌else◌, Bool-cases, Option-cases,
}
use mathlib.Core.List.{Nodup}
use mathlib.Core.Option
use maze_registry_ui.Prelude.Assoc.{keys, lookup, insert, lookup-insert, lookup-remove}
use maze_registry_ui.Prelude.Assoc.Members.{insert-Nodup}
use maze_registry_ui.Prelude.Bytes.{Bytes, bytes_eq, bytes_eq_iff}
use maze_registry_ui.Prelude.Int.{ℤ, le_zero, pos_part}
use maze_registry_ui.Registry.Cache.{
  CacheEntry, TtlCache, new_ttl_cache, get, set, next_tick, evict_locked, invalidate_repo, purge,
  cache_scope_global,
}
use maze_registry_ui.Registry.Cache.Bound.{IsValid}
use maze_registry_ui.Registry.Cache.Reads.{lookup-invalidate, fresh_entry}
use maze_registry_ui.Registry.Cache.Recency.{evict_unchanged}
use maze_registry_ui.Registry.Cache.Runs.{
  Call, getting, setting, invalidating, purging, apply_call, run_calls, new-IsValid,
  apply_call-IsValid, apply_call-tick-le,
}

-- what the specification keeps of an entry
pub record Stored {ℓ} (V : Type ℓ) : Type ℓ where
  pub value : V
  pub repo : Bytes
  pub expires : ℕ

abbrev pub Store {ℓ} : Type ℓ → Type ℓ
Store V = Bytes → Option (Stored V)

-- an entry of the repository `r` goes when `repo` is invalidated
abbrev in_scope : Bytes → Bytes → Bool
in_scope repo r = bytes_eq r repo || bytes_eq r cache_scope_global

less {ℓ} :
    {A : Type ℓ} {x y z : Option A}
    → (x ≡ none) ⊎ (x ≡ y)
    → (y ≡ none) ⊎ (y ≡ z)
    → (x ≡ none) ⊎ (x ≡ z)
less (inl e) f = inl e
less (inr e) (inl f) = inl (e ∙ f)
less (inr e) (inr f) = inr (e ∙ f)

module _ {ℓ} {V : Type ℓ} where
  unfoldable pub spec_call : Call V → Store V → Store V
  spec_call (getting now key) s k = s k
  spec_call (setting at now key repo value ttl) s k =
      if le_zero ttl
      then s k
      else if bytes_eq key k
      then some (record { value = value; repo = repo; expires = at + pos_part ttl })
      else s k
  spec_call (invalidating repo) s k = elim (s k) [
    | none ↦ none
    | some e ↦ if in_scope repo e.repo then none else some e
  ]
  spec_call purging s k = none

  unfoldable pub spec_run : List (Call V) → Store V → Store V
  unfolding spec_call
  spec_run [] s = s
  spec_run (x ∷ xs) s = spec_run xs (spec_call x s)

  unfoldable pub spec_read : ℕ → Bytes → Store V → Option V
  spec_read now key s = elim (s key) [
    | none ↦ none
    | some e ↦ if ltb now e.expires then some e.value else none
  ]

  abbrev forget : CacheEntry V → Stored V
  forget e = record { value = e.value; repo = e.repo; expires = e.expires }

  abbrev view_of : Bytes → TtlCache V → Option (Stored V)
  view_of k c = Option.map forget (lookup k c.entries)

  -- The cache may lack what the map holds, and holds nothing else.
  abbrev Refines : TtlCache V → Store V → Type ℓ
  Refines c s = (k : Bytes) → (view_of k c ≡ none) ⊎ (view_of k c ≡ s k)

  get-view :
      (now : ℕ) (key : Bytes) (c : TtlCache V) (k : Bytes)
      → (view_of k (get now key c).0 ≡ none) ⊎ (view_of k (get now key c).0 ≡ view_of k c)
  unfolding get
  get-view now key c k = elim (Option-cases (lookup key c.entries)) [
    | inl miss ↦ rw (miss, get) (inr refl)
    | inr (e, hit) ↦
        let used = lookup-insert key k (record e { used = next_tick c.tick }) c.entries in
        ground (arith, hit, bytes_eq_iff key k, used, lookup-remove key k c.entries)
  ]

  evict-view :
      (now : ℕ) (c : TtlCache V)
      → Nodup (keys c.entries)
      → (k : Bytes)
      → (view_of k (evict_locked now c) ≡ none) ⊎ (view_of k (evict_locked now c) ≡ view_of k c)
  evict-view now c d k = elim (evict_unchanged now c d k) [
    | inl gone ↦ inl (ap (Option.map forget) gone)
    | inr same ↦ inr (ap (Option.map forget) same)
  ]

  insert-view :
      (key : Bytes) (e : CacheEntry V) (c : TtlCache V) (s : Store V)
      → Refines c s
      → (k : Bytes)
      → (Option.map forget (lookup k (insert key e c.entries)) ≡ none)
        ⊎ (Option.map forget (lookup k (insert key e c.entries))
            ≡ (if bytes_eq key k then some (forget e) else s k))
  insert-view key e c s h k = ground (arith, lookup-insert key k e c.entries, h k)

  set-view :
      (at now : ℕ) (key repo : Bytes) (value : V) (ttl : ℤ) (c : TtlCache V) (s : Store V)
      → IsValid c
      → Refines c s
      → Refines (set at now key repo value ttl c) (spec_call (setting at now key repo value ttl) s)
  unfolding set spec_call
  set-view at now key repo value ttl c s v h k = elim (Bool-cases (le_zero ttl)) [
    | inl skip ↦ rw (skip, set, spec_call) (h k)
    | inr store ↦
        let e = fresh_entry at repo value ttl c.tick in
        let c' : TtlCache V = record c {
          entries = insert key e c.entries;
          tick = next_tick c.tick;
        } in
        rw (store, set, spec_call)
          (less (evict-view now c' (insert-Nodup key e c.entries v.distinct) k)
            (insert-view key e c s h k))
  ]

  invalidate-view :
      (repo : Bytes) (c : TtlCache V) (s : Store V)
      → IsValid c
      → Refines c s
      → Refines (invalidate_repo repo c) (spec_call (invalidating repo) s)
  unfolding spec_call
  invalidate-view repo c s v h k = ground (arith, lookup-invalidate repo k c v, h k)

  apply-Refines :
      (x : Call V) (c : TtlCache V) (s : Store V)
      → IsValid c
      → Refines c s
      → Refines (apply_call x c) (spec_call x s)
  unfolding apply_call spec_call purge lookup
  apply-Refines (getting now key) c s v h k = less (get-view now key c k) (h k)
  apply-Refines (setting at now key repo value ttl) c s v h k =
      set-view at now key repo value ttl c s v h k
  apply-Refines (invalidating repo) c s v h k = invalidate-view repo c s v h k
  apply-Refines purging c s v h k = inl refl

  run-Refines :
      (xs : List (Call V)) (c : TtlCache V) (s : Store V)
      → IsValid c
      → c.tick + length xs < 2 ^ 64
      → Refines c s
      → Refines (run_calls xs c) (spec_run xs s)
  unfolding run_calls spec_run
  run-Refines [] c s v t h = h
  run-Refines (x ∷ xs) c s v t h =
      run-Refines xs (apply_call x c) (spec_call x s) (apply_call-IsValid x c v (omega arith))
        (omega (arith, apply_call-tick-le x c)) (apply-Refines x c s v h)

  new-Refines : (max : ℤ) → Refines (new_ttl_cache max) (λ _. none)
  unfolding new_ttl_cache lookup
  new-Refines max k = inl refl

  read-Refines :
      (now : ℕ) (key : Bytes) (c : TtlCache V) (s : Store V)
      → Refines c s
      → ((get now key c).1 ≡ none) ⊎ ((get now key c).1 ≡ spec_read now key s)
  unfolding get spec_read
  read-Refines now key c s h = ground (arith, h key)

  -- After any sequence of fewer than 2^64 calls on a cache made by newTTLCache, get returns
  -- nothing, or what a map without a bound returns after the same calls, on which set stores an
  -- entry until it expires and InvalidateRepo deletes the entries of the repository and those of
  -- the global scope: no eviction ever brings back an old value, or one that was invalidated.
  pub run-spec_run :
      (max : ℤ) (xs : List (Call V)) (now : ℕ) (key : Bytes)
      → length xs < 2 ^ 64
      → ((get now key (run_calls xs (new_ttl_cache max))).1 ≡ none)
        ⊎ ((get now key (run_calls xs (new_ttl_cache max))).1
            ≡ spec_read now key (spec_run xs (λ _. none)))
  unfolding new_ttl_cache
  run-spec_run max xs now key room =
      read-Refines now key (run_calls xs (new_ttl_cache max)) (spec_run xs (λ _. none)) (
        run-Refines xs (new_ttl_cache max) (λ _. none) (new-IsValid max) (omega arith)
          (new-Refines max))
