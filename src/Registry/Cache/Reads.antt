-- ===== src/Registry/Cache/Reads.antt =====
-- internal/registry/cache.go: what a reader finds after `set` and after `InvalidateRepo`.
use mathlib.Core.Logic.Or
use maze_registry_ui.Prelude.{
  ℕ, ◌+◌, ◌^◌, ◌≤◌, ◌<◌, ◌≡◌, inl, inr, ◌⊎◌, ◌∙◌, ltb→lt, arith, Bool-cases, ltb, if◌then◌else◌,
  false, some, none, not, ◌||◌,
}
use maze_registry_ui.Prelude.Assoc.{lookup, insert, lookup-insert}
use maze_registry_ui.Prelude.Assoc.Members.{mem-insert, insert-Nodup, lookup-keep}
use maze_registry_ui.Prelude.Bytes.{Bytes, bytes_eq, bytes_eq_refl}
use maze_registry_ui.Prelude.Int.{ℤ, le_zero, pos_part}
use maze_registry_ui.Registry.Cache.{
  CacheEntry, TtlCache, get, set, is_live, next_tick, invalidate_repo, cache_scope_global,
}
use maze_registry_ui.Registry.Cache.Bound.{IsValid, next_tick_lem}
use maze_registry_ui.Registry.Cache.Recency.{evict_unchanged, evict_newest}

pair_set : IsSet (Bytes × ℕ)
pair_set = hlevel

module _ {ℓ} {V : Type ℓ} where
  -- the entry that `set` stores
  abbrev pub fresh_entry : ℕ → Bytes → V → ℤ → ℕ → CacheEntry V
  fresh_entry at repo value ttl tick = record {
    value = value;
    repo = repo;
    expires = at + pos_part ttl;
    used = next_tick tick;
  }

  lookup-set :
      (at now : ℕ) (key repo : Bytes) (value : V) (ttl : ℤ) (c : TtlCache V)
      → IsValid c
      → c.tick + 1 < 2 ^ 64
      → 2 ≤ c.max
      → le_zero ttl ≡ false
      → now < at + pos_part ttl
      → lookup key (set at now key repo value ttl c).entries
        ≡ some (fresh_entry at repo value ttl c.tick)
  unfolding set
  lookup-set at now key repo value ttl c v t room store early =
      let e = fresh_entry at repo value ttl c.tick in
      rw store (
        evict_newest now (record c { entries = insert key e c.entries; tick = next_tick c.tick })
          (insert-Nodup key e c.entries v.distinct) key e
          (ground (arith, lookup-insert key key e c.entries, bytes_eq_refl key)) (ground arith)
          (λ r m h.
            Or.elim (pair_set r _) (mem-insert (λ x. (x.0, x.1.used)) r key e c.entries m) (λ q. q)
              (λ old. absurd (omega (arith, v.stamped r old, next_tick_lem c.tick t))))
          (omega arith))

  -- whatever the clock says, `key` holds the new entry or nothing
  lookup-set_cases :
      (at now : ℕ) (key repo : Bytes) (value : V) (ttl : ℤ) (c : TtlCache V)
      → IsValid c
      → le_zero ttl ≡ false
      → (lookup key (set at now key repo value ttl c).entries ≡ none)
        ⊎ (lookup key (set at now key repo value ttl c).entries
            ≡ some (fresh_entry at repo value ttl c.tick))
  unfolding set
  lookup-set_cases at now key repo value ttl c v store =
      let e = fresh_entry at repo value ttl c.tick in
      let c' : TtlCache V = record c {
        entries = insert key e c.entries;
        tick = next_tick c.tick;
      } in
      rw store (
        ground (
          arith,
          evict_unchanged now c' (insert-Nodup key e c.entries v.distinct) key,
          lookup-insert key key e c.entries,
          bytes_eq_refl key,
        ))

  -- the value that `get` returns, when the entry is known
  get_hit :
      (later : ℕ) (key : Bytes) (c : TtlCache V) (e : CacheEntry V)
      → lookup key c.entries ≡ some e
      → (get later key c).1 ≡ (if is_live later e then some e.value else none)
  unfolding get
  get_hit later key c e h = elim (Bool-cases (is_live later e)) [
    | inl live ↦ rw (h, get, live)
    | inr dead ↦ rw (h, get, dead)
  ]

  get_miss :
      (later : ℕ) (key : Bytes) (c : TtlCache V)
      → lookup key c.entries ≡ none
      → (get later key c).1 ≡ none
  unfolding get
  get_miss later key c h = rw (h, get)

  -- On a valid cache with room for at least two entries and a tick that does not wrap, after set
  -- with a positive ttl a get of the same key, made no earlier than the eviction in set, returns
  -- the stored value until the entry expires and nothing from then on.
  pub get-set :
      (at now later : ℕ) (key repo : Bytes) (value : V) (ttl : ℤ) (c : TtlCache V)
      → IsValid c
      → c.tick + 1 < 2 ^ 64
      → 2 ≤ c.max
      → le_zero ttl ≡ false
      → now ≤ later
      → (get later key (set at now key repo value ttl c)).1
        ≡ (if ltb later (at + pos_part ttl) then some value else none)
  get-set at now later key repo value ttl c v t room store le =
      let c' = set at now key repo value ttl c in
      let e = fresh_entry at repo value ttl c.tick in
      elim (Bool-cases (ltb now e.expires)) [
        | inl early ↦
            get_hit later key c' e
              (lookup-set at now key repo value ttl c v t room store (ltb→lt _ _ early))
        | inr late ↦ elim (lookup-set_cases at now key repo value ttl c v store) [
          | inl miss ↦ get_miss later key c' miss ∙ ground arith
          | inr hit ↦ get_hit later key c' e hit
        ]
      ]

  -- On a valid cache, InvalidateRepo deletes exactly the entries of the repository and those of
  -- the global scope, and leaves every other entry as it was.
  pub lookup-invalidate :
      (repo key : Bytes) (c : TtlCache V)
      → IsValid c
      → lookup key (invalidate_repo repo c).entries ≡ elim (lookup key c.entries) [
        | none ↦ none
        | some e ↦
            if bytes_eq e.repo repo || bytes_eq e.repo cache_scope_global then none else some e
      ]
  unfolding invalidate_repo
  lookup-invalidate repo key c v = ground (
    arith,
    lookup-keep key (λ e. not (bytes_eq e.repo repo || bytes_eq e.repo cache_scope_global))
        c.entries v.distinct,
  )
