-- ===== src/Registry/Cache.antt =====
-- internal/registry/cache.go: `ttlCache`. The map of entries is an association list, the mutex makes
-- each method one step, and the clock is read by the caller: an argument for each call of `c.now()`.
pub mod Bound
pub mod Recency
pub mod Reads
pub mod Runs
pub mod Refines
use maze_registry_ui.Prelude.{
  ℕ, ◌+◌, ◌-◌, ◌*◌, ◌/◌, ◌%◌, ◌^◌, ◌≤◌, List, [], Bool, ◌||◌, not, Option, none, some, Ordering,
  compare, leb, ltb, if◌then◌else◌, length, take,
}
use maze_registry_ui.Prelude.Assoc.{lookup, insert, remove, remove_all, keep, keys}
use maze_registry_ui.Prelude.Assoc.Members.{view}
use maze_registry_ui.Prelude.Bytes.{Bytes, bytes_eq}
use maze_registry_ui.Prelude.Int.{ℤ, pos_part, le_zero}
use maze_registry_ui.Prelude.Order.{by_key}
use maze_registry_ui.Prelude.Sort.{sort_by}

abbrev pub default_cache_entries : ℕ
default_cache_entries = 2048

abbrev pub cache_scope_global : Bytes
cache_scope_global = []

-- `expires` is in nanoseconds
pub record CacheEntry {ℓ} (V : Type ℓ) : Type ℓ where
  pub value : V
  pub repo : Bytes
  pub expires : ℕ
  pub used : ℕ

pub record TtlCache {ℓ} (V : Type ℓ) : Type ℓ where
  pub entries : List (Bytes × CacheEntry V)
  pub max : ℕ
  pub tick : ℕ

unfoldable pub new_ttl_cache {ℓ} : {V : Type ℓ} → ℤ → TtlCache V
new_ttl_cache max = record {
  entries = [];
  max = if le_zero max then default_cache_entries else pos_part max;
  tick = 0;
}

-- `c.tick++` on a uint64
abbrev pub next_tick : ℕ → ℕ
next_tick tick = (tick + 1) % 2 ^ 64

module _ {ℓ} {V : Type ℓ} where
  -- `now.Before(e.expires)`
  abbrev pub is_live : ℕ → CacheEntry V → Bool
  is_live now e = ltb now e.expires

  unfoldable pub get : ℕ → Bytes → TtlCache V → TtlCache V × Option V
  get now key c = elim (lookup key c.entries) [
    | none ↦ (c, none)
    | some e ↦
        if not (is_live now e) then (record c { entries = remove key c.entries }, none) else (
          record c {
            entries = insert key (record e { used = next_tick c.tick }) c.entries;
            tick = next_tick c.tick;
          },
          some e.value,
        )
  ]

  -- `refs`: each key with its last use
  abbrev pub refs : List (Bytes × CacheEntry V) → List (Bytes × ℕ)
  refs = view (λ e. e.used)

  -- `refs` after `slices.SortFunc`, least recently used first
  unfoldable pub by_use : List (Bytes × CacheEntry V) → List (Bytes × ℕ)
  by_use m = sort_by (by_key (λ r. r.1) compare) (refs m)

  abbrev pub target : TtlCache V → ℕ
  target c = c.max * 9 / 10

  -- the loop that deletes the least recently used entries down to the target
  unfoldable pub trim : TtlCache V → TtlCache V
  trim c = record c {
    entries =
        remove_all (keys (take (length (by_use c.entries) - target c) (by_use c.entries)))
          c.entries;
  }

  unfoldable pub drop_expired : ℕ → TtlCache V → TtlCache V
  drop_expired now c = record c { entries = keep (is_live now) c.entries }

  unfoldable pub evict_locked : ℕ → TtlCache V → TtlCache V
  evict_locked now c =
      if leb (length c.entries) c.max
      then c
      else let live = drop_expired now c in
        if leb (length live.entries) live.max then live else trim live

  -- The clock is read at `at` for the entry and at `now` for the eviction.
  unfoldable pub set : ℕ → ℕ → Bytes → Bytes → V → ℤ → TtlCache V → TtlCache V
  set at now key repo value ttl c =
      if le_zero ttl
      then c
      else evict_locked now (record c {
        entries =
            insert key
              (record {
                value = value;
                repo = repo;
                expires = at + pos_part ttl;
                used = next_tick c.tick;
              })
              c.entries;
        tick = next_tick c.tick;
      })

  unfoldable pub invalidate_repo : Bytes → TtlCache V → TtlCache V
  invalidate_repo repo c = record c {
    entries =
        keep (λ e. not (bytes_eq e.repo repo || bytes_eq e.repo cache_scope_global)) c.entries;
  }

  unfoldable pub purge : TtlCache V → TtlCache V
  purge c = record c { entries = [] }

  -- `ttlCache.len`
  abbrev pub size : TtlCache V → ℕ
  size c = length c.entries
