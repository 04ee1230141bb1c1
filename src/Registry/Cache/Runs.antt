-- ===== src/Registry/Cache/Runs.antt =====
-- internal/registry/cache.go: any sequence of calls on a cache made by `newTTLCache`.
use mathlib.Core.List.{Nodup-nil, not-mem-nil}
use maze_registry_ui.Prelude.{
  ℕ, ◌+◌, ◌^◌, ◌≤◌, ◌<◌, ◌≡◌, List, [], ◌∷◌, arith, length, Bool-cases, inl, inr,
}
use maze_registry_ui.Prelude.Bytes.{Bytes}
use maze_registry_ui.Prelude.Int.{ℤ, le_zero}
use maze_registry_ui.Registry.Cache.{
  TtlCache, new_ttl_cache, get, drop_expired, trim, evict_locked, set, invalidate_repo, purge,
}
use maze_registry_ui.Registry.Cache.Bound.{
  IsValid, next_tick_lem, set-IsValid, get-IsValid, invalidate-IsValid,
}
use maze_registry_ui.Registry.Cache.Recency.{evict_cases}

-- one method call, with the readings of the clock that it makes
pub data Call {ℓ} (V : Type ℓ) : Type ℓ where
  getting : ℕ → Bytes → Call V
  setting : ℕ → ℕ → Bytes → Bytes → V → ℤ → Call V
  invalidating : Bytes → Call V
  purging : Call V

module _ {ℓ} {V : Type ℓ} where
  unfoldable pub apply_call : Call V → TtlCache V → TtlCache V
  apply_call (getting now key) c = (get now key c).0
  apply_call (setting at now key repo value ttl) c = set at now key repo value ttl c
  apply_call (invalidating repo) c = invalidate_repo repo c
  apply_call purging c = purge c

  unfoldable pub run_calls : List (Call V) → TtlCache V → TtlCache V
  unfolding apply_call
  run_calls [] c = c
  run_calls (x ∷ xs) c = run_calls xs (apply_call x c)

  pub new-IsValid : (max : ℤ) → IsValid {V = V} (new_ttl_cache max)
  unfolding new_ttl_cache
  new-IsValid max = record {
    distinct = Nodup-nil;
    bounded = omega arith;
    stamped = λ r m. absurd (not-mem-nil m);
  }

  purge-IsValid : (c : TtlCache V) → IsValid (purge c)
  unfolding purge
  purge-IsValid c = record {
    distinct = Nodup-nil;
    bounded = omega arith;
    stamped = λ r m. absurd (not-mem-nil m);
  }

  tick-evict : (now : ℕ) (c : TtlCache V) → (evict_locked now c).tick ≡ c.tick
  unfolding drop_expired trim
  tick-evict now c = ground (arith, evict_cases now c)

  pub apply_call-tick-le :
      (x : Call V) (c : TtlCache V) → c.tick + 1 < 2 ^ 64 → (apply_call x c).tick ≤ c.tick + 1
  unfolding apply_call get set invalidate_repo purge
  apply_call-tick-le (getting now key) c h = ground (arith, next_tick_lem c.tick h)
  apply_call-tick-le (setting at now key repo value ttl) c h = elim (Bool-cases (le_zero ttl)) [
    | inl skip ↦ rw (skip, apply_call, set) (omega arith)
    | inr store ↦ rw (store, apply_call, set, tick-evict, next_tick_lem c.tick h) (omega arith)
  ]
  apply_call-tick-le (invalidating repo) c h = omega arith
  apply_call-tick-le purging c h = omega arith

  pub apply_call-IsValid :
      (x : Call V) (c : TtlCache V) → IsValid c → c.tick + 1 < 2 ^ 64 → IsValid (apply_call x c)
  unfolding apply_call
  apply_call-IsValid (getting now key) c v h = get-IsValid now key c v h
  apply_call-IsValid (setting at now key repo value ttl) c v h =
      set-IsValid at now key repo value ttl c v h
  apply_call-IsValid (invalidating repo) c v h = invalidate-IsValid repo c v
  apply_call-IsValid purging c v h = purge-IsValid c

  run_calls-IsValid :
      (xs : List (Call V)) (c : TtlCache V)
      → IsValid c
      → c.tick + length xs < 2 ^ 64
      → IsValid (run_calls xs c)
  unfolding run_calls
  run_calls-IsValid [] c v h = v
  run_calls-IsValid (x ∷ xs) c v h =
      run_calls-IsValid xs (apply_call x c) (apply_call-IsValid x c v (omega arith))
        (omega (arith, apply_call-tick-le x c))

  -- After any sequence of fewer than 2^64 calls on a cache made by newTTLCache, the keys stand
  -- once, the cache holds at most max entries, and no entry was used after the last tick.
  pub new-run_calls-IsValid :
      (max : ℤ) (xs : List (Call V))
      → length xs < 2 ^ 64
      → IsValid (run_calls xs (new_ttl_cache max))
  unfolding new_ttl_cache
  new-run_calls-IsValid max xs h =
      run_calls-IsValid xs (new_ttl_cache max) (new-IsValid max) (omega arith)
