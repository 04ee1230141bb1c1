-- ===== src/Tests/Cache.antt =====
-- internal/registry/cache.go on small caches.
use mathlib.Core.List.{Mem, Nodup, Nodup-cons}
use maze_registry_ui.Prelude.{
  ℕ, ◌+◌, ◌≤◌, ◌≡◌, refl, List, [], ◌∷◌, arith, some, none, if◌then◌else◌, ltb,
}
use maze_registry_ui.Prelude.Assoc.{lookup, insert, remove, remove_all, keep, keys}
use maze_registry_ui.Prelude.Assoc.Members.{lookup-ne-none}
use maze_registry_ui.Prelude.Bytes.{codes, bytes_eq}
use maze_registry_ui.Prelude.Int.{pos, negsuc, pos_part}
use maze_registry_ui.Prelude.Sort.{sort_by}
use maze_registry_ui.Registry.Cache.{
  CacheEntry, TtlCache, new_ttl_cache, get, by_use, trim, drop_expired, evict_locked, set,
  invalidate_repo, purge, size,
}
use maze_registry_ui.Registry.Cache.Bound.{IsValid}
use maze_registry_ui.Registry.Cache.Reads.{get-set}
use maze_registry_ui.Registry.Cache.Recency.{evict_lru}
use maze_registry_ui.Registry.Cache.Runs.{Call, run_calls, new-run_calls-IsValid}

program : Unit {0}
unfolding lookup insert remove remove_all keep bytes_eq sort_by new_ttl_cache get by_use trim
    drop_expired evict_locked set invalidate_repo purge
program = tt

-- three entries in a cache of two: "a" was read last, so "b" goes
abbrev calls : List (Call ℕ)
calls =
    Call.setting 0 0 (codes "a") (codes "r") 1 (pos 100)
    ∷ Call.setting 1 1 (codes "b") (codes "r") 2 (pos 100)
    ∷ Call.getting 2 (codes "a")
    ∷ []

abbrev two : TtlCache ℕ
two = run_calls calls (new_ttl_cache (pos 2))

abbrev entry : ℕ → ℕ → ℕ → CacheEntry ℕ
entry value expires used = record {
  value = value;
  repo = codes "r";
  expires = expires;
  used = used;
}

abbrev pair : TtlCache ℕ
pair = record {
  entries = (codes "a", entry 1 100 3) ∷ (codes "b", entry 2 101 2) ∷ [];
  max = 2;
  tick = 3;
}

two-pair : two ≡ pair
unfolding program run_calls
two-pair = refl

kept : (set 5 5 (codes "c") (codes "r") 3 (pos 100) pair).entries ≡ (codes "c", entry 3 105 4) ∷ []
unfolding program
kept = refl

skipped : set 5 5 (codes "c") (codes "r") 3 (negsuc 0) pair ≡ pair
unfolding program
skipped = refl

-- with room for one entry the target is none: what is stored is dropped at once
one_slot :
    size {V = ℕ}
      (set 0 0 (codes "b") [] 2 (pos 9) (set 0 0 (codes "a") [] 1 (pos 9) (new_ttl_cache (pos 1))))
    ≡ 0
unfolding program
one_slot = refl

new-run_calls-IsValid_example : IsValid (run_calls calls (new_ttl_cache (pos 2)))
new-run_calls-IsValid_example = new-run_calls-IsValid (pos 2) calls (omega arith)

pair-IsValid : IsValid pair
unfolding program run_calls
pair-IsValid = new-run_calls-IsValid (pos 2) calls (omega arith)

get-set_example :
    (get 50 (codes "c") (set 5 5 (codes "c") (codes "r") 3 (pos 100) pair)).1
    ≡ (if ltb 50 (5 + pos_part (pos 100)) then some 3 else none)
get-set_example =
    get-set 5 5 50 (codes "c") (codes "r") 3 (pos 100) pair pair-IsValid (omega arith) (omega arith)
      refl (omega arith)

abbrev crowded : TtlCache ℕ
crowded = record pair { entries = (codes "c", entry 3 105 4) ∷ pair.entries; tick = 4 }

crowded-distinct : Nodup (keys crowded.entries)
crowded-distinct = Nodup-cons.1 (λ m. absurd (no_c m), pair-IsValid.distinct)
  where
    no_c : ¬ Mem (codes "c") (keys pair.entries)
    no_c = λ m. lookup-ne-none (codes "c") pair.entries m (unfold lookup bytes_eq in refl)

evict_lru_example : 3 ≤ 4
unfolding program
evict_lru_example =
    evict_lru 5 crowded crowded-distinct (codes "a") (codes "c") (entry 1 100 3) (entry 3 105 4)
      refl refl refl refl
