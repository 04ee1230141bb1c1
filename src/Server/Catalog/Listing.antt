-- ===== src/Server/Catalog/Listing.antt =====
-- internal/server/catalog.go: what `List` answers, when it walks the catalog, and `Invalidate`.
use maze_registry_ui.Prelude.{
  ℕ, ◌+◌, ◌≤◌, ◌<◌, ◌≡◌, ◌⊎◌, refl, List, [], ◌∷◌, true, false, Option, none, some, arith, inl, inr,
  Bool-cases,
}
use maze_registry_ui.Prelude.Bytes.{Bytes, compare_bytes, compare_bytes-IsOrder, is_empty}
use maze_registry_ui.Prelude.Int.{ℤ}
use maze_registry_ui.Prelude.Sort.{IsSorted, sort_by, sort_by-IsSorted}
use maze_registry_ui.Server.Catalog.{
  Walked, names, broken, CatalogEntry, CatalogState, sort_strings, new_state, is_fresh, refresh,
  list_repos, invalidate,
}

-- The names are sorted, and an error stands in the entry only while it has no names.
pub record IsConsistent {E : Type 0} (s : CatalogState E) : Type 0 where
  pub sorted : IsSorted compare_bytes s.entry.repos
  pub exclusive : (s.entry.error ≡ none) ⊎ (s.entry.repos ≡ [])

module _ {E : Type 0} where
  refresh-IsConsistent :
      (now walks : ℕ) (w : Walked E) (s : CatalogState E)
      → IsConsistent s
      → IsConsistent (record { entry = (refresh now w s.entry).0; walks = walks })
  unfolding refresh sort_by
  refresh-IsConsistent now walks (names l) s v = record {
    sorted = sort_by-IsSorted compare_bytes-IsOrder l;
    exclusive = inl refl;
  }
  refresh-IsConsistent now walks (broken e) s v = elim (Bool-cases (is_empty s.entry.repos)) [
    | inl bare ↦
        rw bare
          (record { sorted = sort_by-IsSorted compare_bytes-IsOrder []; exclusive = inr refl })
    | inr kept ↦ rw kept (record { sorted = v.sorted; exclusive = v.exclusive })
  ]

  pub list_repos-IsConsistent :
      (now later : ℕ) (ttl : ℤ) (walk : ℕ → Walked E) (s : CatalogState E)
      → IsConsistent s
      → IsConsistent (list_repos now later ttl walk s).0
  unfolding list_repos
  list_repos-IsConsistent now later ttl walk s v = elim (Bool-cases (is_fresh now ttl s.entry)) [
    | inl fresh ↦ rw fresh v
    | inr old ↦ rw old (refresh-IsConsistent later (s.walks + 1) (walk s.walks) s v)
  ]

  pub invalidate-IsConsistent : (s : CatalogState E) → IsConsistent s → IsConsistent (invalidate s)
  unfolding invalidate
  invalidate-IsConsistent s v = record { sorted = v.sorted; exclusive = v.exclusive }

  list_repos_fresh :
      (now later : ℕ) (ttl : ℤ) (walk : ℕ → Walked E) (s : CatalogState E)
      → is_fresh now ttl s.entry ≡ true
      → list_repos now later ttl walk s ≡ (s, s.entry.repos, s.entry.error)
  unfolding list_repos
  list_repos_fresh now later ttl walk s h = rw h refl

  abbrev loaded : ℕ → ℕ → List Bytes → CatalogState E
  loaded walks at l = record {
    entry = record { repos = sort_strings l; at = some at; error = none };
    walks = walks;
  }

  list_repos_walked :
      (now later : ℕ) (ttl : ℤ) (walk : ℕ → Walked E) (s : CatalogState E) (l : List Bytes)
      → is_fresh now ttl s.entry ≡ false
      → walk s.walks ≡ names l
      → list_repos now later ttl walk s ≡ (loaded (s.walks + 1) later l, sort_strings l, none)
  unfolding list_repos refresh
  list_repos_walked now later ttl walk s l old got = rw (old, got, refresh) refl

  fresh_from :
      (now at t : ℕ) (s : CatalogState E)
      → s.entry.at ≡ some at
      → now < at + t
      → is_fresh now (ℤ.pos t) s.entry ≡ true
  unfolding is_fresh
  fresh_from now at t s e h = rw e (ground arith)

  -- If List walks the catalog and the walk succeeds, it answers with the sorted names and no
  -- error, and a List before the ttl has passed makes no walk, changes nothing, and gives the
  -- same answer.
  list_repos_cached :
      (now later now' later' t : ℕ) (walk : ℕ → Walked E) (s : CatalogState E) (l : List Bytes)
      → is_fresh now (ℤ.pos t) s.entry ≡ false
      → walk s.walks ≡ names l
      → now' < later + t
      → ((list_repos now later (ℤ.pos t) walk s).1 ≡ sort_strings l)
        × ((list_repos now later (ℤ.pos t) walk s).2 ≡ none)
        × (list_repos now' later' (ℤ.pos t) walk (list_repos now later (ℤ.pos t) walk s).0
            ≡ list_repos now later (ℤ.pos t) walk s)
  list_repos_cached now later now' later' t walk s l old got h =
      rw (list_repos_walked now later (ℤ.pos t) walk s l old got) (
        refl,
        refl,
        list_repos_fresh now' later' (ℤ.pos t) walk (loaded (s.walks + 1) later l)
            (fresh_from now' later t (loaded (s.walks + 1) later l) refl h),
      )

  is_fresh_later :
      (now now' t : ℕ) (e : CatalogEntry E)
      → now ≤ now'
      → is_fresh now (ℤ.pos t) e ≡ false
      → is_fresh now' (ℤ.pos t) e ≡ false
  unfolding is_fresh
  is_fresh_later now now' t e h old = ground arith

  -- If List has to walk the catalog, the walk fails and names are cached, List answers with
  -- these names and no error and leaves the entry as it was, so that the next List walks again.
  pub list_repos_stale :
      (now later now' later' t : ℕ) (walk : ℕ → Walked E) (s : CatalogState E) (e : E)
      → is_fresh now (ℤ.pos t) s.entry ≡ false
      → walk s.walks ≡ broken e
      → is_empty s.entry.repos ≡ false
      → now ≤ now'
      → (list_repos now later (ℤ.pos t) walk s
          ≡ (record s { walks = s.walks + 1 }, s.entry.repos, none))
        × ((list_repos now' later' (ℤ.pos t) walk (list_repos now later (ℤ.pos t) walk s).0).0.walks
            ≡ s.walks + 2)
  unfolding list_repos refresh is_fresh
  list_repos_stale now later now' later' t walk s e old got kept h =
      rw (old, got, refresh, kept)
        (refl, rw (is_fresh_later now now' t s.entry h old) (omega arith))

  -- The List after an Invalidate walks the catalog, whatever the ttl and the age of the entry,
  -- and if the walk succeeds answers with what it found, sorted.
  list_repos-invalidate :
      (now later : ℕ) (ttl : ℤ) (walk : ℕ → Walked E) (s : CatalogState E) (l : List Bytes)
      → walk s.walks ≡ names l
      → ((list_repos now later ttl walk (invalidate s)).1 ≡ sort_strings l)
        × ((list_repos now later ttl walk (invalidate s)).2 ≡ none)
        × ((list_repos now later ttl walk (invalidate s)).0.walks ≡ s.walks + 1)
  unfolding list_repos refresh is_fresh invalidate
  list_repos-invalidate now later ttl walk s l got = rw (got, refresh) (refl, refl, refl)

-- The calls that the server makes on an entry, with the clock readings of each.
pub data Call : Type 0 where
  list_call : ℕ → ℕ → Call
  invalidate_call : Call

-- The answer is sorted, and it is an error only if it has no names.
pub record IsAnswer {E : Type 0} (r : CatalogState E × List Bytes × Option E) : Type 0 where
  pub sorted : IsSorted compare_bytes r.1
  pub exclusive : (r.2 ≡ none) ⊎ (r.1 ≡ [])

module _ {E : Type 0} (ttl : ℤ) (walk : ℕ → Walked E) where
  abbrev pub run_calls : List Call → CatalogState E → CatalogState E
  run_calls [] s = s
  run_calls (list_call now later ∷ cs) s = run_calls cs (list_repos now later ttl walk s).0
  run_calls (invalidate_call ∷ cs) s = run_calls cs (invalidate s)

  run_calls-IsConsistent :
      (cs : List Call) (s : CatalogState E) → IsConsistent s → IsConsistent (run_calls cs s)
  run_calls-IsConsistent [] s v = v
  run_calls-IsConsistent (list_call now later ∷ cs) s v =
      run_calls-IsConsistent cs _ (list_repos-IsConsistent now later ttl walk s v)
  run_calls-IsConsistent (invalidate_call ∷ cs) s v =
      run_calls-IsConsistent cs _ (invalidate-IsConsistent s v)

  refresh-IsAnswer :
      (later : ℕ) (s : CatalogState E)
      → IsConsistent s
      → (w : Walked E)
      → IsAnswer (
        record { entry = (refresh later w s.entry).0; walks = s.walks + 1 },
        (refresh later w s.entry).1,
        (refresh later w s.entry).2,
      )
  unfolding refresh sort_by
  refresh-IsAnswer later s v (names l) = record {
    sorted = sort_by-IsSorted compare_bytes-IsOrder l;
    exclusive = inl refl;
  }
  refresh-IsAnswer later s v (broken e) = elim (Bool-cases (is_empty s.entry.repos)) [
    | inl bare ↦
        rw bare
          (record { sorted = sort_by-IsSorted compare_bytes-IsOrder []; exclusive = inr refl })
    | inr kept ↦ rw kept (record { sorted = v.sorted; exclusive = inl refl })
  ]

  list_repos-IsAnswer :
      (now later : ℕ) (s : CatalogState E)
      → IsConsistent s
      → IsAnswer (list_repos now later ttl walk s)
  unfolding list_repos
  list_repos-IsAnswer now later s v = elim (Bool-cases (is_fresh now ttl s.entry)) [
    | inl fresh ↦ rw fresh (record { sorted = v.sorted; exclusive = v.exclusive })
    | inr old ↦ rw old (refresh-IsAnswer later s v (walk s.walks))
  ]

  -- After any sequence of List and Invalidate calls on a new entry, whatever the walks give, the
  -- next List answers with sorted names, and with an error only if it answers with no names.
  run_calls-IsAnswer :
      (cs : List Call) (now later : ℕ)
      → IsAnswer (list_repos now later ttl walk (run_calls cs new_state))
  unfolding sort_by
  run_calls-IsAnswer cs now later = list_repos-IsAnswer now later _ (
      run_calls-IsConsistent cs new_state
        (record { sorted = sort_by-IsSorted compare_bytes-IsOrder []; exclusive = inl refl }))
