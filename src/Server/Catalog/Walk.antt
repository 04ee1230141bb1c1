-- ===== src/Server/Catalog/Walk.antt =====
-- internal/server/catalog.go: what `walkCatalog` returns, and when it returns at all.
use maze_registry_ui.Prelude.{
  ℕ, zero, suc, ◌+◌, ◌≤◌, ◌<◌, ◌≡◌, ◌⊎◌, refl, ap, sym, ◌∙◌, List, [], ◌∷◌, ◌++◌, true, false, ◌||◌,
  none, some, leb, leb→le, length, length-append, take, arith, inl, inr, Bool-cases, append-nil,
  append_assoc,
}
use maze_registry_ui.Prelude.Bytes.{Bytes, bytes_eq, is_empty}
use maze_registry_ui.Prelude.Int.{ℤ, le_zero}
use maze_registry_ui.Server.Catalog.{
  CatalogPage, Fetched, page, failed, collect, Walked, names, broken, walk_loop, walk_catalog,
  max_catalog_entries,
}

take_all {ℓ} : {A : Type ℓ} (n : ℕ) (xs : List A) → length xs ≤ n → take n xs ≡ xs
take_all zero [] h = refl
take_all zero (x ∷ xs) h = absurd (omega arith)
take_all (suc n) [] h = refl
take_all (suc n) (x ∷ xs) h = ap (◌∷◌ x) (take_all n xs (omega arith))

take-append {ℓ} : {A : Type ℓ} (n : ℕ) (xs ys : List A) → length xs ≡ n → take n (xs ++ ys) ≡ xs
take-append zero [] ys h = refl
take-append zero (x ∷ xs) ys h = absurd (omega arith)
take-append (suc n) [] ys h = absurd (omega arith)
take-append (suc n) (x ∷ xs) ys h = ap (◌∷◌ x) (take-append n xs ys (omega arith))

take_full {ℓ} :
    {A : Type ℓ} (n : ℕ) (xs ys : List A) → n ≤ length xs → take n (xs ++ ys) ≡ take n xs
take_full zero xs ys h = refl
take_full (suc n) [] ys h = absurd (omega arith)
take_full (suc n) (x ∷ xs) ys h = ap (◌∷◌ x) (take_full n xs ys (omega arith))

length-take_le {ℓ} : {A : Type ℓ} (n : ℕ) (xs : List A) → length (take n xs) ≤ n
length-take_le zero xs = omega arith
length-take_le (suc n) [] = omega arith
length-take_le (suc n) (x ∷ xs) = omega (arith, length-take_le n xs)

-- Below the limit, `collect` takes what fits, and says whether the limit was reached.
collect-take :
    (limit : ℕ) (all rs : List Bytes)
    → length all < limit
    → ((collect limit all rs).0 ≡ take limit (all ++ rs))
      × ((collect limit all rs).1 ≡ leb limit (length (all ++ rs)))
unfolding collect
collect-take limit all [] h = rw append-nil (sym (take_all limit all (omega arith)), ground arith)
collect-take limit all (r ∷ rs) h =
    let grown = length-append all (r ∷ []) in
    let parts : all ++ r ∷ rs ≡ (all ++ r ∷ []) ++ rs = sym (append_assoc all (r ∷ []) rs) in
    elim (Bool-cases (leb limit (length (all ++ r ∷ [])))) [
      | inl full ↦
          rw (full, parts)
            (
              sym (take-append limit (all ++ r ∷ []) rs (ground arith)),
              ground (arith, length-append (all ++ r ∷ []) rs),
            )
      | inr room ↦ rw (room, parts) (collect-take limit (all ++ r ∷ []) rs (ground arith))
    ]

abbrev pub all_names : List CatalogPage → List Bytes
all_names [] = []
all_names (p ∷ ps) = p.repositories ++ all_names ps

Fetched-cases :
    {E : Type 0} (x : Fetched E) → ((e : E) × (x ≡ failed e)) ⊎ ((p : CatalogPage) × (x ≡ page p))
Fetched-cases (page p) = inr (p, refl)
Fetched-cases (failed e) = inl (e, refl)

module _ {E : Type 0} (fetch : ℕ → ℤ → Bytes → Fetched E) (page_size : ℤ) where
  -- The registry's answers from the k-th call on, up to the page that ends the catalog: the one
  -- with no cursor, or with the cursor that it was asked for.
  pub data Serves : ℕ → Bytes → List CatalogPage → Type 0 where
    last_page :
        {k : ℕ} {last : Bytes} {p : CatalogPage}
        → fetch k page_size last ≡ page p
        → (is_empty p.next_last || bytes_eq p.next_last last) ≡ true
        → Serves k last (p ∷ [])
    more_pages :
        {k : ℕ} {last : Bytes} {p : CatalogPage} {ps : List CatalogPage}
        → fetch k page_size last ≡ page p
        → (is_empty p.next_last || bytes_eq p.next_last last) ≡ false
        → Serves (k + 1) p.next_last ps
        → Serves k last (p ∷ ps)

  loop-take :
      (limit fuel k : ℕ) (all : List Bytes) {last : Bytes} {ps : List CatalogPage}
      → Serves k last ps
      → length all < limit
      → length ps ≤ fuel
      → walk_loop limit fetch page_size fuel k all last
        ≡ some (names (take limit (all ++ all_names ps)))
  unfolding walk_loop
  loop-take limit zero k all (last_page got end) h f = absurd (omega arith)
  loop-take limit zero k all (more_pages got more s) h f = absurd (omega arith)
  loop-take limit (suc fuel) k all (last_page {p = p} got end) h f =
      let (grown, full) = collect-take limit all p.repositories h in
      elim (Bool-cases (collect limit all p.repositories).1) [
        | inl stop ↦ rw (got, walk_loop, stop, grown, append-nil) refl
        | inr go ↦ rw (got, walk_loop, go, end, grown, append-nil) refl
      ]
  loop-take limit (suc fuel) k all (more_pages {p = p} {ps = ps} got more s) h f =
      let (grown, full) = collect-take limit all p.repositories h in
      let parts = append_assoc all p.repositories (all_names ps) in
      elim (Bool-cases (collect limit all p.repositories).1) [
        | inl stop ↦
            let cut =
              take_full limit (all ++ p.repositories) (all_names ps)
                (leb→le _ _ (sym full ∙ stop)) in
            rw (got, walk_loop, stop, grown)
              (ap (λ l. some (names l)) (sym (ap (take limit) (sym parts) ∙ cut)))
        | inr go ↦
            let room : length (all ++ p.repositories) < limit = ground (arith, full, go) in
            rw
              (
                got,
                walk_loop,
                go,
                more,
                grown,
                take_all limit (all ++ p.repositories) (omega (arith, room)),
                sym parts,
              )
              (loop-take limit fuel (k + 1) (all ++ p.repositories) s room (omega (arith, f)))
      ]

  -- Every page that does not end the catalog has a name on it.
  abbrev pub Advances : Type 0
  Advances =
      (k : ℕ) (last : Bytes) (p : CatalogPage)
      → fetch k page_size last ≡ page p
      → (is_empty p.next_last || bytes_eq p.next_last last) ≡ false
      → 0 < length p.repositories

  loop_ends :
      (limit fuel k : ℕ) (all : List Bytes) (last : Bytes)
      → Advances
      → length all < limit
      → limit ≤ length all + fuel
      → (w : Walked E) × (walk_loop limit fetch page_size fuel k all last ≡ some w)
  unfolding walk_loop
  loop_ends limit zero k all last adv h f = absurd (omega arith)
  loop_ends limit (suc fuel) k all last adv h f = elim (Fetched-cases (fetch k page_size last)) [
    | inl (e, bad) ↦ (broken e, rw (bad, walk_loop) refl)
    | inr (p, got) ↦
        let (grown, full) = collect-take limit all p.repositories h in
        elim (Bool-cases (collect limit all p.repositories).1) [
          | inl stop ↦
              (names (take limit (all ++ p.repositories)), rw (got, walk_loop, stop, grown) refl)
          | inr go ↦
              let size = length-append all p.repositories in
              let room : length (all ++ p.repositories) < limit = ground (arith, full, go) in
              let same = take_all limit (all ++ p.repositories) (omega (arith, room)) in
              elim (Bool-cases (is_empty p.next_last || bytes_eq p.next_last last)) [
                | inl end ↦
                    (names (all ++ p.repositories), rw (got, walk_loop, go, end, grown, same) refl)
                | inr more ↦
                    rw (got, walk_loop, go, more, grown, same)
                      (loop_ends limit fuel (k + 1) (all ++ p.repositories) p.next_last adv room
                        (omega (arith, size, f, adv k last p got more)))
              ]
        ]
  ]

  loop_bounded :
      (limit fuel k : ℕ) (all : List Bytes) (last : Bytes) (l : List Bytes)
      → length all < limit
      → walk_loop limit fetch page_size fuel k all last ≡ some (names l)
      → length l ≤ limit
  unfolding walk_loop
  loop_bounded limit zero k all last l h = λ e. ground arith
  loop_bounded limit (suc fuel) k all last l h = elim (Fetched-cases (fetch k page_size last)) [
    | inl (e, bad) ↦ rw (bad, walk_loop) (λ q. ground arith)
    | inr (p, got) ↦
        let (grown, full) = collect-take limit all p.repositories h in
        let small = length-take_le limit (all ++ p.repositories) in
        elim (Bool-cases (collect limit all p.repositories).1) [
          | inl stop ↦ rw (got, walk_loop, stop, grown) (λ q. ground (arith, small))
          | inr go ↦
              let room : length (all ++ p.repositories) < limit = ground (arith, full, go) in
              let same = take_all limit (all ++ p.repositories) (omega (arith, room)) in
              elim (Bool-cases (is_empty p.next_last || bytes_eq p.next_last last)) [
                | inl end ↦ rw (got, walk_loop, go, end, grown, same) (λ q. ground (arith, room))
                | inr more ↦
                    rw (got, walk_loop, go, more, grown, same)
                      (loop_bounded limit fuel (k + 1) (all ++ p.repositories) p.next_last l room)
              ]
        ]
  ]

  -- Every page is empty and names a cursor that is not the one it was asked for.
  abbrev pub Wanders : Type 0
  Wanders =
      (k : ℕ) (last : Bytes)
      → (p : CatalogPage) × (fetch k page_size last ≡ page p)
        × (p.repositories ≡ [])
        × ((is_empty p.next_last || bytes_eq p.next_last last) ≡ false)

  loop_wanders :
      (limit fuel k : ℕ) (last : Bytes)
      → Wanders
      → walk_loop limit fetch page_size fuel k [] last ≡ none
  unfolding walk_loop collect
  loop_wanders limit zero k last w = refl
  loop_wanders limit (suc fuel) k last w =
      let (p, got, bare, more) = w k last in
      rw (got, walk_loop, bare, collect, more) (loop_wanders limit fuel (k + 1) p.next_last w)

module _ {E : Type 0} (fetch : ℕ → ℤ → Bytes → Fetched E) where
  -- If the registry serves a catalog page by page, each asked for by the cursor of the one
  -- before, up to a page with no cursor or a repeated one, walkCatalog gives the names of all
  -- the pages in their order, cut off after the first 50000; as many calls as there are pages
  -- are enough.
  pub walk_catalog_complete :
      (page_size : ℤ) (fuel : ℕ) (ps : List CatalogPage)
      → le_zero page_size ≡ false
      → Serves fetch page_size 0 [] ps
      → length ps ≤ fuel
      → walk_catalog fuel fetch page_size ≡ some (names (take max_catalog_entries (all_names ps)))
  unfolding walk_catalog
  walk_catalog_complete page_size fuel ps sized s f =
      rw sized (loop-take fetch page_size max_catalog_entries fuel 0 [] s (omega arith) f)

  -- With a registry whose every page but the last has a name on it, walkCatalog ends within
  -- 50000 calls, with an error or with at most 50000 names.
  pub walk_catalog_ends :
      (page_size : ℤ)
      → le_zero page_size ≡ false
      → Advances fetch page_size
      → (w : Walked E) × (walk_catalog max_catalog_entries fetch page_size ≡ some w)
        × ((l : List Bytes) → w ≡ names l → length l ≤ max_catalog_entries)
  unfolding walk_catalog
  walk_catalog_ends page_size sized adv = rw sized (
      let (w, e) =
        loop_ends fetch page_size max_catalog_entries max_catalog_entries 0 [] [] adv (omega arith)
          (omega arith) in
      (
        w,
        e,
        λ l q.
            loop_bounded fetch page_size max_catalog_entries max_catalog_entries 0 [] [] l
              (omega arith) (e ∙ ap some q),
      ))

  -- With a registry whose pages are empty and name a cursor other than the one that was asked
  -- for, walkCatalog does not end, however many calls it makes.
  pub walk_catalog_wanders :
      (page_size : ℤ) (fuel : ℕ)
      → le_zero page_size ≡ false
      → Wanders fetch page_size
      → walk_catalog fuel fetch page_size ≡ none
  unfolding walk_catalog
  walk_catalog_wanders page_size fuel sized w =
      rw sized (loop_wanders fetch page_size max_catalog_entries fuel 0 [] w)
