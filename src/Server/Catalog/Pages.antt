-- ===== src/Server/Catalog/Pages.antt =====
-- internal/server/handlers.go: the pages that the "load more" button of the catalog goes through.
use maze_registry_ui.Prelude.{
  ℕ, zero, suc, ◌+◌, ◌-◌, ◌≤◌, ◌<◌, ◌≡◌, refl, ap, sym, ◌∙◌, List, [], ◌∷◌, ◌++◌, false, Option,
  none, some, ltb, if◌then◌else◌, arith, ltb→lt, inl, inr, Bool-cases, length, take, drop, min,
  length-drop, take-append-drop,
}
use maze_registry_ui.Prelude.Bytes.{Bytes}
use maze_registry_ui.Server.Catalog.{build_rows}

-- The rows of the page at an offset, and of those that its "load more" button leads to: the next
-- offset is the `o` of `MoreURL`. `none` means that the button was pressed more than `fuel` times.
unfoldable pub load_more : ℕ → List Bytes → ℕ → ℕ → Option (List Bytes)
unfolding build_rows
load_more zero matched offset limit = none
load_more (suc fuel) matched offset limit =
    let rows = build_rows matched offset limit in
    let rest = load_more fuel matched rows.shown limit in
    if rows.has_more
    then elim rest [ none ↦ none | some l ↦ some (rows.repos ++ l) ]
    else some rows.repos

take_up {ℓ} : {A : Type ℓ} (n : ℕ) (xs : List A) → length xs ≤ n → take n xs ≡ xs
take_up zero [] h = refl
take_up zero (x ∷ xs) h = absurd (omega arith)
take_up (suc n) [] h = refl
take_up (suc n) (x ∷ xs) h = ap (◌∷◌ x) (take_up n xs (omega arith))

drop-nil {ℓ} : {A : Type ℓ} (n : ℕ) → drop {A = A} n [] ≡ []
drop-nil zero = refl
drop-nil (suc n) = refl

drop-add {ℓ} : {A : Type ℓ} (n m : ℕ) (xs : List A) → drop (n + m) xs ≡ drop m (drop n xs)
drop-add zero m xs = let e : 0 + m ≡ m = omega arith in rw e refl
drop-add (suc n) m [] = drop-nil (suc n + m) ∙ sym (drop-nil m)
drop-add (suc n) m (x ∷ xs) =
    let e : suc n + m ≡ suc (n + m) = omega arith in rw e (drop-add n m xs)

load_more_from :
    (fuel : ℕ) (matched : List Bytes) (offset limit : ℕ)
    → 0 < limit
    → offset ≤ length matched
    → length matched < offset + fuel
    → load_more fuel matched offset limit ≡ some (drop offset matched)
unfolding load_more build_rows
load_more_from zero matched offset limit l h f = absurd (omega arith)
load_more_from (suc fuel) matched offset limit l h f =
    let inside : ltb (length matched) offset ≡ false = ground arith in
    elim (Bool-cases (ltb (offset + limit) (length matched))) [
      | inl more ↦
          let e : min (offset + limit) (length matched) ≡ offset + limit = ground arith in
          let width : offset + limit - offset ≡ limit = omega arith in
          let rest =
            load_more_from fuel matched (offset + limit) limit l (omega (arith, ltb→lt _ _ more))
              (omega arith) in
          rw (inside, e, more, rest, inside, e, width, drop-add offset limit matched)
            (ap some (take-append-drop limit (drop offset matched)))
      | inr end ↦
          let e : min (offset + limit) (length matched) ≡ length matched = ground arith in
          let same : ltb (length matched) (length matched) ≡ false = ground arith in
          rw (inside, e, same)
            (ap some (
              take_up (length matched - offset) (drop offset matched)
                (omega (arith, length-drop offset matched))))
    ]

-- With a positive page size, the pages that buildCatalog gives from the start, each at the
-- offset that the one before leads to, hold every match once and in order, and there is a last
-- one.
pub load_more_all :
    (matched : List Bytes) (limit : ℕ)
    → 0 < limit
    → load_more (length matched + 1) matched 0 limit ≡ some matched
load_more_all matched limit l =
    load_more_from (length matched + 1) matched 0 limit l (omega arith) (omega arith)
