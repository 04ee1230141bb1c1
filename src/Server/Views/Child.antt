-- ===== src/Server/Views/Child.antt =====
-- internal/server/handlers.go: `representativeChild` against a description in two passes.
use maze_registry_ui.Prelude.{
  ◌≡◌, refl, List, [], ◌∷◌, Option, none, some, arith, if◌then◌else◌, Option-cases, inl, inr,
}
use maze_registry_ui.Registry.Manifest.{Platform}
use maze_registry_ui.Registry.Images.{Image, IndexChild}
use maze_registry_ui.Server.Views.{
  candidate, is_preferred, representative_from, representative_child,
}

module _ {R : Type 0} where
  -- the children that can stand for the index, in order
  abbrev pub candidates : List (IndexChild (Image R)) → List (Platform × Image R)
  candidates [] = []
  candidates (c ∷ cs) = elim (candidate c) [ none ↦ candidates cs | some e ↦ e ∷ candidates cs ]

  abbrev pub first_preferred : List (Platform × Image R) → Option (Platform × Image R)
  first_preferred [] = none
  first_preferred ((p, img) ∷ es) =
      let rest = first_preferred es in if is_preferred p then some (p, img) else rest

  abbrev pub first : List (Platform × Image R) → Option (Platform × Image R)
  first [] = none
  first (e ∷ es) = some e

  abbrev pub or_else :
      Option (Platform × Image R) → Option (Platform × Image R) → Option (Platform × Image R)
  or_else none other = other
  or_else (some e) other = some e

  representative_from_lem :
      (fallback : Option (Platform × Image R)) (cs : List (IndexChild (Image R)))
      → representative_from fallback cs
        ≡ or_else (first_preferred (candidates cs)) (or_else fallback (first (candidates cs)))
  unfolding representative_from
  representative_from_lem none [] = refl
  representative_from_lem (some f) [] = refl
  representative_from_lem none (c ∷ cs) = elim (Option-cases (candidate c)) [
    | inl e ↦ rw (e, representative_from) (rw (e, candidates) (representative_from_lem none cs))
    | inr ((p, img), e) ↦ ground (arith, e, representative_from_lem (some (p, img)) cs)
  ]
  representative_from_lem (some f) (c ∷ cs) = elim (Option-cases (candidate c)) [
    | inl e ↦ ground (arith, e, representative_from_lem (some f) cs)
    | inr ((p, img), e) ↦ ground (arith, e, representative_from_lem (some f) cs)
  ]

  -- x
  pub representative_child_lem :
      (cs : List (IndexChild (Image R)))
      → representative_child cs ≡ or_else (first_preferred (candidates cs)) (first (candidates cs))
  unfolding representative_child
  representative_child_lem cs = representative_from_lem none cs
