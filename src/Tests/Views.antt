-- ===== src/Tests/Views.antt =====
-- The image page of a small image and of an index.
use maze_registry_ui.Prelude.{
  ◌≡◌, refl, ℕ, List, [], ◌∷◌, none, some, true, false, ltb, map, ◌*◌, Option, take,
}
use maze_registry_ui.Prelude.Assoc.{lookup, insert}
use maze_registry_ui.Prelude.Bytes.{Bytes, codes, bytes_eq}
use maze_registry_ui.Prelude.Int.{ℤ}
use maze_registry_ui.Prelude.Sort.{sort_by}
use maze_registry_ui.Registry.Manifest.{Platform, Layer}
use maze_registry_ui.Registry.Images.{Image, IndexChild}
use maze_registry_ui.Server.Views.{
  Floats, number, by_size, ranked, hot_of, hot_layers, layer_view, layer_views, total_bytes,
  candidate, representative_from, representative_child,
}
use maze_registry_ui.Server.Views.Child.{
  candidates, first_preferred, first, or_else, representative_child_lem,
}
use maze_registry_ui.Server.Views.Layers.{AreHighlighted, layer_views-AreHighlighted}
use maze_registry_ui.Tests.Images.{layer, child, platform}

program : Unit {0}
unfolding lookup insert bytes_eq sort_by number by_size ranked hot_of hot_layers layer_view
    layer_views total_bytes candidate representative_from representative_child
program = tt

abbrev magnitude : ℤ → ℕ
magnitude (ℤ.pos n) = n
magnitude (ℤ.negsuc n) = 0

-- exact fractions
abbrev pub floats : Floats
floats = record {
  Float = ℕ;
  one = 1;
  over_twentieth = λ size total. ltb (magnitude total) (magnitude size * 20);
  per_mille = λ size total. magnitude size;
  print = λ f. codes "f";
}

abbrev layers : List Layer
layers =
    layer (codes "a") 30
    ∷ layer (codes "b") 1
    ∷ layer (codes "c") 20
    ∷ layer (codes "d") 40
    ∷ layer (codes "e") 9
    ∷ []

highlighted : map (λ v. v.hot) (layer_views floats layers) ≡ true ∷ false ∷ true ∷ true ∷ false ∷ []
unfolding program
highlighted = refl

layer_views-AreHighlighted_example : AreHighlighted floats layers (layer_views floats layers)
layer_views-AreHighlighted_example = layer_views-AreHighlighted floats layers

abbrev on : Bytes → Bytes → IndexChild (Image Unit) → IndexChild (Image Unit)
on os architecture c = record c {
  descriptor = record (c.descriptor) { platform = some (platform os architecture) };
}

abbrev children : List (IndexChild (Image Unit))
children =
    on (codes "unknown") (codes "unknown") (child (codes "att") (layer (codes "z") 1 ∷ []))
    ∷ on (codes "linux") (codes "arm64") (child (codes "arm") (layer (codes "b") 2 ∷ []))
    ∷ on (codes "linux") (codes "amd64") (child (codes "amd") (layer (codes "a") 1 ∷ []))
    ∷ []

abbrev digests : Option (Platform × Image Unit) → List Bytes
digests none = []
digests (some (p, img)) = map (λ l. l.digest) img.layers

preferred : digests (representative_child children) ≡ codes "a" ∷ []
unfolding program
preferred = refl

representative_child_lem_example :
    representative_child (take 2 children)
    ≡ or_else
        (first_preferred (candidates (take 2 children)))
        (first (candidates (take 2 children)))
representative_child_lem_example = representative_child_lem (take 2 children)
