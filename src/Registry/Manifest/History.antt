-- ===== src/Registry/Manifest/History.antt =====
-- internal/registry/manifest.go: what `applyHistoryToLayers` writes into the layers.
use maze_registry_ui.Prelude.{◌≡◌, refl, List, [], ◌∷◌, some, arith, length, ◌==◌, if◌then◌else◌}
use maze_registry_ui.Registry.Manifest.{
  Layer, HistoryEntry, wanted, attach, apply_history_to_layers, clean_command,
}

-- the build steps that produced a layer
unfoldable pub producing : List HistoryEntry → List HistoryEntry
producing [] = []
producing (h ∷ hs) = if h.empty_layer then producing hs else h ∷ producing hs

-- each layer with the command of the step in the same place
unfoldable pub commanded : List HistoryEntry → List Layer → List Layer
commanded (h ∷ hs) (l ∷ ls) = record l { command = clean_command h.created_by } ∷ commanded hs ls
commanded _ ls = ls

wanted-length : (hs : List HistoryEntry) → wanted hs ≡ length (producing hs)
unfolding wanted producing
wanted-length [] = refl
wanted-length (h ∷ hs) = ground (arith, wanted-length hs)

attach-commanded :
    (hs : List HistoryEntry) (ls : List Layer)
    → length (producing hs) ≡ length ls
    → attach hs ls ≡ some (commanded (producing hs) ls)
unfolding attach producing commanded
attach-commanded [] [] e = refl
attach-commanded [] (l ∷ ls) e = refl
attach-commanded (h ∷ hs) [] e = ground (arith, attach-commanded hs [])
attach-commanded (h ∷ hs) (l ∷ ls) e =
    ground (arith, attach-commanded hs (l ∷ ls), attach-commanded hs ls)

-- applyHistoryToLayers never writes out of range; if the history has as many steps that produce
-- a layer as there are layers, the n-th layer gets the cleaned command of the n-th of these
-- steps, and otherwise no layer is changed.
pub apply_history-commanded :
    (hs : List HistoryEntry) (ls : List Layer)
    → apply_history_to_layers hs ls
      ≡ some (if length (producing hs) == length ls then commanded (producing hs) ls else ls)
unfolding apply_history_to_layers
apply_history-commanded hs ls = ground (arith, wanted-length hs, attach-commanded hs ls)
