-- ===== src/Tests/Limiter.antt =====
-- Two requests for one registry.
use maze_registry_ui.Prelude.{◌≡◌, List, [], ◌∷◌, Bool, true, refl, arith}
use maze_registry_ui.Prelude.Bytes.{Bytes, codes}
use maze_registry_ui.Server.Handlers.{update}
use maze_registry_ui.Server.Limiter.{
  waiting, holding, served, cancelled, Job, job, Slots, take, cancel, Cancels, Step, Runs, Reach,
}
use maze_registry_ui.Server.Limiter.Slots.{IsBounded, Reach-IsBounded}
use maze_registry_ui.Server.Limiter.Progress.{Reach-Runs}

abbrev all_limited : Bytes → Bool
all_limited rid = true

abbrev hub : Bytes
hub = codes "hub"

abbrev empty : Slots
empty rid = 0

-- one request has a slot, one waits, and one was cancelled
abbrev three : List Job
three = job hub waiting ∷ job hub holding ∷ job hub cancelled ∷ []

reached : Reach all_limited (update hub 1 empty) three
reached = Reach.arrive hub (
    Reach.act
      (Reach.arrive hub
        (Reach.drop (Reach.arrive hub Reach.start) (Cancels.here [] (cancel hub refl))))
      (Step.here (job hub cancelled ∷ []) (take empty hub refl (omega arith))))

Reach-IsBounded_example : IsBounded (update hub 1 empty) three
Reach-IsBounded_example = Reach-IsBounded reached

Reach-Runs_example :
    (t : Slots) × Runs all_limited
      (update hub 1 empty)
      three
      t
      (job hub served ∷ job hub served ∷ job hub cancelled ∷ [])
    × ((r : Bytes) → t r ≡ 0)
Reach-Runs_example = Reach-Runs reached
