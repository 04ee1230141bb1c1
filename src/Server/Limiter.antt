-- ===== src/Server/Limiter.antt =====
-- internal/server/server.go: `acquire`, the limiter of the lazy row lookups, and its use in
-- `handleRepoCount` and `handleTagRow`. Requests run side by side: a step is the next action of one
-- of them.
pub mod Slots
pub mod Progress
use maze_registry_ui.Prelude.{
  ℕ, ◌+◌, ◌-◌, ◌<◌, ◌≡◌, List, [], ◌∷◌, Bool, true, false, if◌then◌else◌,
}
use maze_registry_ui.Prelude.Bytes.{Bytes, bytes_eq}
use maze_registry_ui.Server.Handlers.{update}

abbrev pub per_registry_concurrency : ℕ
per_registry_concurrency = 6

-- Where a request stands: before `acquire` returns, after it has, with a slot or, for a registry
-- without a limiter, with none, and after the handler has returned, which it does at once if the
-- request was cancelled before it had a slot.
pub data Phase : Type 0 where
  waiting : Phase
  holding : Phase
  unlimited : Phase
  served : Phase
  cancelled : Phase

-- a request for a registry
pub data Job : Type 0 where
  job : Bytes → Phase → Job

-- how many values each channel of `sem` holds
abbrev pub Slots : Type 0
Slots = Bytes → ℕ

-- `limited` tells the registries that have a channel.
module _ (limited : Bytes → Bool) where
  -- A send on a channel goes through while there is room, and the deferred `release` receives.
  pub data Act : Slots → Job → Slots → Job → Type 0 where
    skip :
        (s : Slots) (rid : Bytes)
        → limited rid ≡ false
        → Act s (job rid waiting) s (job rid unlimited)
    take :
        (s : Slots) (rid : Bytes)
        → limited rid ≡ true
        → s rid < per_registry_concurrency
        → Act s (job rid waiting) (update rid (s rid + 1) s) (job rid holding)
    release :
        (s : Slots) (rid : Bytes)
        → Act s (job rid holding) (update rid (s rid - 1) s) (job rid served)
    leave : (s : Slots) (rid : Bytes) → Act s (job rid unlimited) s (job rid served)

  -- `<-ctx.Done()`
  pub data Cancel : Job → Job → Type 0 where
    cancel : (rid : Bytes) → limited rid ≡ true → Cancel (job rid waiting) (job rid cancelled)

  -- an action of one request of a list
  pub data Step : Slots → List Job → Slots → List Job → Type 0 where
    here :
        {s s' : Slots} {j j' : Job} (js : List Job) → Act s j s' j' → Step s (j ∷ js) s' (j' ∷ js)
    there :
        {s s' : Slots} {js js' : List Job} (j : Job)
        → Step s js s' js'
        → Step s (j ∷ js) s' (j ∷ js')

  pub data Cancels : List Job → List Job → Type 0 where
    here : {j j' : Job} (js : List Job) → Cancel j j' → Cancels (j ∷ js) (j' ∷ js)
    there : {js js' : List Job} (j : Job) → Cancels js js' → Cancels (j ∷ js) (j ∷ js')

  -- runs in which no request is cancelled
  pub data Runs (s : Slots) (js : List Job) : Slots → List Job → Type 0 where
    stop : Runs s js s js
    next : {t u : Slots} {ks ls : List Job} → Runs s js t ks → Step t ks u ls → Runs s js u ls

  -- any run: requests come in, act, and may be cancelled
  pub data Reach : Slots → List Job → Type 0 where
    start : Reach (λ rid. 0) []
    arrive : {s : Slots} {js : List Job} (rid : Bytes) → Reach s js → Reach s (job rid waiting ∷ js)
    act : {s t : Slots} {js ks : List Job} → Reach s js → Step s js t ks → Reach t ks
    drop : {s : Slots} {js ks : List Job} → Reach s js → Cancels js ks → Reach s ks
