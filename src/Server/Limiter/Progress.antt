-- ===== src/Server/Limiter/Progress.antt =====
-- internal/server/server.go: runs of the limiter to the end of all requests.
use maze_registry_ui.Prelude.{
  ◌+◌, ◌-◌, ◌<◌, ◌≡◌, List, [], ◌∷◌, map, Bool, arith, Bool-cases, inl, inr,
}
use maze_registry_ui.Prelude.Bytes.{Bytes}
use maze_registry_ui.Server.Handlers.{update}
use maze_registry_ui.Server.Limiter.{
  per_registry_concurrency, waiting, holding, unlimited, served, cancelled, Job, job, Slots, Act,
  skip, take, release, leave, Step, Runs, stop, next, Reach,
}
use maze_registry_ui.Server.Limiter.Slots.{holds, held, Act-counted, Reach-IsBounded}

-- a request whose handler is running returns
abbrev returned : Job → Job
returned (job rid holding) = job rid served
returned (job rid unlimited) = job rid served
returned (job rid p) = job rid p

-- every request has been served, but those that were cancelled
abbrev pub finished : Job → Job
finished (job rid cancelled) = job rid cancelled
finished (job rid _) = job rid served

module _ {limited : Bytes → Bool} where
  Runs-trans :
      {s t : Slots} {js ks : List Job} {u : Slots} {ls : List Job}
      → Runs limited s js t ks
      → Runs limited t ks u ls
      → Runs limited s js u ls
  Runs-trans run stop = run
  Runs-trans run (next more st) = next (Runs-trans run more) st

  Runs-there :
      (j : Job) {s : Slots} {js : List Job} {t : Slots} {ks : List Job}
      → Runs limited s js t ks
      → Runs limited s (j ∷ js) t (j ∷ ks)
  Runs-there j stop = stop
  Runs-there j (next run st) = next (Runs-there j run) (Step.there j st)

  first_acts :
      {s t : Slots} {j j' : Job} (js : List Job)
      → Act limited s j t j'
      → Runs limited s (j ∷ js) t (j' ∷ js)
  first_acts js a = next stop (Step.here js a)

  return_first :
      (j : Job) (js : List Job) (s extra : Slots)
      → ((r : Bytes) → s r ≡ holds r j + extra r)
      → (t : Slots) × Runs limited s (j ∷ js) t (returned j ∷ js) × ((r : Bytes) → t r ≡ extra r)
  return_first (job rid waiting) js s extra e = (s, stop, λ r. omega (arith, e r))
  return_first (job rid served) js s extra e = (s, stop, λ r. omega (arith, e r))
  return_first (job rid cancelled) js s extra e = (s, stop, λ r. omega (arith, e r))
  return_first (job rid unlimited) js s extra e =
      (s, first_acts js (leave s rid), λ r. omega (arith, e r))
  return_first (job rid holding) js s extra e = (
    update rid (s rid - 1) s,
    first_acts js (release s rid),
    λ r. omega (arith, Act-counted r (extra r) (release s rid) (e r)),
  )

  all_return :
      (js : List Job) (s extra : Slots)
      → ((r : Bytes) → s r ≡ held r js + extra r)
      → (t : Slots) × Runs limited s js t (map returned js) × ((r : Bytes) → t r ≡ extra r)
  all_return [] s extra e = (s, stop, λ r. omega (arith, e r))
  all_return (j ∷ js) s extra e =
      let (t, run, left) = all_return js s (λ r. holds r j + extra r) (λ r. omega (arith, e r)) in
      let (u, last, end) = return_first j (map returned js) t extra left in
      (u, Runs-trans (Runs-there j run) last, end)

  -- a request that waits while no slot is taken is served
  serve_waiting :
      (rid : Bytes) (js : List Job) (s : Slots)
      → ((r : Bytes) → s r ≡ 0)
      → (t : Slots) × Runs limited s (job rid waiting ∷ js) t (job rid served ∷ js)
        × ((r : Bytes) → t r ≡ 0)
  serve_waiting rid js s e = elim (Bool-cases (limited rid)) [
    | inl h ↦
        let room : s rid < per_registry_concurrency = omega (arith, e rid) in
        let t = update rid (s rid + 1) s in
        let enter : Act limited s (job rid waiting) t (job rid holding) = take s rid h room in
        let exit : Act limited t (job rid holding) (update rid (t rid - 1) t) (job rid served) =
          release t rid in
        (
          update rid (t rid - 1) t,
          Runs-trans (first_acts js enter) (first_acts js exit),
          λ r. omega (arith, Act-counted r 0 exit (Act-counted r 0 enter (omega (arith, e r)))),
        )
    | inr h ↦ (s, Runs-trans (first_acts js (skip s rid h)) (first_acts js (leave s rid)), e)
  ]

  serve_first :
      (j : Job) (js : List Job) (s : Slots)
      → ((r : Bytes) → s r ≡ 0)
      → (t : Slots) × Runs limited s (returned j ∷ js) t (finished j ∷ js) × ((r : Bytes) → t r ≡ 0)
  serve_first (job rid waiting) js s e = serve_waiting rid js s e
  serve_first (job rid served) js s e = (s, stop, e)
  serve_first (job rid cancelled) js s e = (s, stop, e)
  serve_first (job rid unlimited) js s e = (s, stop, e)
  serve_first (job rid holding) js s e = (s, stop, e)

  all_served :
      (js : List Job) (s : Slots)
      → ((r : Bytes) → s r ≡ 0)
      → (t : Slots) × Runs limited s (map returned js) t (map finished js) × ((r : Bytes) → t r ≡ 0)
  all_served [] s e = (s, stop, e)
  all_served (j ∷ js) s e =
      let (t, run, left) = all_served js s e in
      let (u, last, end) = serve_first j (map finished js) t left in
      (u, Runs-trans (Runs-there (returned j) run) last, end)

  -- From every state that can be reached there is a run, without another cancellation, after
  -- which every request that was not cancelled has been served and every channel is empty: no
  -- slot is lost when a request ends or is cancelled, and no request can be blocked for ever.
  pub Reach-Runs :
      {s : Slots} {js : List Job}
      → Reach limited s js
      → (t : Slots) × Runs limited s js t (map finished js) × ((r : Bytes) → t r ≡ 0)
  Reach-Runs {s} {js} run =
      let v = Reach-IsBounded run in
      let (t, back, none_held) = all_return js s (λ r. 0) (λ r. omega (arith, v.counted r)) in
      let (u, on, end) = all_served js t none_held in (u, Runs-trans back on, end)
