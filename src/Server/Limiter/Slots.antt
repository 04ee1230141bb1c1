-- ===== src/Server/Limiter/Slots.antt =====
-- internal/server/server.go: how many requests hold a slot of the limiter.
use maze_registry_ui.Prelude.{
  ℕ, ◌+◌, ◌≤◌, ◌≡◌, refl, sym, ◌∙◌, List, [], ◌∷◌, Bool, arith, if◌then◌else◌,
}
use maze_registry_ui.Prelude.Bytes.{Bytes, bytes_eq, bytes_eq_iff}
use maze_registry_ui.Server.Limiter.{
  per_registry_concurrency, holding, Job, job, Slots, Act, skip, take, release, leave, cancel, Step,
  Cancels, Reach,
}

-- 1 for a request that holds a slot of the registry
abbrev pub holds : Bytes → Job → ℕ
holds r (job rid holding) = if bytes_eq rid r then 1 else 0
holds r (job rid _) = 0

abbrev pub held : Bytes → List Job → ℕ
held r [] = 0
held r (j ∷ js) = holds r j + held r js

-- Each channel holds one value for each request that has a slot, and no more than its capacity.
pub record IsBounded (s : Slots) (js : List Job) : Type 0 where
  pub counted : (r : Bytes) → s r ≡ held r js
  pub bounded : (r : Bytes) → s r ≤ per_registry_concurrency

module _ {limited : Bytes → Bool} where
  pub Act-counted :
      (r : Bytes) (n : ℕ) {s s' : Slots} {j j' : Job}
      → Act limited s j s' j'
      → s r ≡ holds r j + n
      → s' r ≡ holds r j' + n
  Act-counted r n (skip s rid h) e = e
  Act-counted r n (take s rid h k) e = ground (arith, bytes_eq_iff rid r)
  Act-counted r n (release s rid) e = ground (arith, bytes_eq_iff rid r)
  Act-counted r n (leave s rid) e = e

  Step-counted :
      (r : Bytes) (n : ℕ) {s s' : Slots} {js js' : List Job}
      → Step limited s js s' js'
      → s r ≡ held r js + n
      → s' r ≡ held r js' + n
  Step-counted r n (Step.here js a) e = omega (arith, Act-counted r (held r js + n) a (omega arith))
  Step-counted r n (Step.there j st) e =
      omega (arith, Step-counted r (holds r j + n) st (omega arith))

  Act-le :
      (r : Bytes) {s s' : Slots} {j j' : Job}
      → Act limited s j s' j'
      → s r ≤ per_registry_concurrency
      → s' r ≤ per_registry_concurrency
  Act-le r (skip s rid h) b = b
  Act-le r (take s rid h k) b = ground (arith, bytes_eq_iff rid r)
  Act-le r (release s rid) b = ground (arith, bytes_eq_iff rid r)
  Act-le r (leave s rid) b = b

  Step-le :
      (r : Bytes) {s s' : Slots} {js js' : List Job}
      → Step limited s js s' js'
      → s r ≤ per_registry_concurrency
      → s' r ≤ per_registry_concurrency
  Step-le r (Step.here js a) b = Act-le r a b
  Step-le r (Step.there j st) b = Step-le r st b

  Step-IsBounded :
      {s s' : Slots} {js js' : List Job}
      → Step limited s js s' js'
      → IsBounded s js
      → IsBounded s' js'
  Step-IsBounded {js} {js'} st v = record {
    counted = λ r. omega (arith, Step-counted r 0 st (omega (arith, v.counted r)));
    bounded = λ r. Step-le r st (v.bounded r);
  }

  Cancels-held : (r : Bytes) {js js' : List Job} → Cancels limited js js' → held r js' ≡ held r js
  Cancels-held r (Cancels.here js (cancel rid h)) = refl
  Cancels-held r (Cancels.there j cs) = omega (arith, Cancels-held r cs)

  -- However requests come in, act and are cancelled, the channel of each registry holds as many
  -- values as there are requests that hold a slot for it, and never more than six: at most six
  -- lookups run against one registry at a time.
  pub Reach-IsBounded : {s : Slots} {js : List Job} → Reach limited s js → IsBounded s js
  Reach-IsBounded Reach.start = record { counted = λ r. refl; bounded = λ r. omega arith }
  Reach-IsBounded (Reach.arrive rid run) =
      let v = Reach-IsBounded run in
      record { counted = λ r. omega (arith, v.counted r); bounded = v.bounded }
  Reach-IsBounded (Reach.act run st) = Step-IsBounded st (Reach-IsBounded run)
  Reach-IsBounded (Reach.drop run cs) =
      let v = Reach-IsBounded run in
      record { counted = λ r. v.counted r ∙ sym (Cancels-held r cs); bounded = v.bounded }
