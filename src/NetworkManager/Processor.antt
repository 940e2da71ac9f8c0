-- ===== src/NetworkManager/Processor.antt =====
-- prototype/daemon/networking/network_manager.cc, `async_task_processor` beside `poll_network`: the
-- thread's passes over the futures and the futures that polls add, in the order in which the two get
-- the mutex.
use friendviewer.Prelude.{
  suc, ◌≡◌, refl, sym, ◌∙◌, ap, inl, inr, Bool, Bool-cases, true, false, Option, none, some, List,
  [], ◌∷◌, ◌++◌, length, append_assoc, append-nil, if◌then◌else◌,
}
use friendviewer.NetworkManager.{Task, sweep}
use friendviewer.NetworkManager.Tasks.{unfinished, sweep-unfinished}

-- A future that a poll adds, or a pass over them; `ready` is what they answer in this pass.
pub data TaskStep {ℓ} (Cb : Type ℓ) : Type ℓ where
  starts : Task Cb → TaskStep Cb
  passes : (Task Cb → Bool) → TaskStep Cb

module _ {ℓ} {Cb : Type ℓ} where
  unfoldable pub task_step : TaskStep Cb → List (Task Cb) → Option (List (Task Cb))
  task_step (starts t) tasks = some (tasks ++ (t ∷ []))
  task_step (passes ready) tasks = sweep ready (suc (length tasks)) 0 tasks

  unfoldable pub task_steps : List (TaskStep Cb) → List (Task Cb) → Option (List (Task Cb))
  task_steps [] tasks = some tasks
  task_steps (step ∷ steps) tasks = elim (task_step step tasks) [
    | none ↦ none
    | some tasks' ↦ task_steps steps tasks'
  ]

  -- No pass of these finds the future ready.
  abbrev pub never_ready : List (TaskStep Cb) → Task Cb → Bool
  never_ready [] t = true
  never_ready (starts _ ∷ later) t = never_ready later t
  never_ready (passes ready ∷ later) t = if ready t then false else never_ready later t

  -- The futures that no pass of these finds ready.
  abbrev pub waiting : List (TaskStep Cb) → List (Task Cb) → List (Task Cb)
  waiting steps [] = []
  waiting steps (t ∷ ts) = if never_ready steps t then t ∷ waiting steps ts else waiting steps ts

  -- The futures that were added and then found ready by no later pass.
  abbrev pub added : List (TaskStep Cb) → List (Task Cb)
  added [] = []
  added (starts t ∷ later) = waiting later (t ∷ []) ++ added later
  added (passes ready ∷ later) = added later

  waiting-nil : (ts : List (Task Cb)) → waiting [] ts ≡ ts
  waiting-nil [] = refl
  waiting-nil (t ∷ ts) = ap (◌∷◌ t) (waiting-nil ts)

  waiting-append :
      (steps : List (TaskStep Cb)) (ts us : List (Task Cb))
      → waiting steps (ts ++ us) ≡ waiting steps ts ++ waiting steps us
  waiting-append steps [] us = refl
  waiting-append steps (t ∷ ts) us = elim (Bool-cases (never_ready steps t)) [
    | inl k ↦ rw k (ap (◌∷◌ t) (waiting-append steps ts us))
    | inr k ↦ rw k (waiting-append steps ts us)
  ]

  waiting-starts :
      (t : Task Cb) (later : List (TaskStep Cb)) (ts : List (Task Cb))
      → waiting (starts t ∷ later) ts ≡ waiting later ts
  waiting-starts t later [] = refl
  waiting-starts t later (u ∷ us) =
      ap (λ l. if never_ready later u then u ∷ l else l) (waiting-starts t later us)

  waiting-passes :
      (ready : Task Cb → Bool) (later : List (TaskStep Cb)) (ts : List (Task Cb))
      → waiting later (unfinished ready ts) ≡ waiting (passes ready ∷ later) ts
  waiting-passes ready later [] = refl
  waiting-passes ready later (t ∷ ts) = elim (Bool-cases (ready t)) [
    | inl r ↦ rw (r, unfinished, never_ready) (waiting-passes ready later ts)
    | inr r ↦
        rw (r, unfinished, never_ready)
          (ap (λ l. if never_ready later t then t ∷ l else l) (waiting-passes ready later ts))
  ]

  -- The futures that wait are, after any additions and passes of the thread in any order, those of
  -- before and then those added that no pass since has found ready, in the order in which they were
  -- added: each is kept until it is ready, none is skipped by a pass, and every pass ends.
  pub task_steps-waiting :
      (steps : List (TaskStep Cb)) (tasks : List (Task Cb))
      → task_steps steps tasks ≡ some (waiting steps tasks ++ added steps)
  unfolding task_steps task_step
  task_steps-waiting [] tasks = ap some (sym (append-nil (waiting [] tasks) ∙ waiting-nil tasks))
  task_steps-waiting (starts t ∷ later) tasks =
      task_steps-waiting later (tasks ++ (t ∷ []))
      ∙ ap (λ l. some (l ++ added later)) (waiting-append later tasks (t ∷ []))
      ∙ ap some (append_assoc (waiting later tasks) (waiting later (t ∷ [])) (added later))
      ∙ ap (λ l. some (l ++ (waiting later (t ∷ []) ++ added later)))
          (sym (waiting-starts t later tasks))
  task_steps-waiting (passes ready ∷ later) tasks =
      rw (sweep-unfinished ready tasks, task_steps)
        (task_steps-waiting later (unfinished ready tasks)
          ∙ ap (λ l. some (l ++ added later)) (waiting-passes ready later tasks))
