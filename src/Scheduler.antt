-- ===== src/Scheduler.antt =====
-- scheduler/scheduler.go: the FIFO scheduler. A job's effect on the state of the program is a
-- function; its name is only for the reader. The goroutine of `run` waits while the queue is empty.
pub mod Fifo
use harmony_db.Base.{ℕ, Option, none, some, List, [], ◌∷◌, ◌++◌}

pub record Job {ℓ} (S : Type ℓ) : Type ℓ where
  pub name : List ℕ
  pub effect : S → S

pub record FifoScheduler {ℓ} (S : Type ℓ) : Type ℓ where
  pub queue : List (Job S)

module _ {ℓ} {S : Type ℓ} where
  unfoldable pub new_fifo_scheduler : FifoScheduler S
  new_fifo_scheduler = record { queue = [] }

  unfoldable pub add_task : Job S → FifoScheduler S → FifoScheduler S
  add_task job f = record f { queue = f.queue ++ (job ∷ []) }

  -- `nextTask` on a queue that is not empty; `none` where `run` waits.
  unfoldable pub next_task : FifoScheduler S → Option (Job S × FifoScheduler S)
  next_task f = elim f.queue [ [] ↦ none | job ∷ jobs ↦ some (job, record f { queue = jobs }) ]

  -- One round of `run`: the scheduler, and the program's state.
  unfoldable pub run_one : FifoScheduler S → S → Option (FifoScheduler S × S)
  unfolding next_task
  run_one f s = elim (next_task f) [ none ↦ none | some (job, f1) ↦ some (f1, job.effect s) ]

-- What happens to a scheduler: a job is added, or the goroutine goes round once.
pub data Event {ℓ} (S : Type ℓ) : Type ℓ where
  adding : Job S → Event S
  running : Event S

module _ {ℓ} {S : Type ℓ} where
  unfoldable pub ran : Option (FifoScheduler S × S) → FifoScheduler S × S → FifoScheduler S × S
  ran none now = now
  ran (some after) now = after

  unfoldable pub on_event : Event S → FifoScheduler S × S → FifoScheduler S × S
  unfolding ran
  on_event (adding job) now = (add_task job now.0, now.1)
  on_event running now = ran (run_one now.0 now.1) now

  unfoldable pub play : List (Event S) → FifoScheduler S × S → FifoScheduler S × S
  play [] now = now
  play (e ∷ es) now = play es (on_event e now)
