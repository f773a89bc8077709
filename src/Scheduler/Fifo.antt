-- ===== src/Scheduler/Fifo.antt =====
-- The order of the scheduler's jobs (scheduler/scheduler.go).
use mathlib.Core.List.{append-nil, append_assoc}
use harmony_db.Base.{◌≡◌, refl, sym, ◌∙◌, ap, List, [], ◌∷◌, ◌++◌, ℕ, zero, suc, length}
use harmony_db.Scheduler.{
  Job, new_fifo_scheduler, add_task, run_one, Event, adding, running, on_event, play,
}

module _ {ℓ} {S : Type ℓ} where
  -- The jobs of the events, in the order in which they are added.
  unfoldable pub added_jobs : List (Event S) → List (Job S)
  added_jobs [] = []
  added_jobs (adding job ∷ es) = job ∷ added_jobs es
  added_jobs (running ∷ es) = added_jobs es

  -- The jobs' effects, one after the other.
  unfoldable pub run_all : List (Job S) → S → S
  run_all [] s = s
  run_all (job ∷ jobs) s = run_all jobs (job.effect s)

  played :
      (es : List (Event S)) (queue : List (Job S)) (s : S)
      → (done : List (Job S)) × (done ++ (play es (record { queue = queue }, s)).0.queue
          ≡ queue ++ added_jobs es)
        × ((play es (record { queue = queue }, s)).1 ≡ run_all done s)
  unfolding play on_event add_task run_one added_jobs run_all
  played [] queue s = ([], sym (append-nil queue), refl)
  played (adding job ∷ es) queue s =
      let (done, e, p) = played es (queue ++ (job ∷ [])) s in
      (done, e ∙ append_assoc queue (job ∷ []) (added_jobs es), p)
  played (running ∷ es) [] s = played es [] s
  played (running ∷ es) (job ∷ jobs) s =
      let (done, e, p) = played es jobs (job.effect s) in (job ∷ done, ap (◌∷◌ job) e, p)

  -- Whatever the interleaving of additions and rounds, some jobs are done and the others wait, in
  -- all exactly the added ones in the order of their addition, and the state is what the done jobs
  -- make of it one after the other in that order.
  pub jobs_in_order :
      (es : List (Event S)) (s : S)
      → (done : List (Job S)) × (done ++ (play es (new_fifo_scheduler, s)).0.queue ≡ added_jobs es)
        × ((play es (new_fifo_scheduler, s)).1 ≡ run_all done s)
  unfolding new_fifo_scheduler
  jobs_in_order es s = played es [] s

  unfoldable pub rounds : ℕ → List (Event S)
  rounds zero = []
  rounds (suc n) = running ∷ rounds n

  -- As many rounds as there are jobs do them all, in order, and leave the queue empty.
  pub rounds_drain :
      (queue : List (Job S)) (s : S)
      → play (rounds (length queue)) (record { queue = queue }, s)
        ≡ (record { queue = [] }, run_all queue s)
  unfolding play on_event run_one run_all rounds
  rounds_drain [] s = refl
  rounds_drain (job ∷ jobs) s = rounds_drain jobs (job.effect s)
