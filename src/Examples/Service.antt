-- ===== src/Examples/Service.antt =====
-- The waiters (wait.go), the scheduler (scheduler/scheduler.go) and the replay (replay.go) in short
-- runs.
use harmony_db.Base.{
  length, ℕ, ◌+◌, ◌≡◌, refl, some, List, [], ◌∷◌, ◌++◌, ◌==◌, ◌||◌, leb, arith, ◌>>=◌,
}
use harmony_db.Proto.{Log}
use harmony_db.Wait.{Waiter, new_waiter, is_closed, trigger, register, registering, here, next}
use harmony_db.Wait.Wakes.{trigger_wakes_own}
use harmony_db.WaitTime
use harmony_db.WaitTime.{WaitTime, new_wait_time, wait, waiting}
use harmony_db.WaitTime.Wakes.{trigger_wakes_due}
use harmony_db.Scheduler.{
  Job, Event, adding, running, play, on_event, run_one, add_task, new_fifo_scheduler,
}
use harmony_db.Scheduler.Fifo.{added_jobs, run_all, rounds, jobs_in_order, rounds_drain}
use harmony_db.Wal.{LogManager, empty_manager}
use harmony_db.Tree.Store.{new_btree}
use harmony_db.Replay.{Meta, replay_wal}
use harmony_db.Replay.Range.{put_each, client_puts, unapplied, moved, replay_wal-range}

abbrev one_waits : Waiter
one_waits = (register 7 new_waiter).1

trigger_wakes_own_example :
    (w' : Waiter) × (trigger 8 (register 8 one_waits).1 ≡ some w')
    × (is_closed (register 8 one_waits).0 w'.closed ≡ (8 == 8))
trigger_wakes_own_example = trigger_wakes_own one_waits (next here (registering 7)) 8 8

abbrev reader : WaitTime
reader = (wait 9 new_wait_time).1

trigger_wakes_due_example :
    (w' : WaitTime) × (WaitTime.trigger 6 (wait 5 reader).1 ≡ some w')
    × (is_closed (wait 5 reader).0 w'.closed ≡ (leb 5 reader.last_triggered || leb 5 6))
trigger_wakes_due_example =
    trigger_wakes_due reader (WaitTime.Reach.next WaitTime.Reach.here (waiting 9)) 5 6

abbrev double : Job ℕ
double = record { name = []; effect = λ n. n + n }

abbrev increment : Job ℕ
increment = record { name = []; effect = λ n. n + 1 }

abbrev events : List (Event ℕ)
events = adding increment ∷ running ∷ running ∷ adding double ∷ adding increment ∷ running ∷ []

jobs_in_order_example :
    (done : List (Job ℕ)) × (done ++ (play events (new_fifo_scheduler, 5)).0.queue
      ≡ added_jobs events)
    × ((play events (new_fifo_scheduler, 5)).1 ≡ run_all done 5)
jobs_in_order_example = jobs_in_order events 5

rounds_drain_example :
    play (rounds 2) (record { queue = increment ∷ double ∷ [] }, 5)
    ≡ (record { queue = [] }, run_all (increment ∷ double ∷ []) 5)
rounds_drain_example = rounds_drain (increment ∷ double ∷ []) 5

doubled_after : (play events (new_fifo_scheduler, 5)).1 ≡ 12
unfolding play on_event run_one add_task new_fifo_scheduler
doubled_after = refl

abbrev put_entry : ℕ → Log
put_entry id = record {
  term = 1;
  id = id;
  cmd = some (record { op = 80 ∷ 85 ∷ 84 ∷ []; key = 107 ∷ []; value = id ∷ []; request_id = 0 });
}

abbrev stored_logs : LogManager
stored_logs = record (empty_manager []) { logs = put_entry 1 ∷ put_entry 2 ∷ put_entry 3 ∷ [] }

abbrev behind : Meta
behind = record { last_commit = 2; last_applied = 1 }

replay_wal-range_example : replay_wal 1 new_btree behind stored_logs ≡ (
    put_each 1 (client_puts (unapplied behind stored_logs)) new_btree >>= λ b.
    some (moved behind (length (client_puts (unapplied behind stored_logs))) b))
replay_wal-range_example =
    replay_wal-range 1 new_btree behind stored_logs (refl, (refl, (refl, tt))) (omega arith)
