-- ===== src/Examples/Requests.antt =====
-- Request ids (generator.go), the database (db.go) and the HTTP handlers (api/server.go) in short
-- runs.
use harmony_db.Base.{
  ℕ, ◌≡◌, ◌≢◌, refl, true, Option, none, some, List, [], ◌∷◌, arith, bind_some, ◌>>=◌,
}
use harmony_db.Base.Maps
use harmony_db.Proto.{Log, get_key, get_value}
use harmony_db.Tree.Page.{
  compare_bytes, bytes_equal, find_cell, find_ins_point_for_key, is_full, mark_dirty,
  insert_leaf_cell, update_cell,
}
use harmony_db.Tree.Store
use harmony_db.Tree.Store.{BTree, new_btree}
use harmony_db.Wal.{LogManager, empty_manager}
use harmony_db.Replay.{Meta, replay_wal}
use harmony_db.Wal.Indexing.{with_ids_to, with_ids_from}
use harmony_db.Wait.{is_closed, new_waiter}
use harmony_db.Wait.Wakes.{new_waiter-IsSound, register-IsSound}
use harmony_db.Wait.Several.{is_one_of}
use harmony_db.WaitTime.{new_wait_time}
use harmony_db.WaitTime.Wakes.{new_wait_time-IsSound}
use harmony_db.Generator.{new_generator}
use harmony_db.Generator.Distinct.{nth_id, ids_distinct, members_distinct}
use harmony_db.Node.{Node, ToApply, new_node}
use harmony_db.Database.{Db, open_db, publish, wake_readers, apply_job, start_put, wait_for}
use harmony_db.Database.Apply.{put_all, ids_of, apply_job-total}
use harmony_db.Database.Run.{here, next, applying}
use harmony_db.Database.Acknowledge.{run_puts, put_acknowledged}
use harmony_db.Database.Reads.{Running, ReadRun, publishing, idle, waited, get_waits_for_job}
use harmony_db.Database.Replayed.{job_of, restored, kept, replay_wal-apply_job}
use harmony_db.Api.{
  Method, PutRequest, GetRequest, Request, Backend, Reply, successfully_stored_key, handle_put,
  handle_get,
}
use harmony_db.Api.Replies.{to_put, to_get, serve_all, serve_all-calls, put_then_get}

ids_distinct_example : nth_id 2 (new_generator 3 1000000000) ≢ nth_id 5 (new_generator 3 1000000000)
ids_distinct_example = ids_distinct 3 1000000000 2 5 (omega arith) (omega arith) (omega arith)

members_distinct_example :
    nth_id 0 (new_generator 1 1000000000) ≢ nth_id 0 (new_generator 2 1000000000)
members_distinct_example =
    members_distinct 1 2 1000000000 1000000000 0 0 (omega arith) (omega arith)
      (λ e. omega (arith, e))

abbrev client_put : ℕ → ℕ → Log
client_put id value = record {
  term = 1;
  id = id;
  cmd = some (record { op = 80 ∷ 85 ∷ 84 ∷ []; key = 7 ∷ []; value = value ∷ []; request_id = id });
}

abbrev job : ToApply
job = record { entries = client_put 1 70 ∷ client_put 2 71 ∷ []; commit_index = 2 }

abbrev no_meta : Meta
no_meta = record { last_commit = 0; last_applied = 0 }

abbrev opened : Db
opened = record {
  kv = new_btree;
  meta = no_meta;
  waiter = new_waiter;
  apply_wait = new_wait_time;
  generator = new_generator 1 1000000000;
  last_commit_index = 0;
}

open_done : open_db 1 new_btree no_meta (empty_manager []) 1 1000000000 ≡ some opened
unfolding open_db replay_wal
open_done = refl

abbrev queue : Node
queue = new_node 1 (1 ∷ [])

abbrev waiting : Db
waiting = (start_put (7 ∷ []) (9 ∷ []) queue opened).db

-- The tree with one pair, after a put of `value`.
abbrev holding : ℕ → BTree
holding value = record {
  pages =
      (
        0,
        record {
          is_dirty = true;
          is_leaf = true;
          file_offset = 0;
          offsets = 0 ∷ [];
          internal_cell = [];
          leaf_cell = record { key_size = 1; val_size = 1; key = 7 ∷ []; val = value ∷ [] } ∷ [];
        },
      )
      ∷ [];
  root_offset = 0;
  next_free_offset = 4096;
}

puts_done : put_all 1 job.entries new_btree ≡ some (holding 71)
unfolding put_all new_btree Store.put Maps.get Maps.put get_key get_value find_cell
    find_ins_point_for_key is_full mark_dirty insert_leaf_cell compare_bytes update_cell
puts_done = refl

apply_job-total_example : (after : Db) × (apply_job 1 job opened ≡ some after)
apply_job-total_example =
    apply_job-total 1 job opened (holding 71) puts_done ((_, refl), ((_, refl), tt))
      new_waiter-IsSound new_wait_time-IsSound

applied : (after : Db) × (apply_job 1 job opened ≡ some after)
applied =
    apply_job-total 1 job opened (holding 71) puts_done ((_, refl), ((_, refl), tt))
      new_waiter-IsSound new_wait_time-IsSound

run_puts_example : put_all 1 job.entries new_btree ≡ some applied.0.kv
run_puts_example = run_puts 1 opened applied.0 job.entries (next here (applying job applied.1))

-- The database between the last two statements of the job.
published : (now : Db) × (publish 1 job opened ≡ some now)
unfolding apply_job
published =
    let (now, done, rest) = bind_some (publish 1 job opened) (wake_readers 2) applied.0 applied.1 in
    (now, done)

abbrev in_between : Running
in_between = record { db = published.0; to_wake = some 2 }

in_between-ReadRun : ReadRun 1 (idle opened) in_between
in_between-ReadRun = ReadRun.next ReadRun.here (publishing job (omega arith) published.1)

get_waits_for_job_example :
    (after : Db) × (wake_readers 2 (wait_for published.0.last_commit_index published.0).1
      ≡ some after)
    × (is_closed (wait_for published.0.last_commit_index published.0).0 after.apply_wait.closed
        ≡ true)
get_waits_for_job_example =
    get_waits_for_job 1 new_btree no_meta (empty_manager []) 1 1000000000 opened in_between
      in_between (waited published.0.last_commit_index in_between) open_done in_between-ReadRun
      ReadRun.here ReadRun.here

-- The job that applies the put which waits.
abbrev answer : ToApply
answer = record {
  entries =
      record {
        term = 1;
        id = 1;
        cmd = some (record {
          op = 80 ∷ 85 ∷ 84 ∷ [];
          key = 7 ∷ [];
          value = 9 ∷ [];
          request_id = (start_put (7 ∷ []) (9 ∷ []) queue opened).id;
        });
      }
      ∷ [];
  commit_index = 1;
}

put_done : put_all 1 answer.entries waiting.kv ≡ some (holding 9)
unfolding put_all start_put new_btree Store.put Maps.get Maps.put get_key get_value find_cell
    find_ins_point_for_key is_full mark_dirty insert_leaf_cell
put_done = refl

answered : (after : Db) × (apply_job 1 answer waiting ≡ some after)
unfolding start_put
answered =
    apply_job-total 1 answer waiting (holding 9) put_done ((_, refl), tt)
      (register-IsSound _ new_waiter new_waiter-IsSound) new_wait_time-IsSound

put_acknowledged_example :
    is_closed (start_put (7 ∷ []) (9 ∷ []) queue opened).blocking_chan answered.0.waiter.closed
    ≡ is_one_of (start_put (7 ∷ []) (9 ∷ []) queue opened).id (ids_of answer.entries)
put_acknowledged_example =
    put_acknowledged 1 new_btree no_meta (empty_manager []) 1 1000000000 opened opened answered.0 []
      answer.entries (7 ∷ []) (9 ∷ []) queue open_done here (next here (applying answer answered.1))

-- The database after a crash before the job's end: the two entries are committed, and not applied.
abbrev crashed : Db
crashed = record opened { meta = record { last_commit = 2; last_applied = 0 } }

abbrev written : LogManager
written = record (empty_manager []) { logs = job.entries }

replay_wal-apply_job_example :
    (replay_wal 1 crashed.kv crashed.meta written >>= λ r. some (restored r))
    ≡ (apply_job 1 (job_of crashed written) crashed >>= λ d. some (kept d))
unfolding bytes_equal compare_bytes with_ids_to with_ids_from
replay_wal-apply_job_example =
    replay_wal-apply_job 1 crashed written (refl, (refl, tt)) (omega arith)
      (
        record { cmd = _; present = refl; put = refl },
        (record { cmd = _; present = refl; put = refl }, tt),
      )
      new_waiter-IsSound new_wait_time-IsSound

-- A store that is one pair, and refuses the value 0.
abbrev cell : Backend (Option (List ℕ)) ℕ
cell = record {
  put = λ key val s. elim val [ [] ↦ (some 1, s) | b ∷ bs ↦ (none, some (b ∷ bs)) ];
  get = λ key s. elim s [ none ↦ (([], some 2), none) | some v ↦ ((v, none), some v) ];
}

abbrev put_7 : Request PutRequest
put_7 = record { method = Method.post; body = some (record { key = 7 ∷ []; value = 70 ∷ [] }) }

abbrev get_7 : Request GetRequest
get_7 = record { method = Method.post; body = some (record { key = 7 ∷ [] }) }

abbrev without_body : Request PutRequest
without_body = record { method = Method.post; body = none }

serve_all-calls_example :
    serve_all cell (to_put put_7 ∷ to_put without_body ∷ to_get get_7 ∷ []) none
    ≡ (200 ∷ 400 ∷ 200 ∷ [], some (70 ∷ []))
serve_all-calls_example =
    serve_all-calls cell (to_put put_7 ∷ to_put without_body ∷ to_get get_7 ∷ []) none

put_then_get_example :
    ((handle_put cell put_7 none).0 ≡ Reply.message 200 (successfully_stored_key (7 ∷ [])))
    × ((handle_get cell get_7
          (serve_all cell (to_put without_body ∷ []) (handle_put cell put_7 none).1).1).0
        ≡ Reply.value 200 (70 ∷ []))
put_then_get_example =
    put_then_get cell (7 ∷ []) (70 ∷ []) none (to_put without_body ∷ [])
      (λ e. absurd (ground (arith, e))) refl refl (refl, tt)
