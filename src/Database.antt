-- ===== src/Database.antt =====
-- db.go: the database of a node, around the tree, the waiters, the ids and the raft node. Go's
-- contexts are the choice of a `select` to give up; their deadlines are left out.
pub mod Run
pub mod Apply
pub mod Acknowledge
pub mod Replayed
pub mod Reads
use harmony_db.Base.{
  ℕ, zero, suc, ◌+◌, ◌≡◌, Bool, true, false, Option, none, some, List, [], ◌∷◌, ◌>>=◌,
}
use harmony_db.Proto.{Cmd, Log, Message, MessageType, AppendEntries, bare, get_key, get_value}
use harmony_db.Wal.{LogManager}
use harmony_db.Tree.Page.{Key, u16}
use harmony_db.Tree.Store
use harmony_db.Tree.Store.{BTree, Found}
use harmony_db.Replay.{Meta, replay_wal}
use harmony_db.Wait
use harmony_db.Wait.{Waiter, new_waiter, is_closed, register}
use harmony_db.WaitTime
use harmony_db.WaitTime.{WaitTime, new_wait_time, wait}
use harmony_db.Generator.{Generator, new_generator, next}
use harmony_db.Scheduler.{Job, FifoScheduler, add_task}
use harmony_db.Node.{Node, ToApply, process}

-- The scheduler and the raft node stand beside it. The metadata file is its two numbers.
pub record Db : Type 0 where
  pub kv : BTree
  pub meta : Meta
  pub waiter : Waiter
  pub apply_wait : WaitTime
  pub generator : Generator
  pub last_commit_index : ℕ

-- `Open`, on the tree, the metadata and the write-ahead log that it finds.
unfoldable pub open_db : ℕ → BTree → Meta → LogManager → ℕ → ℕ → Option Db
open_db depth b meta lm node_id now = replay_wal depth b meta lm >>= λ after. some (record {
  kv = after.0;
  meta = after.1;
  waiter = new_waiter;
  apply_wait = new_wait_time;
  generator = new_generator (u16 node_id) now;
  last_commit_index = 0;
})

-- The body of the loop over the entries: the database, and the last applied index. Reading the
-- request id of an entry without data is a nil pointer.
unfoldable pub apply_entry : ℕ → Log → Db × ℕ → Option (Db × ℕ)
apply_entry depth e now = Store.put depth (get_key e.cmd) (get_value e.cmd) now.0.kv >>= λ kv.
    e.cmd >>= λ c. Wait.trigger c.request_id now.0.waiter >>= λ waiter.
    some (record now.0 { kv = kv; waiter = waiter }, e.id)

unfoldable pub apply_entries : ℕ → List Log → Db × ℕ → Option (Db × ℕ)
unfolding apply_entry
apply_entries depth [] now = some now
apply_entries depth (e ∷ es) now = apply_entry depth e now >>= λ after. apply_entries depth es after

-- `updateMeta`, if there was an entry.
unfoldable pub applied_meta : List Log → ℕ → ℕ → Meta → Meta
applied_meta [] last_applied commit_index meta = meta
applied_meta (e ∷ es) last_applied commit_index meta = record {
  last_commit = commit_index;
  last_applied = last_applied;
}

-- The job up to the assignment of `lastCommitIndex`; a get may begin behind it.
unfoldable pub publish : ℕ → ToApply → Db → Option Db
unfolding apply_entries applied_meta
publish depth ta db = apply_entries depth ta.entries (db, 0) >>= λ after. some (record after.0 {
  meta = applied_meta ta.entries after.1 ta.commit_index after.0.meta;
  last_commit_index = ta.commit_index;
})

-- The last statement of the job.
unfoldable pub wake_readers : ℕ → Db → Option Db
wake_readers commit_index db =
    WaitTime.trigger commit_index db.apply_wait >>= λ w. some (record db { apply_wait = w })

-- The function of the job "applier", if no other function of the database comes in between.
unfoldable pub apply_job : ℕ → ToApply → Db → Option Db
unfolding publish wake_readers
apply_job depth ta db = publish depth ta db >>= wake_readers ta.commit_index

-- A round of `applyLoop`: the job is queued. A job that panicked leaves no database.
unfoldable pub on_apply : ℕ → ToApply → FifoScheduler (Option Db) → FifoScheduler (Option Db)
unfolding apply_job
on_apply depth ta f = add_task (record { name = []; effect = λ db. db >>= apply_job depth ta }) f

-- `"PUT"`
abbrev pub put_op : List ℕ
put_op = 80 ∷ 85 ∷ 84 ∷ []

unfoldable pub put_message : ℕ → Key → List ℕ → Message
put_message id key val = record (bare MessageType.msg_app) {
  entries = some (record {
    term = 0;
    leader_id = 0;
    prev_log_idx = 0;
    prev_log_term = 0;
    entries =
        record {
          term = 0;
          id = 0;
          cmd = some (record { op = put_op; key = key; value = val; request_id = id });
        }
        ∷ [];
    leader_commit_idx = 0;
  });
}

-- `Put` up to its `select`.
pub record Started : Type 0 where
  pub id : ℕ
  pub blocking_chan : ℕ
  pub accepted : Bool
  pub node : Node
  pub db : Db

unfoldable pub start_put : Key → List ℕ → Node → Db → Started
unfolding put_message
start_put key val n db =
    let (id, g) = next db.generator in
    let (ch, w) = register id db.waiter in
    let (n1, accepted) = process (put_message id key val) n in
    record {
      id = id;
      blocking_chan = ch;
      accepted = accepted;
      node = n1;
      db = record db { generator = g; waiter = w };
    }

pub data PutResult : Type 0 where
  stored consensus_error put_timeout : PutResult

-- What `Put` may return when the database has come to `db`; an expired context is always possible.
pub data PutEnds (s : Started) (db : Db) : PutResult → Type 0 where
  refused : s.accepted ≡ false → PutEnds s db consensus_error
  woken :
      s.accepted ≡ true → is_closed s.blocking_chan db.waiter.closed ≡ true → PutEnds s db stored
  expired : s.accepted ≡ true → PutEnds s db put_timeout

-- The call of `Wait` in `Get`, for the index that it has read: the channel, and the database.
unfoldable pub wait_for : ℕ → Db → ℕ × Db
wait_for index db = let (ch, w) = wait index db.apply_wait in (ch, record db { apply_wait = w })

-- `Get` up to its `select`, if no other function comes in between.
unfoldable pub start_get : Db → ℕ × Db
unfolding wait_for
start_get db = wait_for db.last_commit_index db

pub data GetResult : Type 0 where
  found : Found → GetResult
  get_timeout : GetResult

pub data GetEnds (depth : ℕ) (key : Key) (ch : ℕ) (db : Db) : GetResult → Type 0 where
  ready :
      {f : Found}
      → is_closed ch db.apply_wait.closed ≡ true
      → Store.get depth key db.kv ≡ some f
      → GetEnds depth key ch db (found f)
  late : GetEnds depth key ch db get_timeout
