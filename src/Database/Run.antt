-- ===== src/Database/Run.antt =====
-- The runs of a database (db.go): puts and gets that begin, and whole jobs that are done, in any
-- order. Reads has runs in which a get may also begin between the last two statements of a job.
use harmony_db.Base.{
  ℕ, ◌≡◌, refl, sym, ◌∙◌, ap, subst, some, some-injective, List, [], ◌++◌, bind_some, leb,
  Bool-cases, Option-cases, inl, inr,
}
use harmony_db.Base.Maps
use harmony_db.Proto.{Log}
use harmony_db.Tree.Page.{Key}
use harmony_db.Tree.Store.{BTree}
use harmony_db.Wal.{LogManager}
use harmony_db.Replay.{Meta, replay_wal}
use harmony_db.Wait.Wakes.{IsSound, new_waiter-IsSound, register-IsSound}
use harmony_db.Wait.Several.{trigger_all-Triggered}
use harmony_db.WaitTime.{WaitTime, wait}
use harmony_db.WaitTime.Wakes
use harmony_db.WaitTime.Wakes.{
  new_wait_time-IsSound, wait-Given, triggered, trigger-triggered, triggered-IsSound,
}
use harmony_db.Node.{Node, ToApply}
use harmony_db.Database.{Db, open_db, apply_job, start_put, start_get}
use harmony_db.Database.Apply.{ids_of, apply_job-JobDone}

pub data DbStep (depth : ℕ) (db : Db) : List Log → Db → Type 0 where
  putting : (key : Key) (val : List ℕ) (n : Node) → DbStep depth db [] (start_put key val n db).db
  getting : DbStep depth db [] (start_get db).1
  applying :
      {db' : Db} (ta : ToApply) → apply_job depth ta db ≡ some db' → DbStep depth db ta.entries db'

-- A run, with the entries that its jobs applied, in their order.
pub data Run (depth : ℕ) (db : Db) : List Log → Db → Type 0 where
  here : Run depth db [] db
  next :
      {es es' : List Log} {mid db' : Db}
      → Run depth db es mid
      → DbStep depth mid es' db'
      → Run depth db (es ++ es') db'

-- The waiters are sound, and reads wait for what is applied.
pub record IsSteady (db : Db) : Type 0 where
  pub waiter : IsSound db.waiter
  pub apply_wait : Wakes.IsSound db.apply_wait
  pub current : db.apply_wait.last_triggered ≡ db.last_commit_index

pub wait_keeps : (d : ℕ) (w : WaitTime) → (wait d w).1.last_triggered ≡ w.last_triggered
unfolding wait
wait_keeps d w = elim (Bool-cases (leb d w.last_triggered)) [
  | inl e ↦ rw (e, wait) refl
  | inr e ↦ elim (Option-cases (Maps.get d w.m)) [
    | inl new ↦ rw (e, wait, new) refl
    | inr (c, there) ↦ rw (e, wait, there) refl
  ]
]

pub open_db-IsSteady :
    (depth : ℕ) (b : BTree) (meta : Meta) (lm : LogManager) (id now : ℕ) (db : Db)
    → open_db depth b meta lm id now ≡ some db
    → IsSteady db
unfolding open_db
open_db-IsSteady depth b meta lm id now db h =
    let (after, p, q) = bind_some (replay_wal depth b meta lm) _ db h in
    subst IsSteady (some-injective _ _ q)
      (record { waiter = new_waiter-IsSound; apply_wait = new_wait_time-IsSound; current = refl })

pub DbStep-IsSteady :
    (depth : ℕ) (db db' : Db) (es : List Log) → DbStep depth db es db' → IsSteady db → IsSteady db'
unfolding start_put start_get triggered
DbStep-IsSteady depth db db' es (putting key val n) h = record {
  waiter = register-IsSound _ db.waiter h.waiter;
  apply_wait = h.apply_wait;
  current = h.current;
}
DbStep-IsSteady depth db db' es getting h = record {
  waiter = h.waiter;
  apply_wait = (wait-Given db.last_commit_index db.apply_wait h.apply_wait).sound;
  current = wait_keeps db.last_commit_index db.apply_wait ∙ h.current;
}
DbStep-IsSteady depth db db' es (applying ta e) h =
    let j = apply_job-JobDone depth ta db db' e in
    let t = trigger_all-Triggered (ids_of ta.entries) db.waiter h.waiter in
    let w = some-injective _ _ (sym t.done ∙ j.waiter) in
    let v =
      some-injective _ _
        (sym (trigger-triggered ta.commit_index db.apply_wait h.apply_wait) ∙ j.apply_wait) in
    record {
      waiter = subst IsSound w t.sound;
      apply_wait =
          subst Wakes.IsSound v (triggered-IsSound ta.commit_index db.apply_wait h.apply_wait);
      current = sym (ap (λ x. x.last_triggered) v) ∙ sym j.last_commit_index;
    }

pub Run-IsSteady :
    (depth : ℕ) (db db' : Db) (es : List Log) → Run depth db es db' → IsSteady db → IsSteady db'
Run-IsSteady depth db db' es here h = h
Run-IsSteady depth db db' es (next {es' = es'} {mid = mid} r s) h =
    DbStep-IsSteady depth mid db' es' s (Run-IsSteady depth db mid _ r h)
