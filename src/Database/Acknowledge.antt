-- ===== src/Database/Acknowledge.antt =====
-- What a put that returns can rely on (db.go).
use harmony_db.Base.{
  ℕ, ◌≡◌, refl, sym, ◌∙◌, subst, Bool, true, false, some, some-injective, List, [], ◌∷◌, ◌++◌, ◌||◌,
  ◌==◌, Option-cases, inl, inr, ◌>>=◌,
}
use harmony_db.Proto.{Log, get_key, get_value, get_request_id}
use harmony_db.Tree.Page.{Key}
use harmony_db.Tree.Store
use harmony_db.Tree.Store.{BTree}
use harmony_db.Wal.{LogManager}
use harmony_db.Replay.{Meta}
use harmony_db.Wait.{Waiter, is_closed}
use harmony_db.Wait.Several.{
  Awaits, is_one_of, trigger_all-Triggered, Awaits-closed, register-Awaits, registered-Awaits,
}
use harmony_db.Node.{Node}
use harmony_db.Database.{Db, open_db, start_put, start_get}
use harmony_db.Database.Apply.{put_all, ids_of, apply_job-JobDone}
use harmony_db.Database.Run.{
  DbStep, putting, getting, applying, Run, here, next, IsSteady, open_db-IsSteady, DbStep-IsSteady,
  Run-IsSteady,
}

put_all-append :
    (depth : ℕ) (es es' : List Log) (b : BTree)
    → put_all depth (es ++ es') b ≡ (put_all depth es b >>= λ b1. put_all depth es' b1)
unfolding put_all
put_all-append depth [] es' b = refl
put_all-append depth (e ∷ es) es' b =
    elim (Option-cases (Store.put depth (get_key e.cmd) (get_value e.cmd) b)) [
      | inl p ↦ rw (put_all, p) refl
      | inr (b1, p) ↦ rw (put_all, p) (put_all-append depth es es' b1)
    ]

step_puts :
    (depth : ℕ) (db db' : Db) (es : List Log)
    → DbStep depth db es db'
    → put_all depth es db.kv ≡ some db'.kv
step_puts depth db db' es (putting key val n) = unfold put_all start_put in refl
step_puts depth db db' es getting = unfold put_all start_get in refl
step_puts depth db db' es (applying ta e) = (apply_job-JobDone depth ta db db' e).kv

-- Along every run the tree is what the puts of the applied entries make of it one after the other,
-- in the order in which they were applied.
pub run_puts :
    (depth : ℕ) (db db' : Db) (es : List Log)
    → Run depth db es db'
    → put_all depth es db.kv ≡ some db'.kv
run_puts depth db db' es here = unfold put_all in refl
run_puts depth db db' es (next {es = es1} {es' = es2} {mid = mid} r s) =
    put_all-append depth es1 es2 db.kv
    ∙ rw (run_puts depth db mid es1 r) (step_puts depth mid db' es2 s)

nothing_more :
    (id ch : ℕ) (b : Bool) (w : Waiter)
    → Awaits id ch w b
    → Awaits id ch w (b || is_one_of id (ids_of []))
unfolding is_one_of ids_of
nothing_more id ch true w k = k
nothing_more id ch false w k = k

one_of_both :
    (id : ℕ) (es es' : List Log) (b : Bool)
    → ((b || is_one_of id (ids_of es)) || is_one_of id (ids_of es'))
      ≡ (b || is_one_of id (ids_of (es ++ es')))
unfolding is_one_of ids_of
one_of_both id es es' true = refl
one_of_both id [] es' false = refl
one_of_both id (e ∷ es) es' false = one_of_both id es es' (get_request_id e.cmd == id)

DbStep-Awaits :
    (depth : ℕ) (db db' : Db) (es : List Log)
    → DbStep depth db es db'
    → IsSteady db
    → (id ch : ℕ) (b : Bool) → Awaits id ch db.waiter b
    → Awaits id ch db'.waiter (b || is_one_of id (ids_of es))
DbStep-Awaits depth db db' es (putting key val n) h id ch b k =
    nothing_more id ch b _ (unfold start_put in register-Awaits _ db.waiter id ch b k)
DbStep-Awaits depth db db' es getting h id ch b k = nothing_more id ch b _ (unfold start_get in k)
DbStep-Awaits depth db db' es (applying ta e) h id ch b k =
    let t = trigger_all-Triggered (ids_of ta.entries) db.waiter h.waiter in
    let w = some-injective _ _ (sym t.done ∙ (apply_job-JobDone depth ta db db' e).waiter) in
    subst (λ x. Awaits id ch x (b || is_one_of id (ids_of ta.entries))) w (t.awaits id ch b k)

Run-Awaits :
    (depth : ℕ) (db db' : Db) (es : List Log)
    → Run depth db es db'
    → IsSteady db
    → (id ch : ℕ) (b : Bool) → Awaits id ch db.waiter b
    → Awaits id ch db'.waiter (b || is_one_of id (ids_of es))
Run-Awaits depth db db' es here h id ch b k = nothing_more id ch b db.waiter k
Run-Awaits depth db db' es (next {es = es1} {es' = es2} {mid = mid} r s) h id ch b k =
    let ih = Run-Awaits depth db mid es1 r h id ch b k in
    let b1 = b || is_one_of id (ids_of es1) in
    let more = DbStep-Awaits depth mid db' es2 s (Run-IsSteady depth db mid es1 r h) id ch b1 ih in
    subst (Awaits id ch db'.waiter) (one_of_both id es1 es2 b) more

-- A put that begins in any state that a run from `Open` reaches is woken exactly when, in the run
-- that follows, a job has applied an entry with its id: so a put that returns without an error has
-- been applied, and no applied put waits on.
pub put_acknowledged :
    (depth : ℕ) (b : BTree) (meta : Meta) (lm : LogManager) (node_id now : ℕ) (db0 db1 db2 : Db)
    (es es' : List Log) (key : Key) (val : List ℕ) (n : Node)
    → open_db depth b meta lm node_id now ≡ some db0
    → Run depth db0 es db1
    → Run depth (start_put key val n db1).db es' db2
    → is_closed (start_put key val n db1).blocking_chan db2.waiter.closed
      ≡ is_one_of (start_put key val n db1).id (ids_of es')
put_acknowledged depth b meta lm node_id now db0 db1 db2 es es' key val n o r r' =
    let h0 = open_db-IsSteady depth b meta lm node_id now db0 o in
    let h1 = Run-IsSteady depth db0 db1 es r h0 in
    let s = start_put key val n db1 in
    let begun : IsSteady s.db = DbStep-IsSteady depth db1 s.db [] (putting key val n) h1 in
    let own : Awaits s.id s.blocking_chan s.db.waiter false =
      unfold start_put in registered-Awaits _ db1.waiter in
    Awaits-closed s.id s.blocking_chan db2.waiter (is_one_of s.id (ids_of es'))
      (Run-IsSteady depth s.db db2 es' r' begun).waiter
      (Run-Awaits depth s.db db2 es' r' begun s.id s.blocking_chan false own)
