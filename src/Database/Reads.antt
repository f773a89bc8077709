-- ===== src/Database/Reads.antt =====
-- Gets beside the running jobs (db.go): a get may begin between the assignment of `lastCommitIndex`
-- and the trigger behind it.
use harmony_db.Base.{
  ℕ, ◌≤◌, ◌≡◌, refl, sym, ◌∙◌, ap, subst, ◌⊎◌, inl, inr, true, Option, none, some, some-injective,
  List, arith, leb, le→leb, bind_some, Bool-cases,
}
use harmony_db.Base.Maps
use harmony_db.Base.Maps.{get-put}
use harmony_db.Tree.Page.{Key}
use harmony_db.Tree.Store.{BTree}
use harmony_db.Wal.{LogManager}
use harmony_db.Replay.{Meta}
use harmony_db.Wait.{is_closed}
use harmony_db.WaitTime
use harmony_db.WaitTime.{WaitTime, wait}
use harmony_db.WaitTime.Wakes
use harmony_db.WaitTime.Wakes.{
  triggered_due, triggered_keeps, wait_keeps_closed, wait_keeps_get, wait-Given, triggered,
  trigger-triggered, triggered-IsSound,
}
use harmony_db.Node.{Node, ToApply}
use harmony_db.Database.{Db, open_db, publish, wake_readers, start_put, wait_for}
use harmony_db.Database.Apply.{publish-keeps}
use harmony_db.Database.Run.{open_db-IsSteady, wait_keeps}

-- The database, and the index that the running job has yet to trigger, if one is between its last
-- two statements.
pub record Running : Type 0 where
  pub db : Db
  pub to_wake : Option ℕ

abbrev pub idle : Db → Running
idle db = record { db = db; to_wake = none }

-- A get that has read the index waits for it.
abbrev pub waited : ℕ → Running → Running
waited index s = record s { db = (wait_for index s.db).1 }

-- The scheduler runs one job at a time, and the node's commit index never falls; puts and gets go on
-- at any time. What a job does before the assignment is one step: no get looks at it.
pub data RunningStep (depth : ℕ) : Running → Running → Type 0 where
  putting :
      {s : Running} (key : Key) (val : List ℕ) (n : Node)
      → RunningStep depth s (record s { db = (start_put key val n s.db).db })
  waiting : {s : Running} (index : ℕ) → RunningStep depth s (waited index s)
  publishing :
      {db now : Db} (ta : ToApply)
      → db.last_commit_index ≤ ta.commit_index
      → publish depth ta db ≡ some now
      → RunningStep depth (idle db) (record { db = now; to_wake = some ta.commit_index })
  waking :
      {db after : Db} {c : ℕ}
      → wake_readers c db ≡ some after
      → RunningStep depth (record { db = db; to_wake = some c }) (idle after)

pub data ReadRun (depth : ℕ) (s : Running) : Running → Type 0 where
  here : ReadRun depth s s
  next : {t u : Running} → ReadRun depth s t → RunningStep depth t u → ReadRun depth s u

-- The database once the running job is done.
abbrev pub job_ended : Running → Option Db
job_ended s = elim s.to_wake [ none ↦ some s.db | some c ↦ wake_readers c s.db ]

-- What was triggered, and what will be.
IsCurrent : Option ℕ → Db → Type 0
IsCurrent none db = db.apply_wait.last_triggered ≡ db.last_commit_index
IsCurrent (some c) db = (db.last_commit_index ≡ c) × (db.apply_wait.last_triggered ≤ c)

record IsRegular (s : Running) : Type 0 where
  sound : Wakes.IsSound s.db.apply_wait
  current : IsCurrent s.to_wake s.db

-- A channel that a get got for the index `d`: closed, or to be closed by the running job.
Due : ℕ → ℕ → Option ℕ → WaitTime → Type 0
Due d ch none w = is_closed ch w.closed ≡ true
Due d ch (some c) w = (is_closed ch w.closed ≡ true) ⊎ ((Maps.get d w.m ≡ some ch) × (d ≤ c))

woken-is :
    (c : ℕ) (db after : Db)
    → Wakes.IsSound db.apply_wait
    → wake_readers c db ≡ some after
    → after ≡ record db { apply_wait = triggered c db.apply_wait }
unfolding wake_readers
woken-is c db after h e =
    let (w, p, q) = bind_some (WaitTime.trigger c db.apply_wait) _ after e in
    let same : w ≡ triggered c db.apply_wait =
      some-injective _ _ (sym p ∙ trigger-triggered c db.apply_wait h) in
    sym (some-injective _ _ q) ∙ ap (λ x. record db { apply_wait = x }) same

IsCurrent-same :
    (o : Option ℕ) (db db' : Db)
    → db'.apply_wait.last_triggered ≡ db.apply_wait.last_triggered
    → db'.last_commit_index ≡ db.last_commit_index
    → IsCurrent o db
    → IsCurrent o db'
unfolding IsCurrent
IsCurrent-same none db db' p q h = p ∙ h ∙ sym q
IsCurrent-same (some c) db db' p q h = (q ∙ h.0, (let le = h.1 in omega (arith, p, le)))

step-IsRegular : (depth : ℕ) (s t : Running) → RunningStep depth s t → IsRegular s → IsRegular t
unfolding start_put wait_for
step-IsRegular depth s t (putting key val n) h = record {
  sound = h.sound;
  current = IsCurrent-same s.to_wake s.db _ refl refl h.current;
}
step-IsRegular depth s t (waiting d) h = record {
  sound = (wait-Given d s.db.apply_wait h.sound).sound;
  current = IsCurrent-same s.to_wake s.db _ (wait_keeps d s.db.apply_wait) refl h.current;
}
step-IsRegular depth s t (publishing {db} {now} ta up e) h =
    let (same, index) = publish-keeps depth ta db now e in
    let last = ap (λ w. w.last_triggered) same in
    let now_is : db.apply_wait.last_triggered ≡ db.last_commit_index =
      unfold IsCurrent in h.current in
    record {
      sound = subst Wakes.IsSound (sym same) h.sound;
      current = unfold IsCurrent in (index, omega (arith, up, last, now_is));
    }
step-IsRegular depth s t (waking {db} {after} {c} e) h =
    let q = woken-is c db after h.sound e in
    subst (λ x. IsRegular (idle x)) (sym q)
      (record {
        sound = triggered-IsSound c db.apply_wait h.sound;
        current = unfold IsCurrent triggered in sym (unfold IsCurrent in h.current.0);
      })

ReadRun-IsRegular : (depth : ℕ) (s t : Running) → ReadRun depth s t → IsRegular s → IsRegular t
ReadRun-IsRegular depth s t here h = h
ReadRun-IsRegular depth s t (next {t = mid} r e) h =
    step-IsRegular depth mid t e (ReadRun-IsRegular depth s mid r h)

wait-Due : (d ch j : ℕ) (o : Option ℕ) (w : WaitTime) → Due d ch o w → Due d ch o (wait j w).1
unfolding Due
wait-Due d ch j none w h = ap (is_closed ch) (wait_keeps_closed j w) ∙ h
wait-Due d ch j (some c) w (inl shut) = inl (ap (is_closed ch) (wait_keeps_closed j w) ∙ shut)
wait-Due d ch j (some c) w (inr (there, le)) = inr (wait_keeps_get j d ch w there, le)

woken-Due :
    (d ch c : ℕ) (w : WaitTime)
    → Wakes.IsSound w
    → Due d ch (some c) w
    → is_closed ch (triggered c w).closed ≡ true
unfolding Due
woken-Due d ch c w h (inl shut) = triggered_keeps ch c w shut
woken-Due d ch c w h (inr (there, le)) = triggered_due d ch c w h there le

step-Due :
    (depth d ch : ℕ) (s t : Running)
    → RunningStep depth s t
    → IsRegular s
    → Due d ch s.to_wake s.db.apply_wait
    → Due d ch t.to_wake t.db.apply_wait
unfolding start_put wait_for
step-Due depth d ch s t (putting key val n) h due = due
step-Due depth d ch s t (waiting j) h due = wait-Due d ch j s.to_wake s.db.apply_wait due
step-Due depth d ch s t (publishing {db} {now} ta up e) h due =
    let (same, index) = publish-keeps depth ta db now e in
    unfold Due in inl (subst (λ w. is_closed ch w.closed ≡ true) (sym same) (unfold Due in due))
step-Due depth d ch s t (waking {db} {after} {c} e) h due =
    let q = woken-is c db after h.sound e in
    unfold Due in
    subst (λ x. is_closed ch x.apply_wait.closed ≡ true) (sym q)
      (woken-Due d ch c db.apply_wait h.sound due)

ReadRun-Due :
    (depth d ch : ℕ) (s t : Running)
    → ReadRun depth s t
    → IsRegular s
    → Due d ch s.to_wake s.db.apply_wait
    → Due d ch t.to_wake t.db.apply_wait
ReadRun-Due depth d ch s t here h due = due
ReadRun-Due depth d ch s t (next {t = mid} r e) h due =
    step-Due depth d ch mid t e (ReadRun-IsRegular depth s mid r h)
      (ReadRun-Due depth d ch s mid r h due)

-- An index that was triggered, or that the running job will trigger.
Reached : ℕ → Option ℕ → Db → Type 0
Reached d none db = d ≤ db.apply_wait.last_triggered
Reached d (some c) db = d ≤ c

current-Reached : (o : Option ℕ) (db : Db) → IsCurrent o db → Reached db.last_commit_index o db
unfolding IsCurrent Reached
current-Reached none db h = omega (arith, h)
current-Reached (some c) db h = let e = h.0 in omega (arith, e)

Reached-same :
    (d : ℕ) (o : Option ℕ) (db db' : Db)
    → db'.apply_wait.last_triggered ≡ db.apply_wait.last_triggered
    → Reached d o db
    → Reached d o db'
unfolding Reached
Reached-same d none db db' p h = omega (arith, p, h)
Reached-same d (some c) db db' p h = h

step-Reached :
    (depth d : ℕ) (s t : Running)
    → RunningStep depth s t
    → IsRegular s
    → Reached d s.to_wake s.db
    → Reached d t.to_wake t.db
unfolding start_put wait_for
step-Reached depth d s t (putting key val n) h r = Reached-same d s.to_wake s.db _ refl r
step-Reached depth d s t (waiting j) h r =
    Reached-same d s.to_wake s.db _ (wait_keeps j s.db.apply_wait) r
step-Reached depth d s t (publishing {db} {now} ta up e) h r =
    let now_is : db.apply_wait.last_triggered ≡ db.last_commit_index =
      unfold IsCurrent in h.current in
    let le : d ≤ db.apply_wait.last_triggered = unfold Reached in r in
    unfold Reached in omega (arith, up, now_is, le)
step-Reached depth d s t (waking {db} {after} {c} e) h r =
    let q = woken-is c db after h.sound e in
    subst (λ x. Reached d none x) (sym q) (unfold Reached triggered in (unfold Reached in r))

ReadRun-Reached :
    (depth d : ℕ) (s t : Running)
    → ReadRun depth s t
    → IsRegular s
    → Reached d s.to_wake s.db
    → Reached d t.to_wake t.db
ReadRun-Reached depth d s t here h r = r
ReadRun-Reached depth d s t (next {t = mid} run e) h r =
    step-Reached depth d mid t e (ReadRun-IsRegular depth s mid run h)
      (ReadRun-Reached depth d s mid run h r)

-- The channel of a get that waits for such an index.
waited-Due :
    (d : ℕ) (o : Option ℕ) (db : Db)
    → Wakes.IsSound db.apply_wait
    → Reached d o db
    → Due d (wait_for d db).0 o (wait_for d db).1.apply_wait
unfolding wait_for Due Reached
waited-Due d none db h le =
    let given = wait-Given d db.apply_wait h in
    rw (given.past (le→leb d db.apply_wait.last_triggered le)) given.sound.closec
waited-Due d (some c) db h le =
    let given = wait-Given d db.apply_wait h in
    elim (Bool-cases (leb d db.apply_wait.last_triggered)) [
      | inl past ↦ inl (rw (given.past past) given.sound.closec)
      | inr ahead ↦ inr (given.own ahead, le)
    ]

ended-closed :
    (d ch : ℕ) (o : Option ℕ) (db : Db)
    → Wakes.IsSound db.apply_wait
    → Due d ch o db.apply_wait
    → (after : Db) × (job_ended (record { db = db; to_wake = o }) ≡ some after)
      × (is_closed ch after.apply_wait.closed ≡ true)
ended-closed d ch none db h due = (db, refl, unfold Due in due)
ended-closed d ch (some c) db h due = (
  record db { apply_wait = triggered c db.apply_wait },
  unfold wake_readers in rw (trigger-triggered c db.apply_wait h) refl,
  woken-Due d ch c db.apply_wait h due,
)

-- A get reads `lastCommitIndex` in any state that a run from `Open` reaches, also while a job is
-- between its assignment and its trigger, and calls `Wait` with it in any later state; the commit
-- indices of the jobs do not fall. In every state after that, the trigger that the running job has
-- yet to do, if there is one, does not panic, and behind it the channel that the get selects on is
-- closed: a get waits for the rest of one job at most, and while no job is between the two
-- statements it does not wait.
pub get_waits_for_job :
    (depth : ℕ) (b : BTree) (meta : Meta) (lm : LogManager) (node_id now : ℕ) (db0 : Db)
    (s u t : Running)
    → open_db depth b meta lm node_id now ≡ some db0
    → ReadRun depth (idle db0) s
    → ReadRun depth s u
    → ReadRun depth (waited s.db.last_commit_index u) t
    → (after : Db) × (job_ended t ≡ some after)
      × (is_closed (wait_for s.db.last_commit_index u.db).0 after.apply_wait.closed ≡ true)
get_waits_for_job depth b meta lm node_id now db0 s u t o r1 r2 r3 =
    let d = s.db.last_commit_index in
    let ch = (wait_for d u.db).0 in
    let h0 = open_db-IsSteady depth b meta lm node_id now db0 o in
    let h1 =
      ReadRun-IsRegular depth (idle db0) s r1
        (record { sound = h0.apply_wait; current = unfold IsCurrent in h0.current }) in
    let h2 = ReadRun-IsRegular depth s u r2 h1 in
    let h3 = step-IsRegular depth u (waited d u) (waiting d) h2 in
    let reached = ReadRun-Reached depth d s u r2 h1 (current-Reached s.to_wake s.db h1.current) in
    let due = waited-Due d u.to_wake u.db h2.sound reached in
    ended-closed d ch t.to_wake t.db (ReadRun-IsRegular depth (waited d u) t r3 h3).sound
      (ReadRun-Due depth d ch (waited d u) t r3 h3 due)
