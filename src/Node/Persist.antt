-- ===== src/Node/Persist.antt =====
-- Along every run of the node of repl/raft.go the WAL holds a prefix of the log, and the database
-- gets only what the WAL holds.
use harmony_db.Base.{
  ℕ, ◌≤◌, ◌≡◌, refl, sym, ◌∙◌, ap, Option, none, some, List, ◌++◌, arith, Ensures, if_intro, length,
  take, take-append-slice, take-take,
}
use harmony_db.Proto.{Log}
use harmony_db.RaftLog.{RaftLog}
use harmony_db.RaftLog.Sequential.{IsSequential}
use harmony_db.Raft.Types.{Raft, Ready}
use harmony_db.Raft.Become.{new_raft}
use harmony_db.Raft.Step.{ready}
use harmony_db.Node.{
  Node, new_node, process, tick_in, process_ready, finish, save_to_wal, is_idle, evaluated, Choice,
  take_message, take_ready, take_tick, take_default, on_ready, choose, iterate, NodeStep, propose,
  clock, loop, apply,
}
use harmony_db.Node.Holds.{Holds, Holds-went, Holds-waits}
use harmony_db.Node.Moves.{Moves, on_message-Holds, on_tick-Holds}
use harmony_db.Node.Delivery.{
  IsBounded, IsOrderly, AfterReady, HandsOver, ready-IsPolled, hand_over-HandsOver,
}
use harmony_db.Node.Order.{SequentialRun, start, more, run-Orderly, new_node-Orderly}
use harmony_db.Node.Saved.{
  take-length, save_to_wal_lem, IsWritten, advanced-IsSaved, IsSaved, IsWhole, WholeWith,
  Grows-IsSaved, ready-IsWhole,
}

finish-Saved :
    (n : Node) (rd : Ready)
    → IsWritten n
    → (o : Option Node) → Ensures (λ n'. HandsOver n n' rd) o
    → Holds IsSaved (finish o)
unfolding finish
finish-Saved n rd h none k = Holds-waits IsSaved
finish-Saved n rd h (some n1) k =
    let d = k.at n1 refl in
    Holds-went IsSaved _ (
      advanced-IsSaved n1 (record {
        wal = rw (d.wal_same, d.raft_same) h.wal;
        stable_le = rw d.raft_same h.stable_le;
        empty = rw d.raft_same h.empty;
        bounded = rw d.raft_same h.bounded;
        sequential = rw d.raft_same h.sequential;
      }))

on_ready-Saved :
    (o : Option Ready) (n : Node)
    → n.raft.readyc ≡ o
    → IsWhole n
    → IsBounded n.raft.raft_log
    → Holds IsSaved (on_ready o n)
unfolding on_ready process_ready
on_ready-Saved none n e h b = Holds-waits IsSaved
on_ready-Saved (some rd) n e h b =
    finish-Saved _ rd
      (record {
        wal = written;
        stable_le = h.saved.stable_le;
        empty = refl;
        bounded = b;
        sequential = h.sequential;
      })
      _ (hand_over-HandsOver rd _)
  where
    l : RaftLog
    l = n.raft.raft_log

    written : save_to_wal rd.entries n.wal ≡ l.entries
    written =
        save_to_wal_lem rd.entries n.wal
        ∙ ap (λ (es : List Log). es ++ rd.entries) h.saved.wal
        ∙ ap (λ (es : List Log). take l.stable_index l.entries ++ es) (h.whole rd e)
        ∙ take-append-slice l.stable_index (length l.entries) l.entries h.saved.stable_le
        ∙ take-length l.entries

moved : (n : Node) → IsSaved n → (n' : Node) → Moves n n' → IsSaved n'
moved n h n' m = Grows-IsSaved n n' m.grows m.wal_same h

choose-Saved :
    (c : Choice) (n : Node) → IsWhole n → IsBounded n.raft.raft_log → Holds IsSaved (choose c n)
unfolding choose
choose-Saved take_message n h b = on_message-Holds IsSaved n (moved n h.saved) n.propc
choose-Saved take_ready n h b = on_ready-Saved n.raft.readyc n refl h b
choose-Saved take_tick n h b = on_tick-Holds IsSaved n (moved n h.saved) n.tickc
choose-Saved take_default n h b =
    if_intro (Holds IsSaved) (is_idle n.propc n.raft.readyc n.tickc) _ _
      (λ _. Holds-went IsSaved n h.saved) (λ _. Holds-waits IsSaved)

iterate-Saved :
    (c : Choice) (n : Node)
    → IsOrderly n
    → IsSequential n.raft.raft_log
    → IsSaved n
    → Holds IsSaved (iterate c n)
unfolding iterate
iterate-Saved c n d s h = go (ready n.raft) (ready-IsPolled n d) (ready-IsWhole n s h)
  where
    go :
        (o : Option Raft)
        → Ensures (AfterReady n) o
        → Ensures (WholeWith n) o
        → Holds IsSaved (evaluated c n o)
    go none p k = record { at = λ x e. cc }
    go (some r) p k = choose-Saved c _ (k.at r refl) (p.at r refl).orderly.bounded

same_core : {n n' : Node} → n'.raft ≡ n.raft → n'.wal ≡ n.wal → IsSaved n → IsSaved n'
same_core {n} {n'} e d h = record {
  wal = d ∙ h.wal ∙ sym (rw e);
  applied_le = rw e h.applied_le;
  stable_le = rw e h.stable_le;
  buffer = λ rd p. rw e (h.buffer rd (rw (← e) p));
}

NodeStep-Saved :
    {n n' : Node}
    → NodeStep n n'
    → IsOrderly n
    → IsSequential n.raft.raft_log
    → IsSaved n
    → IsSaved n'
unfolding process tick_in
NodeStep-Saved (propose m) d s h = same_core (ground arith) (ground arith) h
NodeStep-Saved clock d s h = same_core (ground arith) (ground arith) h
NodeStep-Saved {n} {n'} (loop c e) d s h = (iterate-Saved c n d s h).at n' e
NodeStep-Saved (apply e) d s h = same_core refl refl h

pub run-Sequential :
    {n n' : Node}
    → IsSequential n.raft.raft_log
    → SequentialRun n n'
    → IsSequential n'.raft.raft_log
run-Sequential s start = s
run-Sequential s (more r st k) = k

run-Saved :
    {n n' : Node}
    → IsOrderly n
    → IsSequential n.raft.raft_log
    → IsSaved n
    → SequentialRun n n'
    → IsSaved n'
run-Saved d s h start = h
run-Saved d s h (more r st k) =
    NodeStep-Saved st (run-Orderly d r) (run-Sequential s r) (run-Saved d s h r)

new_node-Saved : (id : ℕ) (peers : List ℕ) → IsSaved (new_node id peers)
unfolding new_node new_raft
new_node-Saved id peers = record {
  wal = refl;
  applied_le = omega arith;
  stable_le = omega arith;
  buffer = λ rd p. absurd (ground arith);
}

pub new_node-Sequential : (id : ℕ) (peers : List ℕ) → IsSequential (new_node id peers).raft.raft_log
unfolding new_node new_raft
new_node-Sequential id peers = tt

-- Along any run of a fresh node whose log stays sequential, the WAL holds exactly the first entries
-- of the log, as many as the stable index says, and what was sent to the database is a prefix of
-- the WAL: no entry is applied before it is saved.
pub saved_before_delivered :
    (id : ℕ) (peers : List ℕ) (n : Node)
    → SequentialRun (new_node id peers) n
    → (n.wal ≡ take n.raft.raft_log.stable_index n.raft.raft_log.entries)
      × (n.raft.raft_log.stable_index ≤ length n.raft.raft_log.entries)
      × (n.delivered ≡ take n.raft.raft_log.last_applied n.wal)
      × (n.raft.raft_log.last_applied ≤ n.raft.raft_log.stable_index)
saved_before_delivered id peers n run =
    let d = new_node-Orderly id peers in
    let h = run-Saved d (new_node-Sequential id peers) (new_node-Saved id peers) run in
    let l = n.raft.raft_log in
    (
      h.wal,
      h.stable_le,
      (run-Orderly d run).delivered
          ∙ sym (
              ap (take l.last_applied) h.wal
              ∙ take-take l.last_applied l.stable_index l.entries h.applied_le),
      h.applied_le,
    )
