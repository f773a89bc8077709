-- ===== src/Node/Deadlock.antt =====
-- The run loop of repl/raft.go calls `Ready` on every turn of its `select`, whichever case is then
-- taken, and `Ready` sends to a channel that only the same loop reads.
use harmony_db.Base.{
  ◌<◌, ◌≡◌, ◌≢◌, refl, sym, ◌∙◌, true, none, some, [], arith, if_intro, length, length-append,
}
use harmony_db.RaftLog.Sequential.{IsSequential, last_index-eq-length}
use harmony_db.Raft.Types.{Raft, Ready}
use harmony_db.Raft.Step.{ready, report, has_ready, make_ready}
use harmony_db.Raft.Growth.{Grows}
use harmony_db.Node.Moves.{Moves, on_message-Holds, on_tick-Holds}
use harmony_db.Node.Holds.{Holds, Holds-went, Holds-waits}
use harmony_db.Node.{
  Node, went, deadlock, is_idle, evaluated, Choice, take_message, take_ready, take_tick,
  take_default, choose, iterate,
}

-- A `Ready` is buffered while entries wait to be persisted.
record IsStuck (r : Raft) : Type 0 where
  buffer : Ready
  full : r.readyc ≡ some buffer
  unstable : r.raft_log.stable_index < length r.raft_log.entries

ready-blocks : (r : Raft) → IsStuck r → IsSequential r.raft_log → ready r ≡ none
unfolding ready report
ready-blocks r h s =
    let last = last_index-eq-length r.raft_log s in
    let e : has_ready r ≡ true = unfold has_ready in ground (arith, last, h.unstable) in
    rw e (rw h.full)

Grows-IsStuck : (r r' : Raft) → Grows r r' → IsStuck r → IsStuck r'
Grows-IsStuck r r' g h = record {
  buffer = h.buffer;
  full = g.buffered ∙ h.full;
  unstable =
      rw (g.stable, g.entries, length-append r.raft_log.entries g.more) (omega (arith, h.unstable));
}

-- From such a node every next iteration that ends in a sequential log stops the loop.
abbrev StopsNext : Node → Type 0
StopsNext n = IsSequential n.raft.raft_log → (d : Choice) → iterate d n ≡ deadlock

stuck-StopsNext : (n : Node) → IsStuck n.raft → StopsNext n
unfolding iterate
stuck-StopsNext n h s d = rw (ready-blocks n.raft h s)

moved : (n : Node) → IsStuck n.raft → (n' : Node) → Moves n n' → StopsNext n'
moved n h n' m = stuck-StopsNext n' (Grows-IsStuck n.raft n'.raft m.grows h)

choose-StopsNext :
    (c : Choice) (n : Node) → c ≢ take_ready → IsStuck n.raft → Holds StopsNext (choose c n)
unfolding choose
choose-StopsNext take_message n _ h = on_message-Holds StopsNext n (moved n h) n.propc
choose-StopsNext take_ready n other h = absurd (other refl)
choose-StopsNext take_tick n _ h = on_tick-Holds StopsNext n (moved n h) n.tickc
choose-StopsNext take_default n _ h =
    if_intro (Holds StopsNext) (is_idle n.propc n.raft.readyc n.tickc) _ _
      (λ _. Holds-went StopsNext n (stuck-StopsNext n h)) (λ _. Holds-waits StopsNext)

-- Suppose the channel is empty and entries wait to be persisted, on a sequential log. If the loop
-- then takes a message or a tick before the `Ready` that it has just queued, and its log is still
-- sequential, every next iteration blocks for ever on the full channel.
pub message_first_deadlocks :
    (n n' : Node) (c d : Choice)
    → c ≢ take_ready
    → n.raft.readyc ≡ none
    → IsSequential n.raft.raft_log
    → n.raft.raft_log.stable_index < length n.raft.raft_log.entries
    → iterate c n ≡ went n'
    → IsSequential n'.raft.raft_log
    → iterate d n' ≡ deadlock
unfolding iterate
message_first_deadlocks n n' c d other empty s unstable e s' =
    (choose-StopsNext c _ other stuck).at n' (sym polled ∙ e) s' d
  where
    r : Raft
    r = record n.raft { msgs = []; msgs_after_append = []; readyc = some (make_ready n.raft) }

    stuck : IsStuck r
    stuck = record { buffer = make_ready n.raft; full = refl; unstable = unstable }

    reported : ready n.raft ≡ some r
    reported =
        let last = last_index-eq-length n.raft.raft_log s in
        let p : has_ready n.raft ≡ true = unfold has_ready in ground (arith, last) in
        unfold ready report in rw p (rw empty)

    polled : evaluated c n (ready n.raft) ≡ choose c (record n { raft = r })
    polled = rw reported
