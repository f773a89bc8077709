-- ===== src/Node/Order.antt =====
-- Along every run of the node of repl/raft.go the database gets the log's entries in order, each once.
use harmony_db.Base.{
  ℕ, ◌≤◌, ◌≡◌, refl, sym, ◌∙◌, ap, Option, none, some, List, ◌++◌, arith, Ensures, if_intro, length,
  take, take-append-slice,
}
use harmony_db.Proto.{Log}
use harmony_db.RaftLog.{RaftLog}
use harmony_db.RaftLog.Sequential.{IsSequential}
use harmony_db.Raft.Types.{Raft, Ready}
use harmony_db.Raft.Step.{ready, advance}
use harmony_db.Raft.Become.{new_raft}
use harmony_db.Node.{
  Node, new_node, process, tick_in, process_ready, finish, is_idle, evaluated, Choice, take_message,
  take_ready, take_tick, take_default, on_ready, choose, iterate,
}
use harmony_db.Node.Holds.{Holds, Holds-went, Holds-waits}
use harmony_db.Node.Moves.{Moves, on_message-Holds, on_tick-Holds}
use harmony_db.Node.{NodeStep, propose, clock, loop, apply}
use harmony_db.Node.Delivery.{
  IsBounded, IsSlice, IsOrderly, IsPolled, AfterReady, NextOrderly, HandsOver, Grows-IsOrderly,
  ready-IsPolled, hand_over-HandsOver, advance_applied, advance_rest,
}

finish-Orderly :
    (n : Node) (rd : Ready)
    → IsBounded n.raft.raft_log
    → n.delivered ≡ take n.raft.raft_log.last_applied n.raft.raft_log.entries
    → IsSlice n.raft.raft_log rd
    → rd.hard_state.last_commit_index ≡ n.raft.raft_log.commit_index
    → n.raft.readyc ≡ none
    → (o : Option Node) → Ensures (λ n'. HandsOver n n' rd) o
    → Holds NextOrderly (finish o)
unfolding finish
finish-Orderly n rd b d s c z none h = Holds-waits NextOrderly
finish-Orderly n rd b d s c z (some n1) h = Holds-went NextOrderly _ (λ _. done)
  where
    l : RaftLog
    l = n.raft.raft_log

    k : HandsOver n n1 rd
    k = h.at n1 refl

    rest :
        ((advance n.raft).raft_log.entries ≡ l.entries)
        × ((advance n.raft).raft_log.commit_index ≡ l.commit_index)
        × ((advance n.raft).readyc ≡ n.raft.readyc)
    rest = advance_rest n.raft

    prefix : n1.delivered ≡ take l.commit_index l.entries
    prefix =
        k.extended
        ∙ ap (λ (es : List Log). es ++ rd.committed_entries) d
        ∙ ap (λ (es : List Log). take l.last_applied l.entries ++ es) (s.slice ∙ rw c)
        ∙ take-append-slice l.last_applied l.commit_index l.entries b.applied_le

    done : IsOrderly (record n1 { raft = advance n1.raft })
    done = rw k.raft_same (record {
      bounded = record {
        applied_le = rw (advance_applied n.raft b, rest.1) (omega arith);
        commit_le = rw (rest.1, rest.0) b.commit_le;
      };
      delivered = rw (advance_applied n.raft b, rest.0) prefix;
      buffer = λ rd' p. let q : none ≡ some rd' = sym (rest.2 ∙ z) ∙ p in absurd (ground arith);
    })

on_ready-Orderly :
    (o : Option Ready) (n : Node)
    → n.raft.readyc ≡ o
    → IsPolled n
    → Holds NextOrderly (on_ready o n)
unfolding on_ready process_ready
on_ready-Orderly none n e h = Holds-waits NextOrderly
on_ready-Orderly (some rd) n e h =
    finish-Orderly _ rd h.orderly.bounded h.orderly.delivered (h.orderly.buffer rd e)
      (h.current rd e) refl _ (hand_over-HandsOver rd _)

moved : (n : Node) → IsOrderly n → (n' : Node) → Moves n n' → NextOrderly n'
moved n h n' m s = Grows-IsOrderly n n' m.grows m.delivered_same s h

choose-Orderly : (c : Choice) (n : Node) → IsPolled n → Holds NextOrderly (choose c n)
unfolding choose
choose-Orderly take_message n h = on_message-Holds NextOrderly n (moved n h.orderly) n.propc
choose-Orderly take_ready n h = on_ready-Orderly n.raft.readyc n refl h
choose-Orderly take_tick n h = on_tick-Holds NextOrderly n (moved n h.orderly) n.tickc
choose-Orderly take_default n h =
    if_intro (Holds NextOrderly) (is_idle n.propc n.raft.readyc n.tickc) _ _
      (λ _. Holds-went NextOrderly n (λ _. h.orderly)) (λ _. Holds-waits NextOrderly)

iterate-Orderly : (c : Choice) (n : Node) → IsOrderly n → Holds NextOrderly (iterate c n)
unfolding iterate
iterate-Orderly c n h = go (ready n.raft) (ready-IsPolled n h)
  where
    go : (o : Option Raft) → Ensures (AfterReady n) o → Holds NextOrderly (evaluated c n o)
    go none k = record { at = λ x e. cc }
    go (some r) k = choose-Orderly c _ (k.at r refl)

-- A run in which every log that the node goes through is sequential.
pub data SequentialRun (n : Node) : Node → Type 0 where
  start : SequentialRun n n
  more :
      {m k : Node}
      → SequentialRun n m
      → NodeStep m k
      → IsSequential k.raft.raft_log
      → SequentialRun n k

same_core :
    {n n' : Node} → n'.raft ≡ n.raft → n'.delivered ≡ n.delivered → IsOrderly n → IsOrderly n'
same_core {n} {n'} e d h = record {
  bounded = rw e h.bounded;
  delivered = d ∙ h.delivered ∙ sym (rw e);
  buffer = λ rd p. rw e (h.buffer rd (rw (← e) p));
}

NodeStep-Orderly :
    {n n' : Node} → NodeStep n n' → IsSequential n'.raft.raft_log → IsOrderly n → IsOrderly n'
unfolding process tick_in
NodeStep-Orderly (propose m) s h = same_core (ground arith) (ground arith) h
NodeStep-Orderly clock s h = same_core (ground arith) (ground arith) h
NodeStep-Orderly {n} {n'} (loop c e) s h = (iterate-Orderly c n h).at n' e s
NodeStep-Orderly (apply e) s h = same_core refl refl h

pub run-Orderly : {n n' : Node} → IsOrderly n → SequentialRun n n' → IsOrderly n'
run-Orderly h start = h
run-Orderly h (more r st s) = NodeStep-Orderly st s (run-Orderly h r)

pub new_node-Orderly : (id : ℕ) (peers : List ℕ) → IsOrderly (new_node id peers)
unfolding new_node new_raft
new_node-Orderly id peers = record {
  bounded = record { applied_le = omega arith; commit_le = omega arith };
  delivered = refl;
  buffer = λ rd p. absurd (ground arith);
}

-- Along any run of a fresh node whose log stays sequential, what was sent to the database is the
-- log's prefix up to the applied index: each committed entry once, in order, with none left out.
-- The applied index is at most the commit index, and that is within the log.
pub delivered_in_order :
    (id : ℕ) (peers : List ℕ) (n : Node)
    → SequentialRun (new_node id peers) n
    → (n.delivered ≡ take n.raft.raft_log.last_applied n.raft.raft_log.entries)
      × (n.raft.raft_log.last_applied ≤ n.raft.raft_log.commit_index)
      × (n.raft.raft_log.commit_index ≤ length n.raft.raft_log.entries)
delivered_in_order id peers n run =
    let h = run-Orderly (new_node-Orderly id peers) run in
    (h.delivered, h.bounded.applied_le, h.bounded.commit_le)
