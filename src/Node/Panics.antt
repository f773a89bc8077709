-- ===== src/Node/Panics.antt =====
-- The run loop of repl/raft.go never panics while its log is numbered by place.
use harmony_db.Base.{
  ℕ, zero, suc, ◌≢◌, refl, ◌∙◌, Option, none, some, List, [], ◌∷◌, arith, if_intro, Ensures,
  Ensures-some, Ensures-none, Ensures-if,
}
use harmony_db.Proto.{Message}
use harmony_db.RaftLog.Sequential.{IsSequential}
use harmony_db.Raft.Types.{Raft, Ready}
use harmony_db.Raft.Step.{ready, report, has_ready}
use harmony_db.Raft.Tally.{Votes}
use harmony_db.Raft.Total.{IsPoised, step_total, tick_total}
use harmony_db.Node.{
  Node, new_node, Outcome, panic, process_ready, hand_over, finish, is_idle, evaluated, after_step,
  after_tick, Choice, take_message, take_ready, take_tick, take_default, on_message, on_ready,
  on_tick, choose, iterate, NodeStep, propose, clock, loop, apply,
}
use harmony_db.Node.Trusty.{IsTrusty, NodeStep-Kept}
use harmony_db.Node.Votes.{new_node-Trusty}
use harmony_db.Node.Backed.{
  IsPolling, NextPolling, iterate-Polling, process-NextPolling, tick_in-NextPolling,
  new_node-Polling,
}
use harmony_db.Node.Order.{SequentialRun, start, more}
use harmony_db.Node.Persist.{run-Sequential, new_node-Sequential}

-- Any vote at all: the panics do not depend on who has voted.
abbrev any_vote : Votes
any_vote p t c = Unit

record IsSteady (id : ℕ) (n : Node) : Type 0 where
  trusty : IsTrusty n
  polling : IsPolling any_vote id n

NodeStep-NextPolling :
    {n n' : Node} (id : ℕ) → NodeStep n n' → IsPolling any_vote id n → NextPolling any_vote id n'
NodeStep-NextPolling {n} id (propose m) h = process-NextPolling any_vote id m n (λ resp e g. tt) h
NodeStep-NextPolling {n} id clock h = tick_in-NextPolling any_vote id n h
NodeStep-NextPolling {n} {n'} id (loop c e) h = (iterate-Polling any_vote id c n h).at n' e
NodeStep-NextPolling id (apply e) h = record { backed = λ _. h.backed; queued = h.queued }

NodeStep-Steady : {n n' : Node} (id : ℕ) → NodeStep n n' → IsSteady id n → IsSteady id n'
NodeStep-Steady id st h =
    let kept = NodeStep-Kept st h.trusty in
    let next = NodeStep-NextPolling id st h.polling in
    record {
      trusty = kept.trusty;
      polling = record {
        id_same = kept.keeps.id_same ∙ h.polling.id_same;
        backed = next.backed (λ t c e. tt);
        queued = next.queued;
      };
    }

run-Steady : {n n' : Node} (id : ℕ) → IsSteady id n → SequentialRun n n' → IsSteady id n'
run-Steady id h start = h
run-Steady id h (more r st s) = NodeStep-Steady id st (run-Steady id h r)

-- The state machine will not panic on the next message or tick.
record IsCalm (r : Raft) : Type 0 where
  sequential : IsSequential r.raft_log
  poised : IsPoised r

ready-IsCalm : (r : Raft) → IsCalm r → Ensures IsCalm (ready r)
unfolding ready report
ready-IsCalm r h = Ensures-if IsCalm (has_ready r) (λ _. go r.readyc) (λ _. Ensures-some IsCalm r h)
  where
    go : (o : Option Ready) → Ensures IsCalm (report r o)
    go none = Ensures-some IsCalm _ (record { sequential = h.sequential; poised = h.poised })
    go (some rd) = Ensures-none IsCalm

on_message_calm : (ms : List Message) (n : Node) → IsCalm n.raft → on_message ms n ≢ panic
unfolding on_message after_step
on_message_calm [] n h = λ e. absurd (ground (arith, e))
on_message_calm (m ∷ ms) n h =
    let ((r, x), e) = step_total m n.raft h.sequential h.poised in
    λ p. absurd (ground (arith, e, p))

on_tick_calm : (ticks : ℕ) (n : Node) → IsCalm n.raft → on_tick ticks n ≢ panic
unfolding on_tick after_tick
on_tick_calm zero n h = λ e. absurd (ground (arith, e))
on_tick_calm (suc k) n h =
    let (r, e) = tick_total n.raft h.sequential h.poised in λ p. absurd (ground (arith, e, p))

finish_calm : (o : Option Node) → finish o ≢ panic
unfolding finish
finish_calm none = λ e. absurd (ground (arith, e))
finish_calm (some n) = λ e. absurd (ground (arith, e))

choose_calm : (c : Choice) (n : Node) → IsCalm n.raft → choose c n ≢ panic
unfolding choose on_ready process_ready
choose_calm take_message n h = on_message_calm n.propc n h
choose_calm take_ready n h = go n.raft.readyc
  where
    go : (o : Option Ready) → on_ready o n ≢ panic
    go none = λ e. absurd (ground (arith, e))
    go (some rd) = finish_calm (hand_over rd _)
choose_calm take_tick n h = on_tick_calm n.tickc n h
choose_calm take_default n h =
    if_intro (λ (o : Outcome). o ≢ panic) (is_idle n.propc n.raft.readyc n.tickc) _ _
      (λ _ e. absurd (ground (arith, e))) (λ _ e. absurd (ground (arith, e)))

iterate_calm : (c : Choice) (n : Node) → IsCalm n.raft → iterate c n ≢ panic
unfolding iterate
iterate_calm c n h = go (ready n.raft) (ready-IsCalm n.raft h)
  where
    go : (o : Option Raft) → Ensures IsCalm o → evaluated c n o ≢ panic
    go none k = unfold evaluated in λ e. absurd (ground (arith, e))
    go (some r) k = unfold evaluated in choose_calm c (record n { raft = r }) (k.at r refl)

-- Along any run of a fresh node whose log stays numbered by place, whatever messages and ticks come
-- in, the next turn of the loop does not panic, whichever case it takes.
pub never_panics :
    (id : ℕ) (peers : List ℕ) (n : Node) (c : Choice)
    → SequentialRun (new_node id peers) n
    → iterate c n ≢ panic
never_panics id peers n c run =
    let steady =
      run-Steady id
        (record { trusty = new_node-Trusty id peers; polling = new_node-Polling any_vote id peers })
        run in
    iterate_calm c n (record {
      sequential = run-Sequential (new_node-Sequential id peers) run;
      poised = steady.polling.backed.poised;
    })
