-- ===== src/Raft/Fair.antt =====
-- `Step` and `Tick` of repl/sm.go, and the votes on record.
use harmony_db.Base.{
  ◌+◌, Option, none, some, Option-cases, inl, inr, leb, Ensures, Ensures-some, Ensures-if,
  Ensures-bind,
}
use harmony_db.Proto.{
  Message, MessageType, msg_app, msg_app_resp, msg_vote, msg_vote_resp, msg_heartbeat,
}
use harmony_db.Raft.Types.{
  Raft, StepFunc, TickFunc, step_follower, step_candidate, step_leader, tick_follower,
  tick_candidate, tick_leader,
}
use harmony_db.Raft.Append.{Err}
use harmony_db.Raft.Vote.{handle_vote_request}
use harmony_db.Raft.Step.{
  no_error, vote_or_campaign, from_leader, on_follower, on_candidate, on_leader, call_step, step,
  dropping_error, tick_election, tick_heartbeat, call_tick, tick,
}
use harmony_db.Raft.Silent.{Silent, Quiet, with_others}
use harmony_db.Raft.Quiet.{handle_append_entries-Quiet, handle_append_response-Quiet}
use harmony_db.Raft.Sends.{replicate-Quiet, broadcast_heartbeat-Quiet}
use harmony_db.Raft.Ballot.{IsFair, Keeps, Keeps-refl, Keeps-trans, Keeps-of_Quiet, Keeps-of_Silent}
use harmony_db.Raft.Election.{
  handle_vote_request-Keeps, handle_vote_response-Silent, campaign-Keeps,
}

abbrev pub KeepsStep : Raft → Raft × Option Err → Type 0
KeepsStep r s = Keeps r s.0

-- A function that returns no error, and one that casts no vote.
no_error-Keeps :
    (r : Raft) (o : Option Raft) → Ensures (Keeps r) o → Ensures (KeepsStep r) (no_error o)
no_error-Keeps r o h =
    Ensures-bind (KeepsStep r) (Keeps r) o _ h (λ s k. Ensures-some (KeepsStep r) _ k)

Silent-Keeps : (r : Raft) (o : Option Raft) → IsFair r → Ensures (Silent r) o → Ensures (Keeps r) o
Silent-Keeps r o h q = record { at = λ s e. Keeps-of_Silent (q.at s e) h }

silent : (r : Raft) (o : Option Raft) → Ensures (Quiet r) o → Ensures (Silent r) o
silent r o q = record { at = λ s e. (q.at s e).silent }

module _ (m : Message) (r : Raft) (h : IsFair r) where
  stay-Keeps : Ensures (KeepsStep r) (some (r, none))
  stay-Keeps = Ensures-some (KeepsStep r) (r, none) (Keeps-refl h)

  vote_or_campaign-Keeps : Ensures (KeepsStep r) (vote_or_campaign m r)
  unfolding vote_or_campaign
  vote_or_campaign-Keeps = elim (Option-cases m.vote) [
    | inl e ↦ rw e (no_error-Keeps r _ (campaign-Keeps r h))
    | inr (req, e) ↦
        rw (e, vote_or_campaign)
          (Ensures-some (KeepsStep r) (handle_vote_request m r, none)
            (handle_vote_request-Keeps m r h))
  ]

  from_leader-Keeps : Ensures (KeepsStep r) (from_leader m r)
  unfolding from_leader
  from_leader-Keeps =
      let r1 : Raft = record r { election_tick = 0 } in
      let k : Keeps r r1 = Keeps-of_Quiet (with_others r _ _ _ _) h in
      no_error-Keeps r _ (record {
        at = λ s e.
            Keeps-trans k (Keeps-of_Quiet ((handle_append_entries-Quiet m r1).at s e) k.fair);
      })

  on_follower-Keeps : (t : MessageType) → Ensures (KeepsStep r) (on_follower t m r)
  unfolding on_follower
  on_follower-Keeps msg_vote = vote_or_campaign-Keeps
  on_follower-Keeps msg_app = from_leader-Keeps
  on_follower-Keeps msg_heartbeat = from_leader-Keeps
  on_follower-Keeps _ = stay-Keeps

  on_candidate-Keeps : (t : MessageType) → Ensures (KeepsStep r) (on_candidate t m r)
  unfolding on_candidate
  on_candidate-Keeps msg_vote = vote_or_campaign-Keeps
  on_candidate-Keeps msg_vote_resp =
      no_error-Keeps r _ (Silent-Keeps r _ h (handle_vote_response-Silent m r))
  on_candidate-Keeps msg_app = from_leader-Keeps
  on_candidate-Keeps msg_heartbeat = from_leader-Keeps
  on_candidate-Keeps _ = stay-Keeps

  on_leader-Keeps : (t : MessageType) → Ensures (KeepsStep r) (on_leader t m r)
  unfolding on_leader
  on_leader-Keeps msg_heartbeat =
      no_error-Keeps r _ (Silent-Keeps r _ h (silent r _ (broadcast_heartbeat-Quiet r)))
  on_leader-Keeps msg_app = record { at = λ s e. Keeps-of_Quiet ((replicate-Quiet m r).at s e) h }
  on_leader-Keeps msg_app_resp =
      no_error-Keeps r _ (Silent-Keeps r _ h (silent r _ (handle_append_response-Quiet m r)))
  on_leader-Keeps _ = stay-Keeps

  call_step-Keeps : (f : StepFunc) → Ensures (KeepsStep r) (call_step f m r)
  unfolding call_step
  call_step-Keeps step_follower = on_follower-Keeps m.type
  call_step-Keeps step_candidate = on_candidate-Keeps m.type
  call_step-Keeps step_leader = on_leader-Keeps m.type

  pub step-Keeps : Ensures (KeepsStep r) (step m r)
  unfolding step
  step-Keeps = call_step-Keeps r.step

-- A tick counts, resets a counter, and may step with an internal message.
fire-Keeps :
    (m : Message) (r r1 : Raft)
    → Quiet r r1
    → IsFair r
    → Ensures (Keeps r) (dropping_error (step m r1))
fire-Keeps m r r1 q h =
    let k = Keeps-of_Quiet q h in
    Ensures-bind (Keeps r) (KeepsStep r1) _ _ (step-Keeps m r1 k.fair)
      (λ s k1. Ensures-some (Keeps r) _ (Keeps-trans k k1))

tick_election-Keeps : (r : Raft) → IsFair r → Ensures (Keeps r) (tick_election r)
unfolding tick_election
tick_election-Keeps r h =
    Ensures-if (Keeps r) (leb r.randomized_timeout (r.election_tick + 1))
      (λ _. fire-Keeps _ r _ (with_others r _ _ _ _) h)
      (λ _. Ensures-some (Keeps r) _ (Keeps-of_Quiet (with_others r _ _ _ _) h))

tick_heartbeat-Keeps : (r : Raft) → IsFair r → Ensures (Keeps r) (tick_heartbeat r)
unfolding tick_heartbeat
tick_heartbeat-Keeps r h =
    Ensures-if (Keeps r) (leb r.heartbeat_timeout (r.heartbeat_tick + 1))
      (λ _. fire-Keeps _ r _ (with_others r _ _ _ _) h)
      (λ _. Ensures-some (Keeps r) _ (Keeps-of_Quiet (with_others r _ _ _ _) h))

call_tick-Keeps : (t : TickFunc) (r : Raft) → IsFair r → Ensures (Keeps r) (call_tick t r)
unfolding call_tick
call_tick-Keeps tick_follower r h = tick_election-Keeps r h
call_tick-Keeps tick_candidate r h = tick_election-Keeps r h
call_tick-Keeps tick_leader r h = tick_heartbeat-Keeps r h

pub tick-Keeps : (r : Raft) → IsFair r → Ensures (Keeps r) (tick r)
unfolding tick
tick-Keeps r h = call_tick-Keeps r.tick r h
