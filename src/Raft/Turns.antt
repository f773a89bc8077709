-- ===== src/Raft/Turns.antt =====
-- `Step` and `Tick` of repl/sm.go, and the polls.
use harmony_db.Base.{
  ◌+◌, none, some, arith, inl, inr, leb, Option-cases, Ensures, Ensures-some, Ensures-if,
  Ensures-bind,
}
use harmony_db.Proto.{
  Message, MessageType, bare, msg_app, msg_app_resp, msg_vote, msg_vote_resp, msg_heartbeat,
}
use harmony_db.Raft.Types.{
  Raft, TickFunc, StepFunc, step_follower, step_candidate, step_leader, tick_follower,
  tick_candidate, tick_leader,
}
use harmony_db.Raft.Vote.{handle_vote_request}
use harmony_db.Raft.Step.{
  dropping_error, vote_or_campaign, from_leader, on_follower, on_candidate, on_leader, call_step,
  step, tick_election, tick_heartbeat, call_tick, tick,
}
use harmony_db.Raft.Silent.{Quiet-trans, with_others}
use harmony_db.Raft.Quiet.{handle_append_entries-Quiet, handle_append_response-Quiet}
use harmony_db.Raft.Sends.{replicate-Quiet, broadcast_heartbeat-Quiet}
use harmony_db.Raft.Tally.{Votes, IsBacked, IsGenuine, Quiet-IsBacked}
use harmony_db.Raft.Polls.{
  NextBacked, StepBacked, no_error-Backed, known, quiet, campaign-NextBacked,
  handle_vote_request-IsBacked, handle_vote_response-IsBacked,
}

module _ (V : Votes) (m : Message) (r : Raft) (g : IsGenuine V r.id m) (h : IsBacked V r) where
  stay-Backed : Ensures (StepBacked V) (some (r, none))
  stay-Backed = Ensures-some (StepBacked V) (r, none) (λ _. h)

  vote_or_campaign-Backed : Ensures (StepBacked V) (vote_or_campaign m r)
  unfolding vote_or_campaign
  vote_or_campaign-Backed = elim (Option-cases m.vote) [
    | inl e ↦ rw e (no_error-Backed V _ (campaign-NextBacked V r))
    | inr (req, e) ↦
        rw (e, vote_or_campaign)
          (Ensures-some (StepBacked V) (handle_vote_request m r, none)
            (λ _. handle_vote_request-IsBacked V m r h))
  ]

  from_leader-Backed : Ensures (StepBacked V) (from_leader m r)
  unfolding from_leader
  from_leader-Backed = no_error-Backed V _ (
      quiet V r _ h (record {
        at = λ s e.
            Quiet-trans (with_others r _ _ 0 _)
              ((handle_append_entries-Quiet m (record r { election_tick = 0 })).at s e);
      }))

  on_follower-Backed : (t : MessageType) → Ensures (StepBacked V) (on_follower t m r)
  unfolding on_follower
  on_follower-Backed msg_vote = vote_or_campaign-Backed
  on_follower-Backed msg_app = from_leader-Backed
  on_follower-Backed msg_heartbeat = from_leader-Backed
  on_follower-Backed _ = stay-Backed

  on_candidate-Backed : (t : MessageType) → Ensures (StepBacked V) (on_candidate t m r)
  unfolding on_candidate
  on_candidate-Backed msg_vote = vote_or_campaign-Backed
  on_candidate-Backed msg_vote_resp =
      no_error-Backed V _ (known V _ (handle_vote_response-IsBacked V m r g h))
  on_candidate-Backed msg_app = from_leader-Backed
  on_candidate-Backed msg_heartbeat = from_leader-Backed
  on_candidate-Backed _ = stay-Backed

  on_leader-Backed : (t : MessageType) → Ensures (StepBacked V) (on_leader t m r)
  unfolding on_leader
  on_leader-Backed msg_heartbeat = no_error-Backed V _ (quiet V r _ h (broadcast_heartbeat-Quiet r))
  on_leader-Backed msg_app = record {
    at = λ s e _. Quiet-IsBacked V r s.0 ((replicate-Quiet m r).at s e) h;
  }
  on_leader-Backed msg_app_resp =
      no_error-Backed V _ (quiet V r _ h (handle_append_response-Quiet m r))
  on_leader-Backed _ = stay-Backed

  call_step-Backed : (f : StepFunc) → Ensures (StepBacked V) (call_step f m r)
  unfolding call_step
  call_step-Backed step_follower = on_follower-Backed m.type
  call_step-Backed step_candidate = on_candidate-Backed m.type
  call_step-Backed step_leader = on_leader-Backed m.type

  pub step-Backed : Ensures (StepBacked V) (step m r)
  unfolding step
  step-Backed = call_step-Backed r.step

module _ (V : Votes) where
  fire-Backed :
      (t : MessageType) (r : Raft)
      → IsBacked V r
      → Ensures (NextBacked V) (dropping_error (step (bare t) r))
  fire-Backed t r h =
      Ensures-bind (NextBacked V) (StepBacked V) _ _
        (step-Backed V (bare t) r (λ resp e g. absurd (ground (arith, e))) h)
        (λ s k. Ensures-some (NextBacked V) _ k)

  tick_election-Backed : (r : Raft) → IsBacked V r → Ensures (NextBacked V) (tick_election r)
  unfolding tick_election
  tick_election-Backed r h =
      Ensures-if (NextBacked V) (leb r.randomized_timeout (r.election_tick + 1))
        (λ _. fire-Backed msg_vote _ (Quiet-IsBacked V r _ (with_others r _ _ _ _) h))
        (λ _. Ensures-some (NextBacked V) _ (λ _. Quiet-IsBacked V r _ (with_others r _ _ _ _) h))

  tick_heartbeat-Backed : (r : Raft) → IsBacked V r → Ensures (NextBacked V) (tick_heartbeat r)
  unfolding tick_heartbeat
  tick_heartbeat-Backed r h =
      Ensures-if (NextBacked V) (leb r.heartbeat_timeout (r.heartbeat_tick + 1))
        (λ _. fire-Backed msg_heartbeat _ (Quiet-IsBacked V r _ (with_others r _ _ _ _) h))
        (λ _. Ensures-some (NextBacked V) _ (λ _. Quiet-IsBacked V r _ (with_others r _ _ _ _) h))

  call_tick-Backed :
      (t : TickFunc) (r : Raft) → IsBacked V r → Ensures (NextBacked V) (call_tick t r)
  unfolding call_tick
  call_tick-Backed tick_follower r h = tick_election-Backed r h
  call_tick-Backed tick_candidate r h = tick_election-Backed r h
  call_tick-Backed tick_leader r h = tick_heartbeat-Backed r h

  pub tick-Backed : (r : Raft) → IsBacked V r → Ensures (NextBacked V) (tick r)
  unfolding tick
  tick-Backed r h = call_tick-Backed r.tick r h
