-- ===== src/Raft/Monotone.antt =====
-- Every message and every tick leaves the log's old entries in place and the commit index no lower
-- (repl/sm.go).
use harmony_db.Base.{
  ◌+◌, refl, inl, inr, Option, none, some, Option-cases, leb, Ensures, Ensures-some, Ensures-if,
  Ensures-bind,
}
use harmony_db.Proto.{
  Message, MessageType, msg_app, msg_app_resp, msg_vote, msg_vote_resp, msg_heartbeat,
}
use harmony_db.Raft.Types.{
  Raft, StepFunc, TickFunc, step_follower, step_candidate, step_leader, tick_follower,
  tick_candidate, tick_leader,
}
use harmony_db.Raft.Vote.{handle_vote_request}
use harmony_db.Raft.Step.{
  no_error, vote_or_campaign, from_leader, on_follower, on_candidate, on_leader, call_step, step,
  dropping_error, tick_election, tick_heartbeat, call_tick, tick,
}
use harmony_db.Raft.Growth.{
  Grows, SameLog, SameLog-refl, Grows-of_SameLog, SameLog-Grows, handle_vote_request-SameLog,
  handle_vote_response-SameLog, broadcast_heartbeat-SameLog, campaign-SameLog,
}
use harmony_db.Raft.Replication.{
  GrowsStep, handle_append_entries-Grows, handle_append_response-Grows, replicate-Grows,
}

no_error-Grows :
    (r : Raft) (o : Option Raft) → Ensures (Grows r) o → Ensures (GrowsStep r) (no_error o)
no_error-Grows r o h =
    Ensures-bind (GrowsStep r) (Grows r) o _ h (λ s k. Ensures-some (GrowsStep r) _ k)

same-Grows : (r : Raft) (o : Option Raft) → Ensures (SameLog r) o → Ensures (Grows r) o
same-Grows r o h = record { at = λ s e. Grows-of_SameLog (h.at s e) }

module _ (m : Message) (r : Raft) where
  stay-Grows : Ensures (GrowsStep r) (some (r, none))
  stay-Grows = Ensures-some (GrowsStep r) (r, none) (Grows-of_SameLog (SameLog-refl r))

  vote_or_campaign-Grows : Ensures (GrowsStep r) (vote_or_campaign m r)
  unfolding vote_or_campaign
  vote_or_campaign-Grows = elim (Option-cases m.vote) [
    | inl e ↦ rw e (no_error-Grows r _ (same-Grows r _ (campaign-SameLog r)))
    | inr (req, e) ↦
        rw (e, vote_or_campaign)
          (Ensures-some (GrowsStep r) (handle_vote_request m r, none)
            (Grows-of_SameLog (handle_vote_request-SameLog m r)))
  ]

  from_leader-Grows : Ensures (GrowsStep r) (from_leader m r)
  unfolding from_leader
  from_leader-Grows =
      let r1 : Raft = record r { election_tick = 0 } in
      no_error-Grows r _ (record {
        at = λ s e.
            SameLog-Grows (record { log = refl; buffered = refl })
              ((handle_append_entries-Grows m r1).at s e);
      })

  on_follower-Grows : (t : MessageType) → Ensures (GrowsStep r) (on_follower t m r)
  unfolding on_follower
  on_follower-Grows msg_vote = vote_or_campaign-Grows
  on_follower-Grows msg_app = from_leader-Grows
  on_follower-Grows msg_heartbeat = from_leader-Grows
  on_follower-Grows _ = stay-Grows

  on_candidate-Grows : (t : MessageType) → Ensures (GrowsStep r) (on_candidate t m r)
  unfolding on_candidate
  on_candidate-Grows msg_vote = vote_or_campaign-Grows
  on_candidate-Grows msg_vote_resp =
      no_error-Grows r _ (same-Grows r _ (handle_vote_response-SameLog m r))
  on_candidate-Grows msg_app = from_leader-Grows
  on_candidate-Grows msg_heartbeat = from_leader-Grows
  on_candidate-Grows _ = stay-Grows

  on_leader-Grows : (t : MessageType) → Ensures (GrowsStep r) (on_leader t m r)
  unfolding on_leader
  on_leader-Grows msg_heartbeat =
      no_error-Grows r _ (same-Grows r _ (broadcast_heartbeat-SameLog r))
  on_leader-Grows msg_app = replicate-Grows m r
  on_leader-Grows msg_app_resp = no_error-Grows r _ (handle_append_response-Grows m r)
  on_leader-Grows _ = stay-Grows

  call_step-Grows : (f : StepFunc) → Ensures (GrowsStep r) (call_step f m r)
  unfolding call_step
  call_step-Grows step_follower = on_follower-Grows m.type
  call_step-Grows step_candidate = on_candidate-Grows m.type
  call_step-Grows step_leader = on_leader-Grows m.type

  -- Whatever message a node handles, in whatever state, its log afterwards is its old log with
  -- entries added behind it; the commit index is no lower, and lies within the log if it moved;
  -- the applied and the stable index and the `Ready` channel are as they were.
  pub step-Grows : Ensures (GrowsStep r) (step m r)
  unfolding step
  step-Grows = call_step-Grows r.step

fire-Grows :
    (m : Message) (r r1 : Raft) → SameLog r r1 → Ensures (Grows r) (dropping_error (step m r1))
fire-Grows m r r1 q =
    Ensures-bind (Grows r) (GrowsStep r1) _ _ (step-Grows m r1)
      (λ s g. Ensures-some (Grows r) _ (SameLog-Grows q g))

tick_election-Grows : (r : Raft) → Ensures (Grows r) (tick_election r)
unfolding tick_election
tick_election-Grows r =
    Ensures-if (Grows r) (leb r.randomized_timeout (r.election_tick + 1))
      (λ _. fire-Grows _ r _ (record { log = refl; buffered = refl }))
      (λ _. Ensures-some (Grows r) _ (Grows-of_SameLog (record { log = refl; buffered = refl })))

tick_heartbeat-Grows : (r : Raft) → Ensures (Grows r) (tick_heartbeat r)
unfolding tick_heartbeat
tick_heartbeat-Grows r =
    Ensures-if (Grows r) (leb r.heartbeat_timeout (r.heartbeat_tick + 1))
      (λ _. fire-Grows _ r _ (record { log = refl; buffered = refl }))
      (λ _. Ensures-some (Grows r) _ (Grows-of_SameLog (record { log = refl; buffered = refl })))

pub tick-Grows : (r : Raft) → Ensures (Grows r) (tick r)
unfolding tick
tick-Grows r = go r.tick
  where
    go : (t : TickFunc) → Ensures (Grows r) (call_tick t r)
    go tick_follower = tick_election-Grows r
    go tick_candidate = tick_election-Grows r
    go tick_leader = tick_heartbeat-Grows r
