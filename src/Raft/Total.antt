-- ===== src/Raft/Total.antt =====
-- `Step` and `Tick` of repl/sm.go do not panic on a log that is numbered by place.
use harmony_db.Base.{
  ℕ, suc, ◌+◌, ◌-◌, ◌≡◌, refl, Bool, true, false, Option, some, List, [], ◌∷◌, arith, inl, inr, ltb,
  leb, not, Option-cases, Returns, Returns-bind, Returns-if, length, if◌then◌else◌, subst,
}
use harmony_db.Base.Maps.{Map}
use harmony_db.Proto.{
  Message, MessageType, Log, AppendEntries, AppendEntriesResponse, RequestVoteResponse, bare,
  msg_app, msg_app_resp, msg_vote, msg_vote_resp, msg_heartbeat,
}
use harmony_db.RaftLog
use harmony_db.RaftLog.{RaftLog, last_index}
use harmony_db.RaftLog.Sequential.{
  CountsFrom, CountsFrom-append, IsSequential, last_index-eq-length, term_total,
}
use harmony_db.Raft.Types.{
  Raft, TickFunc, StepFunc, progress_of, step_follower, step_candidate, step_leader, tick_follower,
  tick_candidate, tick_leader,
}
use harmony_db.Raft.Become.{become_follower, put_vote, campaign}
use harmony_db.Raft.Append.{
  append_entries, handle_append_entries, handle_append_response, append_result, broadcast_heartbeat,
  replicate, replicate_entries, acknowledge, prev_mismatch, assign_ids, append_message,
  append_messages, heartbeat, heartbeats, is_lead, is_nonempty, proposal_entries,
}
use harmony_db.Raft.Vote.{vote_result, handle_vote_response}
use harmony_db.Raft.Step.{
  no_error, vote_or_campaign, from_leader, on_follower, on_candidate, on_leader, call_step, step,
  tick_election, tick_heartbeat, call_tick, tick,
}
use harmony_db.Raft.Growth.{catch_up-SameLog}
use harmony_db.Raft.Commit.{maybe_commit_exact}

prev_mismatch_total :
    (ae : AppendEntries) (l : RaftLog) → IsSequential l → Returns (prev_mismatch ae l)
unfolding prev_mismatch
prev_mismatch_total ae l s =
    Returns-if (not (ltb 0 ae.prev_log_idx)) _ _ (λ _. (false, refl))
      (λ _.
        Returns-if (ltb (last_index l) ae.prev_log_idx) _ _ (λ _. (true, refl))
          (λ _.
            Returns-bind (RaftLog.term l ae.prev_log_idx) _ (term_total l ae.prev_log_idx s)
              (λ t. (_, refl))))

append_entries_total :
    (from : ℕ) (ae : AppendEntries) (r : Raft)
    → IsSequential r.raft_log
    → Returns (append_entries from ae r)
unfolding append_entries
append_entries_total from ae r s =
    Returns-if (ltb ae.term r.current_term) _ _ (λ _. (_, refl))
      (λ _.
        let r1 : Raft = if ltb r.current_term ae.term then become_follower ae.term r else r in
        Returns-bind (prev_mismatch ae r1.raft_log) _
          (prev_mismatch_total ae r1.raft_log (rw (catch_up-SameLog r ae.term).log s))
          (λ mismatch. (_, refl)))

handle_append_entries_total :
    (m : Message) (r : Raft) → IsSequential r.raft_log → Returns (handle_append_entries m r)
unfolding handle_append_entries
handle_append_entries_total m r s = elim (Option-cases m.entries) [
  | inl e ↦ rw e (r, refl)
  | inr (ae, e) ↦ rw e (append_entries_total m.from ae r s)
]

append_result_total :
    (peer : ℕ) (resp : AppendEntriesResponse) (r : Raft)
    → IsSequential r.raft_log
    → Returns (append_result peer resp r)
unfolding append_result acknowledge
append_result_total peer resp r s =
    Returns-if (ltb r.current_term resp.current_term) _ _ (λ _. (_, refl))
      (λ _.
        Returns-if (ltb resp.current_term r.current_term) _ _ (λ _. (r, refl))
          (λ _.
            Returns-if resp.success _ _
              (λ _. let (t, e, h) = maybe_commit_exact (acknowledge peer r) s in (t, e))
              (λ _. (_, refl))))

handle_append_response_total :
    (m : Message) (r : Raft) → IsSequential r.raft_log → Returns (handle_append_response m r)
unfolding handle_append_response
handle_append_response_total m r s = elim (Option-cases m.entries_resp) [
  | inl e ↦ rw e (r, refl)
  | inr (resp, e) ↦ rw e (append_result_total m.from resp r s)
]

assign_ids-CountsFrom : (term i : ℕ) (es : List Log) → CountsFrom i (assign_ids term i es)
unfolding assign_ids
assign_ids-CountsFrom term i [] = tt
assign_ids-CountsFrom term i (e ∷ es) =
    let q : i + 1 ≡ suc i = omega arith in
    (
      refl,
      subst (λ j. CountsFrom j (assign_ids term (i + 1) es)) q
          (assign_ids-CountsFrom term (i + 1) es),
    )

appended-IsSequential :
    (l : RaftLog) (term : ℕ) (es : List Log)
    → IsSequential l
    → IsSequential (RaftLog.append l (assign_ids term (last_index l + 1) es))
unfolding assign_ids RaftLog.append
appended-IsSequential l term [] s = s
appended-IsSequential l term (e ∷ es) s =
    let q : last_index l + 1 ≡ length l.entries + 1 = omega (arith, last_index-eq-length l s) in
    CountsFrom-append 1 l.entries _ s (
      subst (λ j. CountsFrom j (assign_ids term (last_index l + 1) (e ∷ es))) q
        (assign_ids-CountsFrom term (last_index l + 1) (e ∷ es)))

module _ (r : Raft) (s : IsSequential r.raft_log) where
  append_message_total : (peer : ℕ) → Returns (append_message r peer)
  unfolding append_message
  append_message_total peer =
      let prev = (progress_of peer r.progress).next_index - 1 in
      Returns-bind (if ltb 0 prev then RaftLog.term r.raft_log prev else some 0) _
        (Returns-if (ltb 0 prev) _ _ (λ _. term_total r.raft_log prev s) (λ _. (0, refl)))
        (λ t. (_, refl))

  append_messages_total : (peers : List ℕ) → Returns (append_messages r peers)
  unfolding append_messages
  append_messages_total [] = ([], refl)
  append_messages_total (peer ∷ peers) =
      Returns-bind (append_message r peer) _ (append_message_total peer) (λ m.
        Returns-bind (append_messages r peers) _ (append_messages_total peers) (λ ms. (_, refl)))

  heartbeat_total : (peer : ℕ) → Returns (heartbeat r peer)
  unfolding heartbeat
  heartbeat_total peer =
      Returns-bind (RaftLog.term r.raft_log (progress_of peer r.progress).match_index) _
        (term_total r.raft_log _ s) (λ t. (_, refl))

  heartbeats_total : (peers : List ℕ) → Returns (heartbeats r peers)
  unfolding heartbeats
  heartbeats_total [] = ([], refl)
  heartbeats_total (peer ∷ peers) =
      Returns-bind (heartbeat r peer) _ (heartbeat_total peer)
        (λ m. Returns-bind (heartbeats r peers) _ (heartbeats_total peers) (λ ms. (_, refl)))

  broadcast_heartbeat_total : Returns (broadcast_heartbeat r)
  unfolding broadcast_heartbeat
  broadcast_heartbeat_total =
      Returns-bind (heartbeats r r.peers) _ (heartbeats_total r.peers) (λ ms. (_, refl))

replicate_total : (m : Message) (r : Raft) → IsSequential r.raft_log → Returns (replicate m r)
unfolding replicate replicate_entries
replicate_total m r s =
    Returns-if (not (is_lead r.state)) _ _ (λ _. (_, refl))
      (λ _.
        Returns-if (is_nonempty (proposal_entries m)) _ _
          (λ _. Returns-bind _ _ (entries_total (proposal_entries m)) (λ r1. (_, refl)))
          (λ _. (_, refl)))
  where
    entries_total : (es : List Log) → Returns (replicate_entries es r)
    entries_total es =
        let es1 = assign_ids r.current_term (last_index r.raft_log + 1) es in
        let r1 : Raft = record r { raft_log = RaftLog.append r.raft_log es1 } in
        Returns-bind (append_messages r1 r1.peers) _
          (append_messages_total r1 (appended-IsSequential r.raft_log r.current_term es s) r1.peers)
          (λ ms. (_, refl))

-- A candidate has a map to write the votes to.
abbrev pub IsPoised : Raft → Type 0
IsPoised r = r.step ≡ step_candidate → (votes : Map Bool) × (r.votes ≡ some votes)

vote_result_total :
    (peer : ℕ) (resp : RequestVoteResponse) (r : Raft) (votes : Map Bool)
    → r.votes ≡ some votes
    → Returns (vote_result peer resp r)
unfolding vote_result put_vote
vote_result_total peer resp r votes e =
    Returns-if (ltb resp.term r.current_term) _ _ (λ _. (_, refl))
      (λ _. Returns-if (ltb r.current_term resp.term) _ _ (λ _. (_, refl)) (λ _. rw e (_, refl)))

handle_vote_response_total :
    (m : Message) (r : Raft) (votes : Map Bool)
    → r.votes ≡ some votes
    → Returns (handle_vote_response m r)
unfolding handle_vote_response
handle_vote_response_total m r votes v = elim (Option-cases m.vote_resp) [
  | inl e ↦ rw e (r, refl)
  | inr (resp, e) ↦ rw e (vote_result_total m.from resp r votes v)
]

no_error_total : (o : Option Raft) → Returns o → Returns (no_error o)
no_error_total o h = Returns-bind o _ h (λ r1. (_, refl))

module _ (m : Message) (r : Raft) (s : IsSequential r.raft_log) where
  vote_or_campaign_total : Returns (vote_or_campaign m r)
  unfolding vote_or_campaign campaign put_vote
  vote_or_campaign_total = elim (Option-cases m.vote) [
    | inl e ↦ rw e (_, refl)
    | inr (req, e) ↦ rw e (_, refl)
  ]

  from_leader_total : Returns (from_leader m r)
  unfolding from_leader
  from_leader_total = no_error_total _ (handle_append_entries_total m _ s)

  on_follower_total : (t : MessageType) → Returns (on_follower t m r)
  unfolding on_follower
  on_follower_total msg_vote = vote_or_campaign_total
  on_follower_total msg_app = from_leader_total
  on_follower_total msg_heartbeat = from_leader_total
  on_follower_total _ = (_, refl)

  on_candidate_total :
      (t : MessageType) (votes : Map Bool) → r.votes ≡ some votes → Returns (on_candidate t m r)
  unfolding on_candidate
  on_candidate_total msg_vote votes v = vote_or_campaign_total
  on_candidate_total msg_vote_resp votes v =
      no_error_total _ (handle_vote_response_total m r votes v)
  on_candidate_total msg_app votes v = from_leader_total
  on_candidate_total msg_heartbeat votes v = from_leader_total
  on_candidate_total _ votes v = (_, refl)

  on_leader_total : (t : MessageType) → Returns (on_leader t m r)
  unfolding on_leader
  on_leader_total msg_heartbeat = no_error_total _ (broadcast_heartbeat_total r s)
  on_leader_total msg_app = replicate_total m r s
  on_leader_total msg_app_resp = no_error_total _ (handle_append_response_total m r s)
  on_leader_total _ = (_, refl)

  pub step_total : IsPoised r → Returns (step m r)
  unfolding step
  step_total p = go r.step refl
    where
      go : (f : StepFunc) → r.step ≡ f → Returns (call_step f m r)
      go step_follower e = unfold call_step in on_follower_total m.type
      go step_candidate e =
          unfold call_step in (let (votes, v) = p e in on_candidate_total m.type votes v)
      go step_leader e = unfold call_step in on_leader_total m.type

module _ (r : Raft) (s : IsSequential r.raft_log) (p : IsPoised r) where
  tick_election_total : Returns (tick_election r)
  unfolding tick_election
  tick_election_total =
      Returns-if (leb r.randomized_timeout (r.election_tick + 1)) _ _
        (λ _. Returns-bind _ _ (step_total (bare msg_vote) _ s p) (λ a. (_, refl))) (λ _. (_, refl))

  tick_heartbeat_total : Returns (tick_heartbeat r)
  unfolding tick_heartbeat
  tick_heartbeat_total =
      Returns-if (leb r.heartbeat_timeout (r.heartbeat_tick + 1)) _ _
        (λ _. Returns-bind _ _ (step_total (bare msg_heartbeat) _ s p) (λ a. (_, refl)))
        (λ _. (_, refl))

  call_tick_total : (t : TickFunc) → Returns (call_tick t r)
  unfolding call_tick
  call_tick_total tick_follower = tick_election_total
  call_tick_total tick_candidate = tick_election_total
  call_tick_total tick_leader = tick_heartbeat_total

  pub tick_total : Returns (tick r)
  unfolding tick
  tick_total = call_tick_total r.tick
