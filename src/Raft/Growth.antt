-- ===== src/Raft/Growth.antt =====
-- What the methods of repl/sm.go do to the log: entries are only added behind the old ones, and the
-- commit index moves up, never past the last index. Only `Ready` and `Advance` move the rest.
use harmony_db.Base.{
  ℕ, ◌≤◌, ◌≡◌, refl, ◌∙◌, ◌⊎◌, inl, inr, Bool, List, [], ◌∷◌, ◌++◌, arith, Option-cases, ltb, min,
  if◌then◌else◌, if_intro, Ensures, Ensures-some, Ensures-if, Ensures-bind_any,
}
use mathlib.Core.List.{append-nil}
use harmony_db.Base.Maps.{Map}
use harmony_db.Proto.{Message, Log, AppendEntries, RequestVote, RequestVoteResponse}
use harmony_db.RaftLog
use harmony_db.RaftLog.{RaftLog, last_index}
use harmony_db.Raft.Types.{Raft, send_append_response_after_persist, send_vote_response}
use harmony_db.Raft.Become.{
  become_follower, become_candidate, become_leader, put_vote, stand, campaign,
}
use harmony_db.Raft.Append.{accept_entries, heartbeats, broadcast_heartbeat, is_nonempty}
use harmony_db.Raft.Vote.{
  grant, decide_vote, answer_request, handle_vote_request, count_vote, vote_result,
  handle_vote_response,
}

pub record Grows (r r' : Raft) : Type 0 where
  pub more : List Log
  pub entries : r'.raft_log.entries ≡ r.raft_log.entries ++ more
  pub commit_le : r.raft_log.commit_index ≤ r'.raft_log.commit_index
  pub commit_bound :
      (r'.raft_log.commit_index ≡ r.raft_log.commit_index)
      ⊎ (r'.raft_log.commit_index ≤ last_index r'.raft_log)
  pub applied : r'.raft_log.last_applied ≡ r.raft_log.last_applied
  pub stable : r'.raft_log.stable_index ≡ r.raft_log.stable_index
  pub buffered : r'.readyc ≡ r.readyc

-- The log and the channel are as they were.
pub record SameLog (r r' : Raft) : Type 0 where
  pub log : r'.raft_log ≡ r.raft_log
  pub buffered : r'.readyc ≡ r.readyc

pub SameLog-refl : (r : Raft) → SameLog r r
SameLog-refl r = record { log = refl; buffered = refl }

pub SameLog-trans : {r s t : Raft} → SameLog r s → SameLog s t → SameLog r t
SameLog-trans p q = record { log = q.log ∙ p.log; buffered = q.buffered ∙ p.buffered }

pub Grows-of_SameLog : {r r' : Raft} → SameLog r r' → Grows r r'
Grows-of_SameLog {r} {r'} h = record {
  more = [];
  entries = rw (h.log, append-nil);
  commit_le = rw h.log (omega arith);
  commit_bound = inl (rw h.log);
  applied = rw h.log;
  stable = rw h.log;
  buffered = h.buffered;
}

pub SameLog-Grows : {r s t : Raft} → SameLog r s → Grows s t → Grows r t
SameLog-Grows {r} {s} {t} h g = record {
  more = g.more;
  entries = g.entries ∙ rw h.log;
  commit_le = rw (← h.log) g.commit_le;
  commit_bound = rw (← h.log) g.commit_bound;
  applied = g.applied ∙ rw h.log;
  stable = g.stable ∙ rw h.log;
  buffered = g.buffered ∙ h.buffered;
}

module _ (r : Raft) where
  pub become_follower-SameLog : (term : ℕ) → SameLog r (become_follower term r)
  unfolding become_follower
  become_follower-SameLog term = record { log = ground arith; buffered = ground arith }

  become_candidate-SameLog : SameLog r (become_candidate r)
  unfolding become_candidate
  become_candidate-SameLog = record { log = ground arith; buffered = ground arith }

  stand-SameLog : (votes : Map Bool) → SameLog r (stand votes r)
  unfolding stand become_leader
  stand-SameLog votes = record { log = ground arith; buffered = ground arith }

  pub catch_up-SameLog :
      (term : ℕ) → SameLog r (if ltb r.current_term term then become_follower term r else r)
  catch_up-SameLog term =
      if_intro (SameLog r) (ltb r.current_term term) _ _ (λ _. become_follower-SameLog term)
        (λ _. SameLog-refl r)

decide_vote-SameLog : (term c : ℕ) (r : Raft) → SameLog r (decide_vote term c r)
unfolding decide_vote grant send_vote_response
decide_vote-SameLog term c r = record { log = ground arith; buffered = ground arith }

answer_request-SameLog : (req : RequestVote) (r : Raft) → SameLog r (answer_request req r)
unfolding answer_request
answer_request-SameLog req r =
    if_intro (SameLog r) (ltb req.term r.current_term) _ _
      (λ _. unfold send_vote_response in record { log = refl; buffered = refl })
      (λ _.
        SameLog-trans (catch_up-SameLog r req.term)
          (decide_vote-SameLog req.term req.candidate_id _))

pub handle_vote_request-SameLog : (m : Message) (r : Raft) → SameLog r (handle_vote_request m r)
unfolding handle_vote_request
handle_vote_request-SameLog m r = elim (Option-cases m.vote) [
  | inl e ↦ rw e (SameLog-refl r)
  | inr (req, e) ↦ rw e (answer_request-SameLog req r)
]

count_vote-SameLog : (votes : Map Bool) (r : Raft) → SameLog r (count_vote votes r)
unfolding count_vote become_leader
count_vote-SameLog votes r = record { log = ground arith; buffered = ground arith }

vote_result-SameLog :
    (peer : ℕ) (resp : RequestVoteResponse) (r : Raft)
    → Ensures (SameLog r) (vote_result peer resp r)
unfolding vote_result
vote_result-SameLog peer resp r =
    Ensures-if (SameLog r) (ltb resp.term r.current_term)
      (λ _. Ensures-some (SameLog r) r (SameLog-refl r))
      (λ _.
        Ensures-if (SameLog r) (ltb r.current_term resp.term)
          (λ _. Ensures-some (SameLog r) _ (become_follower-SameLog r resp.term))
          (λ _.
            Ensures-bind_any (SameLog r) (put_vote peer resp.vote_granted r) _
              (λ votes _. Ensures-some (SameLog r) _ (count_vote-SameLog votes r))))

pub handle_vote_response-SameLog :
    (m : Message) (r : Raft) → Ensures (SameLog r) (handle_vote_response m r)
unfolding handle_vote_response
handle_vote_response-SameLog m r = elim (Option-cases m.vote_resp) [
  | inl e ↦ rw e (Ensures-some (SameLog r) r (SameLog-refl r))
  | inr (resp, e) ↦ rw e (vote_result-SameLog m.from resp r)
]

pub broadcast_heartbeat-SameLog : (r : Raft) → Ensures (SameLog r) (broadcast_heartbeat r)
unfolding broadcast_heartbeat
broadcast_heartbeat-SameLog r =
    Ensures-bind_any (SameLog r) (heartbeats r r.peers) _
      (λ ms _. Ensures-some (SameLog r) _ (record { log = refl; buffered = refl }))

pub campaign-SameLog : (r : Raft) → Ensures (SameLog r) (campaign r)
unfolding campaign
campaign-SameLog r =
    Ensures-some (SameLog r) _
      (SameLog-trans (become_candidate-SameLog r) (stand-SameLog (become_candidate r) _))

-- Appending, and then moving the commit index within the log.
log_append-Grows :
    (r r' : Raft) (es : List Log) (leader_commit : ℕ)
    → r'.raft_log ≡ (
        let l : RaftLog = RaftLog.append r.raft_log es in
        if ltb l.commit_index leader_commit
        then (RaftLog.maybe_commit l (min leader_commit (last_index l))).0
        else l)
    → r'.readyc ≡ r.readyc
    → Grows r r'
unfolding RaftLog.append RaftLog.maybe_commit last_index
log_append-Grows r r' [] leader_commit e b = record {
  more = [];
  entries = rw append-nil (ground arith);
  commit_le = ground arith;
  commit_bound = rw e (ground arith);
  applied = ground arith;
  stable = ground arith;
  buffered = b;
}
log_append-Grows r r' (x ∷ es) leader_commit e b = record {
  more = x ∷ es;
  entries = ground arith;
  commit_le = ground arith;
  commit_bound = rw e (ground arith);
  applied = ground arith;
  stable = ground arith;
  buffered = b;
}

pub accept_entries-Grows :
    (from : ℕ) (ae : AppendEntries) (r : Raft) → Grows r (accept_entries from ae r)
unfolding accept_entries send_append_response_after_persist
accept_entries-Grows from ae r =
    if_intro (Grows r) (is_nonempty ae.entries) _ _
      (λ _. log_append-Grows r _ ae.entries ae.leader_commit_idx refl refl)
      (λ _. log_append-Grows r _ ae.entries ae.leader_commit_idx refl refl)
