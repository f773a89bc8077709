-- ===== src/Raft/Quiet.antt =====
-- The methods of repl/sm.go that cast no vote: they leave `votedFor` alone, never lower the term,
-- and queue no granted vote. The leader's sends are in the module `Sends`.
use harmony_db.Base.{
  ℕ, zero, suc, ◌+◌, ◌≤◌, refl, Bool, true, false, arith, All-append, Option-cases, inl, inr, ltb,
  leb, ltb→lt, if_intro, Ensures, Ensures-some, Ensures-if, Ensures-bind, Ensures-bind_any,
  if◌then◌else◌, ◌==◌,
}
use harmony_db.Proto.{Message, AppendEntries, AppendEntriesResponse}
use harmony_db.RaftLog
use harmony_db.RaftLog.{RaftLog}
use harmony_db.Raft.Types.{Raft, quorum, send_append_response, send_append_response_after_persist}
use harmony_db.Raft.Become.{become_follower, become_candidate, become_leader}
use harmony_db.Raft.Append.{
  append_entries, accept_entries, commit_round, commit_loop, maybe_commit, acknowledge, back_up,
  append_result, is_nonempty, handle_append_entries, handle_append_response, replicated_count,
}
use harmony_db.Raft.Silent.{
  IsHonest, Silent, Silent-of_Same, Quiet, Quiet-trans, Quiet-refl, with_others,
}

module _ (r : Raft) where
  pub become_follower-Quiet : (term : ℕ) → r.current_term ≤ term → Quiet r (become_follower term r)
  unfolding become_follower
  become_follower-Quiet term h = record {
    silent =
        Silent-of_Same r _
          (record {
            id_same = ground arith;
            size_same = ground arith;
            voted = ground arith;
            msgs = ground arith;
            after = ground arith;
            buffered = ground arith;
          })
          (ground arith);
    polls = inr (ground arith, ground arith, ground arith);
  }

  pub become_candidate-Silent : Silent r (become_candidate r)
  unfolding become_candidate
  become_candidate-Silent =
      Silent-of_Same r _
        (record {
          id_same = ground arith;
          size_same = ground arith;
          voted = ground arith;
          msgs = ground arith;
          after = ground arith;
          buffered = ground arith;
        })
        (ground arith)

  pub become_leader-Silent : Silent r (become_leader r)
  unfolding become_leader
  become_leader-Silent =
      Silent-of_Same r _
        (record {
          id_same = refl;
          size_same = refl;
          voted = refl;
          msgs = refl;
          after = refl;
          buffered = refl;
        })
        (omega arith)

  pub send_append_response-Quiet :
      (to : ℕ) (success : Bool) → Quiet r (send_append_response to success r)
  unfolding send_append_response
  send_append_response-Quiet to success = record {
    silent = record {
      id_same = refl;
      size_same = refl;
      buffered = refl;
      voted = refl;
      term_le = omega arith;
      msgs = λ b h. All-append (IsHonest b) r.msgs _ h ((λ resp e. cc), tt);
      after = λ b h. h;
    };
    polls = inl (refl, refl, refl, refl);
  }

  pub send_append_response_after_persist-Quiet :
      (to : ℕ) (success : Bool) → Quiet r (send_append_response_after_persist to success r)
  unfolding send_append_response_after_persist
  send_append_response_after_persist-Quiet to success = record {
    silent = record {
      id_same = refl;
      size_same = refl;
      buffered = refl;
      voted = refl;
      term_le = omega arith;
      msgs = λ b h. h;
      after = λ b h. All-append (IsHonest b) r.msgs_after_append _ h ((λ resp e. cc), tt);
    };
    polls = inl (refl, refl, refl, refl);
  }

accept_entries-Quiet :
    (from : ℕ) (ae : AppendEntries) (r : Raft) → Quiet r (accept_entries from ae r)
unfolding accept_entries
accept_entries-Quiet from ae r =
    if_intro (Quiet r) (is_nonempty ae.entries) _ _
      (λ _.
        Quiet-trans (with_others r _ _ _ _) (send_append_response_after_persist-Quiet _ from true))
      (λ _. with_others r _ _ _ _)

-- What follows the consistency check.
answer-Quiet :
    (from : ℕ) (ae : AppendEntries) (r : Raft) (mismatch : Bool)
    → Quiet r (if mismatch then send_append_response from false r else accept_entries from ae r)
answer-Quiet from ae r true = send_append_response-Quiet r from false
answer-Quiet from ae r false = accept_entries-Quiet from ae r

-- The step down on a higher term.
pub catch_up-Quiet :
    (term : ℕ) (r : Raft) → Quiet r (if ltb r.current_term term then become_follower term r else r)
catch_up-Quiet term r =
    if_intro (Quiet r) (ltb r.current_term term) _ _
      (λ e. become_follower-Quiet r term (omega (arith, ltb→lt _ _ e))) (λ _. Quiet-refl r)

append_entries-Quiet :
    (from : ℕ) (ae : AppendEntries) (r : Raft) → Ensures (Quiet r) (append_entries from ae r)
unfolding append_entries
append_entries-Quiet from ae r =
    Ensures-if (Quiet r) (ltb ae.term r.current_term)
      (λ _. Ensures-some (Quiet r) _ (send_append_response-Quiet r from false))
      (λ _. Ensures-bind_any (Quiet r) _ _ (λ mismatch _.
        Ensures-some (Quiet r) _
          (Quiet-trans (catch_up-Quiet ae.term r) (answer-Quiet from ae _ mismatch))))

pub handle_append_entries-Quiet :
    (m : Message) (r : Raft) → Ensures (Quiet r) (handle_append_entries m r)
unfolding handle_append_entries
handle_append_entries-Quiet m r = elim (Option-cases m.entries) [
  | inl e ↦ rw e (Ensures-some (Quiet r) r (Quiet-refl r))
  | inr (ae, e) ↦ rw e (append_entries-Quiet m.from ae r)
]

with_log-Quiet : (l : RaftLog) (r : Raft) → Quiet r (record r { raft_log = l })
with_log-Quiet l r = with_others r _ _ _ _

commit_round-Quiet : (index : ℕ) (r : Raft) → Ensures (Quiet r) (commit_round index r)
unfolding commit_round
commit_round-Quiet index r =
    Ensures-if (Quiet r) (leb (quorum r) (replicated_count index r))
      (λ _. Ensures-bind_any (Quiet r) (RaftLog.term r.raft_log index) _ (λ t _.
        Ensures-some (Quiet r) _ (
          if_intro (Quiet r) (t == r.current_term) _ _ (λ _. with_log-Quiet _ r)
            (λ _. Quiet-refl r))))
      (λ _. Ensures-some (Quiet r) r (Quiet-refl r))

commit_loop-Quiet : (rounds index : ℕ) (r : Raft) → Ensures (Quiet r) (commit_loop rounds index r)
unfolding commit_loop
commit_loop-Quiet zero index r = Ensures-some (Quiet r) r (Quiet-refl r)
commit_loop-Quiet (suc rounds) index r =
    Ensures-bind (Quiet r) (Quiet r) _ _ (commit_round-Quiet index r) (λ s q. record {
      at = λ t e. Quiet-trans q ((commit_loop-Quiet rounds (index + 1) s).at t e);
    })

append_result-Quiet :
    (peer : ℕ) (resp : AppendEntriesResponse) (r : Raft)
    → Ensures (Quiet r) (append_result peer resp r)
unfolding append_result maybe_commit acknowledge back_up
append_result-Quiet peer resp r =
    Ensures-if (Quiet r) (ltb r.current_term resp.current_term)
      (λ e.
        Ensures-some (Quiet r) _
          (become_follower-Quiet r resp.current_term (omega (arith, ltb→lt _ _ e))))
      (λ _.
        Ensures-if (Quiet r) (ltb resp.current_term r.current_term)
          (λ _. Ensures-some (Quiet r) r (Quiet-refl r))
          (λ _.
            Ensures-if (Quiet r) resp.success
              (λ _. record {
                at = λ t e. Quiet-trans (with_others r _ _ _ _) ((commit_loop-Quiet _ _ _).at t e);
              })
              (λ _. Ensures-some (Quiet r) _ (with_others r _ _ _ _))))

pub handle_append_response-Quiet :
    (m : Message) (r : Raft) → Ensures (Quiet r) (handle_append_response m r)
unfolding handle_append_response
handle_append_response-Quiet m r = elim (Option-cases m.entries_resp) [
  | inl e ↦ rw e (Ensures-some (Quiet r) r (Quiet-refl r))
  | inr (resp, e) ↦ rw e (append_result-Quiet m.from resp r)
]
