-- ===== src/Raft/Replication.antt =====
-- `Step` and `Tick` of repl/sm.go only add to the log, and move the commit index up.
use harmony_db.Base.{
  ℕ, zero, suc, ◌+◌, ◌≤◌, ◌≡◌, refl, ◌∙◌, ◌⊎◌, inl, inr, Bool, true, false, Option, some, List, [],
  ◌∷◌, arith, Option-cases, ltb, leb, not, ◌==◌, if◌then◌else◌, if_intro, Ensures, Ensures-some,
  Ensures-if, Ensures-bind, Ensures-bind_any,
}
use mathlib.Core.List.{append-nil}
use harmony_db.Proto.{Message, Log, AppendEntries, AppendEntriesResponse}
use harmony_db.RaftLog
use harmony_db.RaftLog.{RaftLog, last_index}
use harmony_db.Raft.Types.{Raft, quorum, send_append_response}
use harmony_db.Raft.Append.{
  append_entries, accept_entries, commit_round, commit_loop, maybe_commit, acknowledge, back_up,
  append_result, append_messages, replicate_entries, is_nonempty, handle_append_entries,
  handle_append_response, replicate, Err, replicated_count, is_lead, proposal_entries,
}
use harmony_db.Raft.Growth.{
  Grows, SameLog, SameLog-refl, Grows-of_SameLog, SameLog-Grows, become_follower-SameLog,
  catch_up-SameLog, accept_entries-Grows,
}

append_entries-Grows :
    (from : ℕ) (ae : AppendEntries) (r : Raft) → Ensures (Grows r) (append_entries from ae r)
unfolding append_entries
append_entries-Grows from ae r =
    Ensures-if (Grows r) (ltb ae.term r.current_term)
      (λ _. Ensures-some (Grows r) _ (Grows-of_SameLog (rejected r)))
      (λ _. Ensures-bind_any (Grows r) _ _ (λ mismatch _.
        Ensures-some (Grows r) _
          (SameLog-Grows (catch_up-SameLog r ae.term) (answered _ mismatch))))
  where
    rejected : (s : Raft) → SameLog s (send_append_response from false s)
    rejected s = unfold send_append_response in record { log = refl; buffered = refl }

    answered :
        (s : Raft) (mismatch : Bool)
        → Grows s (if mismatch then send_append_response from false s else accept_entries from ae s)
    answered s true = Grows-of_SameLog (rejected s)
    answered s false = accept_entries-Grows from ae s

pub handle_append_entries-Grows :
    (m : Message) (r : Raft) → Ensures (Grows r) (handle_append_entries m r)
unfolding handle_append_entries
handle_append_entries-Grows m r = elim (Option-cases m.entries) [
  | inl e ↦ rw e (Ensures-some (Grows r) r (Grows-of_SameLog (SameLog-refl r)))
  | inr (ae, e) ↦ rw e (append_entries-Grows m.from ae r)
]

-- Only the commit index moves, up and within the log.
pub record Commits (r r' : Raft) : Type 0 where
  pub entries : r'.raft_log.entries ≡ r.raft_log.entries
  pub commit_le : r.raft_log.commit_index ≤ r'.raft_log.commit_index
  pub commit_bound :
      (r'.raft_log.commit_index ≡ r.raft_log.commit_index)
      ⊎ (r'.raft_log.commit_index ≤ last_index r'.raft_log)
  pub applied : r'.raft_log.last_applied ≡ r.raft_log.last_applied
  pub stable : r'.raft_log.stable_index ≡ r.raft_log.stable_index
  pub buffered : r'.readyc ≡ r.readyc

Commits-refl : (r : Raft) → Commits r r
Commits-refl r = record {
  entries = refl;
  commit_le = omega arith;
  commit_bound = inl refl;
  applied = refl;
  stable = refl;
  buffered = refl;
}

Commits-trans : {r s t : Raft} → Commits r s → Commits s t → Commits r t
unfolding last_index
Commits-trans {r} {s} {t} p q = record {
  entries = q.entries ∙ p.entries;
  commit_le = omega arith;
  commit_bound = elim q.commit_bound [
    | inr b ↦ inr b
    | inl e ↦ elim p.commit_bound [ inl d ↦ inl (e ∙ d) | inr b ↦ inr (rw (e, q.entries) b) ]
  ];
  applied = q.applied ∙ p.applied;
  stable = q.stable ∙ p.stable;
  buffered = q.buffered ∙ p.buffered;
}

Grows-of_Commits : {r r' : Raft} → Commits r r' → Grows r r'
Grows-of_Commits {r} {r'} h = record {
  more = [];
  entries = rw (h.entries, append-nil);
  commit_le = h.commit_le;
  commit_bound = h.commit_bound;
  applied = h.applied;
  stable = h.stable;
  buffered = h.buffered;
}

commit_at-Commits :
    (index : ℕ) (r : Raft)
    → Commits r (record r { raft_log = (RaftLog.maybe_commit r.raft_log index).0 })
unfolding RaftLog.maybe_commit last_index
commit_at-Commits index r = record {
  entries = ground arith;
  commit_le = ground arith;
  commit_bound = ground arith;
  applied = ground arith;
  stable = ground arith;
  buffered = refl;
}

commit_round-Commits : (index : ℕ) (r : Raft) → Ensures (Commits r) (commit_round index r)
unfolding commit_round
commit_round-Commits index r =
    Ensures-if (Commits r) (leb (quorum r) (replicated_count index r))
      (λ _. Ensures-bind_any (Commits r) (RaftLog.term r.raft_log index) _ (λ t _.
        Ensures-some (Commits r) _ (
          if_intro (Commits r) (t == r.current_term) _ _ (λ _. commit_at-Commits index r)
            (λ _. Commits-refl r))))
      (λ _. Ensures-some (Commits r) r (Commits-refl r))

pub commit_loop-Commits :
    (rounds index : ℕ) (r : Raft) → Ensures (Commits r) (commit_loop rounds index r)
unfolding commit_loop
commit_loop-Commits zero index r = Ensures-some (Commits r) r (Commits-refl r)
commit_loop-Commits (suc rounds) index r =
    Ensures-bind (Commits r) (Commits r) _ _ (commit_round-Commits index r) (λ s q. record {
      at = λ t e. Commits-trans q ((commit_loop-Commits rounds (index + 1) s).at t e);
    })

append_result-Grows :
    (peer : ℕ) (resp : AppendEntriesResponse) (r : Raft)
    → Ensures (Grows r) (append_result peer resp r)
unfolding append_result maybe_commit acknowledge back_up
append_result-Grows peer resp r =
    Ensures-if (Grows r) (ltb r.current_term resp.current_term)
      (λ _.
        Ensures-some (Grows r) _ (Grows-of_SameLog (become_follower-SameLog r resp.current_term)))
      (λ _.
        Ensures-if (Grows r) (ltb resp.current_term r.current_term)
          (λ _. Ensures-some (Grows r) r (Grows-of_SameLog (SameLog-refl r)))
          (λ _.
            Ensures-if (Grows r) resp.success
              (λ _. record {
                at = λ t e.
                    SameLog-Grows (record { log = refl; buffered = refl })
                      (Grows-of_Commits ((commit_loop-Commits _ _ _).at t e));
              })
              (λ _.
                Ensures-some (Grows r) _
                  (Grows-of_SameLog (record { log = refl; buffered = refl })))))

pub handle_append_response-Grows :
    (m : Message) (r : Raft) → Ensures (Grows r) (handle_append_response m r)
unfolding handle_append_response
handle_append_response-Grows m r = elim (Option-cases m.entries_resp) [
  | inl e ↦ rw e (Ensures-some (Grows r) r (Grows-of_SameLog (SameLog-refl r)))
  | inr (resp, e) ↦ rw e (append_result-Grows m.from resp r)
]

-- The leader's own append.
appended-Grows :
    (es : List Log) (r r' : Raft)
    → r'.raft_log ≡ RaftLog.append r.raft_log es
    → r'.readyc ≡ r.readyc
    → Grows r r'
unfolding RaftLog.append
appended-Grows [] r r' e b = Grows-of_SameLog (record { log = e; buffered = b })
appended-Grows (x ∷ es) r r' e b = record {
  more = x ∷ es;
  entries = ground arith;
  commit_le = ground arith;
  commit_bound = inl (ground arith);
  applied = ground arith;
  stable = ground arith;
  buffered = b;
}

abbrev pub GrowsStep : Raft → Raft × Option Err → Type 0
GrowsStep r s = Grows r s.0

pub replicate-Grows : (m : Message) (r : Raft) → Ensures (GrowsStep r) (replicate m r)
unfolding replicate replicate_entries
replicate-Grows m r =
    Ensures-if (GrowsStep r) (not (is_lead r.state)) (λ _. stay)
      (λ _.
        Ensures-if (GrowsStep r) (is_nonempty (proposal_entries m))
          (λ _.
            Ensures-bind (GrowsStep r) (Grows r) _ _
              (Ensures-bind_any (Grows r) (append_messages _ _) _
                (λ ms _. Ensures-some (Grows r) _ (appended-Grows _ r _ refl refl)))
              (λ s g. Ensures-some (GrowsStep r) _ g))
          (λ _. stay))
  where
    stay : {e : Option Err} → Ensures (GrowsStep r) (some (r, e))
    stay {e} = Ensures-some (GrowsStep r) (r, e) (Grows-of_SameLog (SameLog-refl r))
