-- ===== src/Raft/Sends.antt =====
-- What a leader of repl/sm.go sends, and votes: proposals and heartbeats.
use harmony_db.Base.{
  inl, ℕ, ◌-◌, refl, Option, some, List, [], ◌∷◌, arith, All, All-append, ltb, not, Ensures,
  Ensures-some, Ensures-if, Ensures-bind, Ensures-bind_any, if◌then◌else◌,
}
use harmony_db.Proto.{Message, Log}
use harmony_db.RaftLog
use harmony_db.RaftLog.{RaftLog}
use harmony_db.Raft.Types.{Raft, progress_of}
use harmony_db.Raft.Append.{
  append_message, append_messages, replicate_entries, heartbeat, heartbeats, broadcast_heartbeat,
  is_nonempty, replicate, Err, is_lead, proposal_entries,
}
use harmony_db.Raft.Silent.{Ballots, IsHonest, Quiet, Quiet-refl}

-- Messages that carry no vote at all.
abbrev NoVote : Message → Type 0
NoVote m = (v : Ballots) → IsHonest v m

abbrev AllQuiet : List Message → Type 0
AllQuiet ms = (v : Ballots) → All (IsHonest v) ms

append_message-Quiet : (r : Raft) (peer : ℕ) → Ensures NoVote (append_message r peer)
unfolding append_message
append_message-Quiet r peer =
    let prev = (progress_of peer r.progress).next_index - 1 in
    Ensures-bind_any NoVote (if ltb 0 prev then RaftLog.term r.raft_log prev else some 0) _
      (λ t _. Ensures-some NoVote _ (λ v resp e. cc))

append_messages-Quiet : (r : Raft) (peers : List ℕ) → Ensures AllQuiet (append_messages r peers)
unfolding append_messages
append_messages-Quiet r [] = Ensures-some AllQuiet [] (λ v. tt)
append_messages-Quiet r (peer ∷ peers) =
    Ensures-bind AllQuiet NoVote _ _ (append_message-Quiet r peer) (λ m hm.
      Ensures-bind AllQuiet AllQuiet _ _ (append_messages-Quiet r peers)
        (λ ms hms. Ensures-some AllQuiet _ (λ v. (hm v, hms v))))

replicate_entries-Quiet : (es : List Log) (r : Raft) → Ensures (Quiet r) (replicate_entries es r)
unfolding replicate_entries
replicate_entries-Quiet es r =
    Ensures-bind (Quiet r) AllQuiet _ _ (append_messages-Quiet _ _) (λ ms hms.
      Ensures-some (Quiet r) _ (record {
        silent = record {
          id_same = refl;
          size_same = refl;
          buffered = refl;
          voted = refl;
          term_le = omega arith;
          msgs = λ v h. h;
          after = λ v h. All-append (IsHonest v) r.msgs_after_append ms h (hms v);
        };
        polls = inl (refl, refl, refl, refl);
      }))

abbrev pub QuietStep : Raft → Raft × Option Err → Type 0
QuietStep r s = Quiet r s.0

pub replicate-Quiet : (m : Message) (r : Raft) → Ensures (QuietStep r) (replicate m r)
unfolding replicate
replicate-Quiet m r =
    Ensures-if (QuietStep r) (not (is_lead r.state))
      (λ _. Ensures-some (QuietStep r) _ (Quiet-refl r))
      (λ _.
        Ensures-if (QuietStep r) (is_nonempty (proposal_entries m))
          (λ _.
            Ensures-bind (QuietStep r) (Quiet r) _ _ (replicate_entries-Quiet _ r)
              (λ s q. Ensures-some (QuietStep r) _ q))
          (λ _. Ensures-some (QuietStep r) _ (Quiet-refl r)))

heartbeat-Quiet : (r : Raft) (peer : ℕ) → Ensures NoVote (heartbeat r peer)
unfolding heartbeat
heartbeat-Quiet r peer =
    Ensures-bind_any NoVote (RaftLog.term r.raft_log (progress_of peer r.progress).match_index) _
      (λ t _. Ensures-some NoVote _ (λ v resp e. cc))

heartbeats-Quiet : (r : Raft) (peers : List ℕ) → Ensures AllQuiet (heartbeats r peers)
unfolding heartbeats
heartbeats-Quiet r [] = Ensures-some AllQuiet [] (λ v. tt)
heartbeats-Quiet r (peer ∷ peers) =
    Ensures-bind AllQuiet NoVote _ _ (heartbeat-Quiet r peer) (λ m hm.
      Ensures-bind AllQuiet AllQuiet _ _ (heartbeats-Quiet r peers)
        (λ ms hms. Ensures-some AllQuiet _ (λ v. (hm v, hms v))))

pub broadcast_heartbeat-Quiet : (r : Raft) → Ensures (Quiet r) (broadcast_heartbeat r)
unfolding broadcast_heartbeat
broadcast_heartbeat-Quiet r =
    Ensures-bind (Quiet r) AllQuiet _ _ (heartbeats-Quiet r r.peers) (λ ms hms.
      Ensures-some (Quiet r) _ (record {
        silent = record {
          id_same = refl;
          size_same = refl;
          buffered = refl;
          voted = refl;
          term_le = omega arith;
          msgs = λ v h. All-append (IsHonest v) r.msgs ms h (hms v);
          after = λ v h. h;
        };
        polls = inl (refl, refl, refl, refl);
      }))
