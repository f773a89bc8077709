-- ===== src/Examples/Cluster.antt =====
-- A node of a cluster of three (repl/raft.go, repl/sm.go) in short runs.
use harmony_db.Base.{
  ◌≢◌, ◌≤◌, ◌≡◌, refl, true, none, some, List, [], ◌∷◌, ◌++◌, arith, length, take,
}
use harmony_db.Proto.{Message, Log, bare, msg_vote, msg_vote_resp, msg_app}
use harmony_db.Base.Maps
use harmony_db.RaftLog
use harmony_db.RaftLog.{RaftLog, last_index, collect, committed_entries}
use harmony_db.Raft.Types.{
  Raft, leader, quorum, send_vote_response, send_append_response_after_persist,
}
use harmony_db.Raft.Become.{new_raft}
use harmony_db.Raft.Step.{step, ready, make_ready, advance}
use harmony_db.Raft.Append
use harmony_db.Raft.Append.{
  maybe_commit, commit_loop, commit_round, replicated_count, count_matching, handle_append_entries,
  append_entries, prev_mismatch, accept_entries,
}
use harmony_db.Raft.Vote.{handle_vote_request, answer_request, decide_vote, grant}
use harmony_db.Raft.Commit.{maybe_commit_exact, IsHighest}
use harmony_db.Node
use harmony_db.Node.{
  panic, process_ready, hand_over, Node, new_node, process, iterate, Outcome, went, deadlock,
  Choice, take_message, take_ready, take_tick, NodeStep, propose, loop, Reach, here, next,
}
use harmony_db.Node.Votes.{one_vote_per_term}
use harmony_db.Node.Deadlock.{message_first_deadlocks}
use harmony_db.Node.Order.{SequentialRun, start, more, delivered_in_order}
use harmony_db.Node.Panics.{never_panics}
use harmony_db.Node.Persist.{saved_before_delivered}
use harmony_db.Node.History.{log_append_only}

abbrev fresh : Node
fresh = new_node 1 (2 ∷ 3 ∷ [])

abbrev request_from_2 : Message
request_from_2 = record (bare msg_vote) {
  to = 1;
  from = 2;
  vote = some (record { term = 1; candidate_id = 2; last_log_index = 0; last_log_term = 0 });
}

abbrev first_entry : Log
first_entry = record { term = 1; id = 1; cmd = none }

abbrev entries_from_2 : Message
entries_from_2 = record (bare msg_app) {
  to = 1;
  from = 2;
  entries = some (record {
    term = 1;
    leader_id = 2;
    prev_log_idx = 0;
    prev_log_term = 0;
    entries = first_entry ∷ [];
    leader_commit_idx = 1;
  });
}

abbrev node_of : Outcome → Node
node_of (went n) = n
node_of _ = fresh

abbrev asked : Message → Node → Node
asked m n = (process m n).0

abbrev taken : Choice → Node → Node
taken c n = node_of (iterate c n)

abbrev one_vote : Node
one_vote = taken take_ready (taken take_message (asked request_from_2 fresh))

abbrev two_votes : Node
two_votes = taken take_ready (taken take_message (asked request_from_2 one_vote))

one_vote-Reach : Reach fresh one_vote
unfolding iterate new_node ready process new_raft last_index step handle_vote_request answer_request
    decide_vote Maps.get grant send_vote_response process_ready hand_over Node.is_nonempty
    make_ready committed_entries advance Maps.put Node.send
one_vote-Reach =
    next (next (next here (propose request_from_2)) (loop take_message refl)) (loop take_ready refl)

two_votes-Reach : Reach fresh two_votes
unfolding iterate new_node ready process new_raft last_index step handle_vote_request answer_request
    decide_vote Maps.get grant send_vote_response process_ready hand_over Node.is_nonempty
    make_ready committed_entries advance Maps.put Node.send
two_votes-Reach =
    next (next (next one_vote-Reach (propose request_from_2)) (loop take_message refl))
      (loop take_ready refl)

abbrev granted : Message
granted = record (bare msg_vote_resp) {
  to = 2;
  from = 1;
  vote_resp = some (record { term = 1; vote_granted = true });
}

sent_twice : two_votes.sent ≡ granted ∷ granted ∷ []
unfolding iterate new_node ready process new_raft last_index step handle_vote_request answer_request
    decide_vote Maps.get grant send_vote_response process_ready hand_over Node.is_nonempty
    make_ready committed_entries advance Maps.put Node.send
sent_twice = refl

one_vote_per_term_example : granted.to ≡ granted.to
one_vote_per_term_example =
    one_vote_per_term 1 (2 ∷ 3 ∷ []) two_votes two_votes-Reach 0 1 granted granted
      (record { term = 1; vote_granted = true }) (record { term = 1; vote_granted = true })
      (rw sent_twice refl) (rw sent_twice refl) refl refl refl refl refl

abbrev appended : Node
appended = taken take_message (asked entries_from_2 fresh)

abbrev applied : Node
applied = taken take_ready appended

applied-SequentialRun : SequentialRun fresh applied
unfolding iterate new_node ready process new_raft last_index step handle_append_entries
    append_entries prev_mismatch accept_entries Append.is_nonempty
    send_append_response_after_persist process_ready hand_over Node.is_nonempty make_ready
    committed_entries RaftLog.append RaftLog.maybe_commit collect advance Node.send
    RaftLog.mark_stable_till RaftLog.mark_applied_till
applied-SequentialRun =
    more (more (more start (propose entries_from_2) tt) (loop take_message refl) (refl, tt))
      (loop take_ready refl) (refl, tt)

delivered_in_order_example :
    (applied.delivered ≡ take applied.raft.raft_log.last_applied applied.raft.raft_log.entries)
    × (applied.raft.raft_log.last_applied ≤ applied.raft.raft_log.commit_index)
    × (applied.raft.raft_log.commit_index ≤ length applied.raft.raft_log.entries)
delivered_in_order_example = delivered_in_order 1 (2 ∷ 3 ∷ []) applied applied-SequentialRun

never_panics_example : iterate take_message applied ≢ panic
never_panics_example = never_panics 1 (2 ∷ 3 ∷ []) applied take_message applied-SequentialRun

saved_before_delivered_example :
    (applied.wal ≡ take applied.raft.raft_log.stable_index applied.raft.raft_log.entries)
    × (applied.raft.raft_log.stable_index ≤ length applied.raft.raft_log.entries)
    × (applied.delivered ≡ take applied.raft.raft_log.last_applied applied.wal)
    × (applied.raft.raft_log.last_applied ≤ applied.raft.raft_log.stable_index)
saved_before_delivered_example = saved_before_delivered 1 (2 ∷ 3 ∷ []) applied applied-SequentialRun

delivered_one : applied.delivered ≡ first_entry ∷ []
unfolding iterate new_node ready process new_raft last_index step handle_append_entries
    append_entries prev_mismatch accept_entries Append.is_nonempty
    send_append_response_after_persist process_ready hand_over Node.is_nonempty make_ready
    committed_entries RaftLog.append RaftLog.maybe_commit collect advance Node.send
delivered_one = refl

appended-Reach : Reach fresh appended
unfolding iterate new_node ready process new_raft last_index step handle_append_entries
    append_entries prev_mismatch accept_entries Append.is_nonempty
    send_append_response_after_persist process_ready hand_over Node.is_nonempty make_ready
    committed_entries RaftLog.append RaftLog.maybe_commit collect advance Node.send
appended-Reach = next (next here (propose entries_from_2)) (loop take_message refl)

applied-Reach : Reach appended applied
unfolding iterate new_node ready process new_raft last_index step handle_append_entries
    append_entries prev_mismatch accept_entries Append.is_nonempty
    send_append_response_after_persist process_ready hand_over Node.is_nonempty make_ready
    committed_entries RaftLog.append RaftLog.maybe_commit collect advance Node.send
applied-Reach = next here (loop take_ready refl)

log_append_only_example :
    ((added : List Log) × (applied.raft.raft_log.entries ≡ appended.raft.raft_log.entries ++ added))
    × (appended.raft.raft_log.commit_index ≤ applied.raft.raft_log.commit_index)
log_append_only_example = log_append_only appended applied applied-Reach

-- The entry is in the log but not persisted, and a vote request is taken before the `Ready`.
abbrev too_early : Node
too_early = taken take_message (asked request_from_2 appended)

message_first_deadlocks_example : iterate take_ready too_early ≡ deadlock
unfolding iterate new_node ready process new_raft last_index step handle_append_entries
    append_entries prev_mismatch accept_entries Append.is_nonempty
    send_append_response_after_persist process_ready hand_over Node.is_nonempty make_ready
    committed_entries RaftLog.append RaftLog.maybe_commit collect advance Node.send
    handle_vote_request answer_request decide_vote Maps.get grant send_vote_response
message_first_deadlocks_example =
    message_first_deadlocks (asked request_from_2 appended) too_early take_message take_ready
      (λ e. cc) refl (refl, tt) (omega arith) refl (refl, tt)

-- A leader of three nodes whose second node holds the only entry.
abbrev leading : Raft
leading = record fresh.raft {
  current_term = 1;
  state = leader;
  cluster_size = 3;
  raft_log = record {
    entries = first_entry ∷ [];
    commit_index = 0;
    last_applied = 0;
    stable_index = 1;
  };
  progress = (2, record { match_index = 1; next_index = 2 }) ∷ [];
}

maybe_commit_exact_example : (s : Raft) × (maybe_commit leading ≡ some s) × IsHighest leading s
maybe_commit_exact_example = maybe_commit_exact leading (refl, tt)

committed_first :
    maybe_commit leading
    ≡ some (record leading { raft_log = record leading.raft_log { commit_index = 1 } })
unfolding maybe_commit last_index quorum commit_loop commit_round replicated_count count_matching
    RaftLog.term RaftLog.maybe_commit
committed_first = refl
