-- ===== src/Raft/Append.antt =====
-- Log replication in repl/sm.go: the follower's and the leader's side, and the heartbeats.
use harmony_db.Base.{
  ℕ, zero, suc, ◌+◌, ◌-◌, min, Bool, true, false, Option, none, some, List, [], ◌∷◌, ◌++◌, ltb, leb,
  ◌==◌, not, if◌then◌else◌, ◌>>=◌,
}
use harmony_db.Base.Maps
use harmony_db.Base.Maps.{Map}
use harmony_db.Proto.{Message, Log, AppendEntries, AppendEntriesResponse, bare, msg_app}
use harmony_db.RaftLog
use harmony_db.RaftLog.{RaftLog, last_index, collect}
use harmony_db.Raft.Types.{
  Raft, Progress, State, leader, progress_of, quorum, send_append_response,
  send_append_response_after_persist,
}
use harmony_db.Raft.Become.{become_follower}

unfoldable pub is_nonempty : List Log → Bool
is_nonempty [] = false
is_nonempty (e ∷ es) = true

-- The consistency check on the entry before the new ones; `none` where reading its term panics.
unfoldable pub prev_mismatch : AppendEntries → RaftLog → Option Bool
prev_mismatch ae l =
    if not (ltb 0 ae.prev_log_idx)
    then some false
    else if ltb (last_index l) ae.prev_log_idx
    then some true
    else do t ← RaftLog.term l ae.prev_log_idx; some (not (t == ae.prev_log_term))

-- From the check on: append, advance the commit index, respond.
unfoldable pub accept_entries : ℕ → AppendEntries → Raft → Raft
accept_entries from ae r =
    let log1 : RaftLog = RaftLog.append r.raft_log ae.entries in
    let log2 : RaftLog =
      if ltb log1.commit_index ae.leader_commit_idx
      then (RaftLog.maybe_commit log1 (min ae.leader_commit_idx (last_index log1))).0
      else log1 in
    let r1 : Raft = record r { raft_log = log2 } in
    if is_nonempty ae.entries then send_append_response_after_persist from true r1 else r1

unfoldable pub append_entries : ℕ → AppendEntries → Raft → Option Raft
append_entries from ae r =
    if ltb ae.term r.current_term
    then some (send_append_response from false r)
    else (let r1 : Raft = if ltb r.current_term ae.term then become_follower ae.term r else r in
        do
          mismatch ← prev_mismatch ae r1.raft_log
          some (if mismatch then send_append_response from false r1 else accept_entries from ae r1))

unfoldable pub handle_append_entries : Message → Raft → Option Raft
handle_append_entries m r = elim m.entries [ none ↦ some r | some ae ↦ append_entries m.from ae r ]

-- The nodes that hold the index: the leader, and the entries of `progress` that reach it.
unfoldable pub count_matching : ℕ → Map Progress → ℕ
count_matching index [] = 0
count_matching index ((peer, p) ∷ m) =
    let rest = count_matching index m in if leb index p.match_index then suc rest else rest

unfoldable pub replicated_count : ℕ → Raft → ℕ
replicated_count index r = suc (count_matching index r.progress)

unfoldable pub commit_round : ℕ → Raft → Option Raft
commit_round index r =
    if leb (quorum r) (replicated_count index r)
    then (do
      t ← RaftLog.term r.raft_log index
      some (
          if t == r.current_term
          then record r { raft_log = (RaftLog.maybe_commit r.raft_log index).0 }
          else r))
    else some r

-- The loop of `maybeCommit`, by the number of rounds left.
unfoldable pub commit_loop : ℕ → ℕ → Raft → Option Raft
commit_loop zero index r = some r
commit_loop (suc rounds) index r = do r1 ← commit_round index r; commit_loop rounds (index + 1) r1

unfoldable pub maybe_commit : Raft → Option Raft
maybe_commit r =
    commit_loop (last_index r.raft_log - r.raft_log.commit_index) (r.raft_log.commit_index + 1) r

unfoldable pub acknowledge : ℕ → Raft → Raft
acknowledge peer r =
    let last = last_index r.raft_log in
    record r {
      progress = Maps.put peer (record { match_index = last; next_index = last + 1 }) r.progress;
    }

unfoldable pub back_up : ℕ → Raft → Raft
back_up peer r =
    let p : Progress = progress_of peer r.progress in
    let p1 : Progress =
      if ltb 1 p.next_index then record p { next_index = p.next_index - 1 } else p in
    record r { progress = Maps.put peer p1 r.progress }

unfoldable pub append_result : ℕ → AppendEntriesResponse → Raft → Option Raft
append_result peer resp r =
    if ltb r.current_term resp.current_term
    then some (become_follower resp.current_term r)
    else if ltb resp.current_term r.current_term
    then some r
    else if resp.success
    then maybe_commit (acknowledge peer r)
    else some (back_up peer r)

unfoldable pub handle_append_response : Message → Raft → Option Raft
handle_append_response m r = elim m.entries_resp [
  | none ↦ some r
  | some resp ↦ append_result m.from resp r
]

-- The leader numbers a proposal's entries.
unfoldable pub assign_ids : ℕ → ℕ → List Log → List Log
assign_ids term next_id [] = []
assign_ids term next_id (e ∷ es) =
    record e { term = term; id = next_id } ∷ assign_ids term (next_id + 1) es

unfoldable pub proposal_entries : Message → List Log
proposal_entries m = elim m.entries [ none ↦ [] | some ae ↦ ae.entries ]

-- A leader's progress has a `nextIndex` of at least 1 for every peer, so that `- 1` is exact.
unfoldable pub append_message : Raft → ℕ → Option Message
append_message r peer =
    let p : Progress = progress_of peer r.progress in
    let prev = p.next_index - 1 in
    let last = last_index r.raft_log in
    do
      prev_term ← if ltb 0 prev then RaftLog.term r.raft_log prev else some 0
      some (record (bare msg_app) {
        to = peer;
        from = r.id;
        entries = some (record {
          term = r.current_term;
          leader_id = r.id;
          prev_log_idx = prev;
          prev_log_term = prev_term;
          entries = collect r.raft_log.entries (last + 1 - p.next_index) p.next_index;
          leader_commit_idx = r.raft_log.commit_index;
        });
      })

unfoldable pub append_messages : Raft → List ℕ → Option (List Message)
append_messages r [] = some []
append_messages r (peer ∷ peers) = do
  m ← append_message r peer
  ms ← append_messages r peers
  some (m ∷ ms)

-- `replicate` once the node is known to lead and the proposal is not empty.
unfoldable pub replicate_entries : List Log → Raft → Option Raft
replicate_entries es r =
    let es1 = assign_ids r.current_term (last_index r.raft_log + 1) es in
    let r1 : Raft = record r { raft_log = RaftLog.append r.raft_log es1 } in
    do
      ms ← append_messages r1 r1.peers
      some (record r1 { msgs_after_append = r1.msgs_after_append ++ ms })

unfoldable pub is_lead : State → Bool
is_lead leader = true
is_lead _ = false

pub data Err : Type 0 where
  not_a_leader : ℕ → Err

unfoldable pub replicate : Message → Raft → Option (Raft × Option Err)
replicate m r =
    if not (is_lead r.state)
    then some (r, some (not_a_leader r.id))
    else if is_nonempty (proposal_entries m)
    then (do r1 ← replicate_entries (proposal_entries m) r; some (r1, none))
    else some (r, none)

unfoldable pub heartbeat : Raft → ℕ → Option Message
heartbeat r peer =
    let prev = (progress_of peer r.progress).match_index in
    do
      prev_term ← RaftLog.term r.raft_log prev
      some (record (bare msg_app) {
        to = peer;
        from = r.id;
        entries = some (record {
          term = r.current_term;
          leader_id = r.id;
          prev_log_idx = prev;
          prev_log_term = prev_term;
          entries = [];
          leader_commit_idx = r.raft_log.commit_index;
        });
      })

unfoldable pub heartbeats : Raft → List ℕ → Option (List Message)
heartbeats r [] = some []
heartbeats r (peer ∷ peers) = do m ← heartbeat r peer; ms ← heartbeats r peers; some (m ∷ ms)

unfoldable pub broadcast_heartbeat : Raft → Option Raft
broadcast_heartbeat r = do ms ← heartbeats r r.peers; some (record r { msgs = r.msgs ++ ms })
