-- ===== src/Raft/Step.antt =====
-- `Step`, `Tick`, `Ready` and `Advance` of repl/sm.go.
use harmony_db.Base.{
  ◌+◌, Bool, true, false, ◌||◌, Option, none, some, List, [], ◌∷◌, ltb, leb, if◌then◌else◌, ◌>>=◌,
}
use harmony_db.Proto.{
  Message, MessageType, bare, msg_app, msg_app_resp, msg_vote, msg_vote_resp, msg_heartbeat,
}
use harmony_db.RaftLog.{
  RaftLog, last_index, volatile_entries, committed_entries, mark_stable_till, mark_applied_till,
}
use harmony_db.Raft.Types.{
  Raft, Ready, StepFunc, TickFunc, step_follower, step_candidate, step_leader, tick_follower,
  tick_candidate, tick_leader,
}
use harmony_db.Raft.Become.{campaign}
use harmony_db.Raft.Append.{
  Err, handle_append_entries, handle_append_response, replicate, broadcast_heartbeat,
}
use harmony_db.Raft.Vote.{handle_vote_request, handle_vote_response}

-- Every step function returns a state and an error; `none` is a panic.
abbrev pub Stepped : Type 0
Stepped = Option (Raft × Option Err)

abbrev pub no_error : Option Raft → Stepped
no_error r = do r1 ← r; some (r1, none)

-- `MSG_VOTE` with no request is the internal trigger of an election.
unfoldable pub vote_or_campaign : Message → Raft → Stepped
vote_or_campaign m r = elim m.vote [
  | none ↦ no_error (campaign r)
  | some req ↦ some (handle_vote_request m r, none)
]

unfoldable pub from_leader : Message → Raft → Stepped
from_leader m r = no_error (handle_append_entries m (record r { election_tick = 0 }))

unfoldable pub on_follower : MessageType → Message → Raft → Stepped
unfolding vote_or_campaign from_leader
on_follower msg_vote m r = vote_or_campaign m r
on_follower msg_app m r = from_leader m r
on_follower msg_heartbeat m r = from_leader m r
on_follower _ m r = some (r, none)

unfoldable pub on_candidate : MessageType → Message → Raft → Stepped
unfolding vote_or_campaign from_leader
on_candidate msg_vote m r = vote_or_campaign m r
on_candidate msg_vote_resp m r = no_error (handle_vote_response m r)
on_candidate msg_app m r = from_leader m r
on_candidate msg_heartbeat m r = from_leader m r
on_candidate _ m r = some (r, none)

unfoldable pub on_leader : MessageType → Message → Raft → Stepped
on_leader msg_heartbeat m r = no_error (broadcast_heartbeat r)
on_leader msg_app m r = replicate m r
on_leader msg_app_resp m r = no_error (handle_append_response m r)
on_leader _ m r = some (r, none)

unfoldable pub call_step : StepFunc → Message → Raft → Stepped
unfolding on_follower on_candidate on_leader
call_step step_follower m r = on_follower m.type m r
call_step step_candidate m r = on_candidate m.type m r
call_step step_leader m r = on_leader m.type m r

unfoldable pub step : Message → Raft → Stepped
unfolding call_step
step m r = call_step r.step m r

-- The callers of `Step` in the tick functions only log its error.
abbrev pub dropping_error : Stepped → Option Raft
dropping_error s = do (r, e) ← s; some r

unfoldable pub tick_election : Raft → Option Raft
tick_election r =
    let r1 : Raft = record r { election_tick = r.election_tick + 1 } in
    if leb r1.randomized_timeout r1.election_tick
    then dropping_error (step (bare msg_vote) (record r1 { election_tick = 0 }))
    else some r1

unfoldable pub tick_heartbeat : Raft → Option Raft
tick_heartbeat r =
    let r1 : Raft = record r { heartbeat_tick = r.heartbeat_tick + 1 } in
    if leb r1.heartbeat_timeout r1.heartbeat_tick
    then dropping_error (step (bare msg_heartbeat) (record r1 { heartbeat_tick = 0 }))
    else some r1

unfoldable pub call_tick : TickFunc → Raft → Option Raft
unfolding tick_election tick_heartbeat
call_tick tick_follower r = tick_election r
call_tick tick_candidate r = tick_election r
call_tick tick_leader r = tick_heartbeat r

unfoldable pub tick : Raft → Option Raft
unfolding call_tick
tick r = call_tick r.tick r

unfoldable pub has_messages : List Message → Bool
has_messages [] = false
has_messages (m ∷ ms) = true

unfoldable pub has_ready : Raft → Bool
unfolding has_messages
has_ready r =
    has_messages r.msgs
    || has_messages r.msgs_after_append
    || ltb r.raft_log.stable_index (last_index r.raft_log)
    || ltb r.raft_log.last_applied r.raft_log.commit_index

unfoldable pub make_ready : Raft → Ready
make_ready r = record {
  messages = r.msgs;
  entries = volatile_entries r.raft_log;
  messages_after_append = r.msgs_after_append;
  committed_entries = committed_entries r.raft_log;
  hard_state = record {
    term = r.current_term;
    last_commit_index = r.raft_log.commit_index;
    last_applied_index = r.raft_log.last_applied;
  };
}

-- `none` where the send blocks for ever: the buffer is full, and only the caller's own goroutine
-- receives from the channel.
unfoldable pub report : Raft → Option Ready → Option Raft
report r none = some (record r { msgs = []; msgs_after_append = []; readyc = some (make_ready r) })
report r (some rd) = none

unfoldable pub ready : Raft → Option Raft
unfolding has_ready report
ready r = if has_ready r then report r r.readyc else some r

unfoldable pub advance : Raft → Raft
advance r =
    let log1 : RaftLog =
      if ltb r.raft_log.stable_index (last_index r.raft_log)
      then mark_stable_till r.raft_log (last_index r.raft_log)
      else r.raft_log in
    let log2 : RaftLog =
      if ltb log1.last_applied log1.commit_index
      then mark_applied_till log1 log1.commit_index
      else log1 in
    record r { raft_log = log2 }
