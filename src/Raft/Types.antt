-- ===== src/Raft/Types.antt =====
-- The state of repl/sm.go, and the messages that its methods queue.
use harmony_db.Base.{ℕ, ◌+◌, ◌/◌, Bool, Option, none, some, List, [], ◌∷◌, ◌++◌}
use harmony_db.Base.Maps
use harmony_db.Base.Maps.{Map}
use harmony_db.Proto.{Message, Log, bare, msg_app_resp, msg_vote_resp}
use harmony_db.RaftLog.{RaftLog}

pub data State : Type 0 where
  follower candidate leader : State

pub data StepFunc : Type 0 where
  step_follower step_candidate step_leader : StepFunc

pub data TickFunc : Type 0 where
  tick_follower tick_candidate tick_leader : TickFunc

pub record HardState : Type 0 where
  pub term : ℕ
  pub last_commit_index : ℕ
  pub last_applied_index : ℕ

pub record Ready : Type 0 where
  pub messages : List Message
  pub entries : List Log
  pub messages_after_append : List Message
  pub committed_entries : List Log
  pub hard_state : HardState

pub record Progress : Type 0 where
  pub match_index : ℕ
  pub next_index : ℕ

-- Function values are named by a tag; `votes` is none for Go's nil map; `readyc` is the channel's
-- buffer, which holds one value.
pub record Raft : Type 0 where
  pub id : ℕ
  pub current_term : ℕ
  pub voted_for : Map ℕ
  pub state : State
  pub randomized_timeout : ℕ
  pub election_tick : ℕ
  pub heartbeat_tick : ℕ
  pub election_timeout : ℕ
  pub heartbeat_timeout : ℕ
  pub cluster_size : ℕ
  pub peers : List ℕ
  pub step : StepFunc
  pub tick : TickFunc
  pub votes : Option (Map Bool)
  pub msgs : List Message
  pub msgs_after_append : List Message
  pub readyc : Option Ready
  pub raft_log : RaftLog
  pub progress : Map Progress

-- The zero value that a Go map gives for a missing key.
unfoldable pub progress_or_zero : Option Progress → Progress
progress_or_zero none = record { match_index = 0; next_index = 0 }
progress_or_zero (some p) = p

unfoldable pub progress_of : ℕ → Map Progress → Progress
unfolding progress_or_zero
progress_of peer m = progress_or_zero (Maps.get peer m)

unfoldable pub quorum : Raft → ℕ
quorum r = r.cluster_size / 2 + 1

unfoldable pub append_response : Raft → ℕ → Bool → Message
append_response r to success = record (bare msg_app_resp) {
  to = to;
  from = r.id;
  entries_resp = some (record { current_term = r.current_term; success = success });
}

unfoldable pub send_append_response : ℕ → Bool → Raft → Raft
unfolding append_response
send_append_response to success r = record r {
  msgs = r.msgs ++ (append_response r to success ∷ []);
}

unfoldable pub send_append_response_after_persist : ℕ → Bool → Raft → Raft
unfolding append_response
send_append_response_after_persist to success r = record r {
  msgs_after_append = r.msgs_after_append ++ (append_response r to success ∷ []);
}

unfoldable pub send_vote_response : ℕ → Bool → ℕ → Raft → Raft
send_vote_response to granted term r =
    let resp : Message = record (bare msg_vote_resp) {
      to = to;
      from = r.id;
      vote_resp = some (record { term = term; vote_granted = granted });
    } in
    record r { msgs = r.msgs ++ (resp ∷ []) }
