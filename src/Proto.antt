-- ===== src/Proto.antt =====
-- The messages of repl/raft.proto, as their Go getters read them: an absent sub-message is `none`,
-- and a string is the list of its bytes.
use harmony_db.Base.{ℕ, Bool, List, [], Option, none, some}

pub record Cmd : Type 0 where
  pub op : List ℕ
  pub key : List ℕ
  pub value : List ℕ
  pub request_id : ℕ

-- The field `data` of the source is `cmd` here.
pub record Log : Type 0 where
  pub term : ℕ
  pub id : ℕ
  pub cmd : Option Cmd

pub data MessageType : Type 0 where
  msg_unknown msg_app msg_app_resp msg_vote msg_vote_resp msg_snap : MessageType
  msg_heartbeat msg_heartbeat_resp : MessageType

pub record RequestVote : Type 0 where
  pub term : ℕ
  pub candidate_id : ℕ
  pub last_log_index : ℕ
  pub last_log_term : ℕ

pub record RequestVoteResponse : Type 0 where
  pub term : ℕ
  pub vote_granted : Bool

pub record AppendEntries : Type 0 where
  pub term : ℕ
  pub leader_id : ℕ
  pub prev_log_idx : ℕ
  pub prev_log_term : ℕ
  pub entries : List Log
  pub leader_commit_idx : ℕ

pub record AppendEntriesResponse : Type 0 where
  pub current_term : ℕ
  pub success : Bool

pub record Message : Type 0 where
  pub type : MessageType
  pub to : ℕ
  pub from : ℕ
  pub vote : Option RequestVote
  pub vote_resp : Option RequestVoteResponse
  pub entries : Option AppendEntries
  pub entries_resp : Option AppendEntriesResponse

-- A message of which only the type is set.
abbrev pub bare : MessageType → Message
bare t = record {
  type = t;
  to = 0;
  from = 0;
  vote = none;
  vote_resp = none;
  entries = none;
  entries_resp = none;
}

-- `GetOp`, `GetKey`, `GetValue` and `GetRequestId` of a command that may be nil.
unfoldable pub get_op : Option Cmd → List ℕ
get_op none = []
get_op (some c) = c.op

unfoldable pub get_key : Option Cmd → List ℕ
get_key none = []
get_key (some c) = c.key

unfoldable pub get_value : Option Cmd → List ℕ
get_value none = []
get_value (some c) = c.value

unfoldable pub get_request_id : Option Cmd → ℕ
get_request_id none = 0
get_request_id (some c) = c.request_id
