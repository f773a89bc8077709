-- ===== src/Raft/Vote.antt =====
-- Vote requests and responses of repl/sm.go.
use harmony_db.Base.{
  ℕ, suc, Bool, true, false, Option, none, some, [], ◌∷◌, ltb, leb, ◌==◌, if◌then◌else◌, ◌>>=◌,
}
use harmony_db.Base.Maps
use harmony_db.Base.Maps.{Map}
use harmony_db.Proto.{Message, RequestVote, RequestVoteResponse}
use harmony_db.Raft.Types.{Raft, quorum, send_vote_response}
use harmony_db.Raft.Become.{become_follower, become_leader, put_vote}

unfoldable pub grant : ℕ → ℕ → Raft → Raft
grant term candidate_id r =
    let r1 : Raft = record r { voted_for = Maps.put term candidate_id r.voted_for } in
    send_vote_response candidate_id true r1.current_term r1

-- The vote of the term `term`, to which the node has moved on.
unfoldable pub decide_vote : ℕ → ℕ → Raft → Raft
decide_vote term candidate_id r = elim (Maps.get term r.voted_for) [
  | none ↦ grant term candidate_id r
  | some c ↦
      if c == candidate_id
      then grant term candidate_id r
      else send_vote_response candidate_id false r.current_term r
]

unfoldable pub answer_request : RequestVote → Raft → Raft
answer_request req r =
    if ltb req.term r.current_term
    then send_vote_response req.candidate_id false r.current_term r
    else (let r1 : Raft = if ltb r.current_term req.term then become_follower req.term r else r in
        decide_vote req.term req.candidate_id r1)

unfoldable pub handle_vote_request : Message → Raft → Raft
handle_vote_request m r = elim m.vote [ none ↦ r | some req ↦ answer_request req r ]

unfoldable pub count_granted : Map Bool → ℕ
count_granted [] = 0
count_granted ((peer, granted) ∷ m) =
    let rest = count_granted m in if granted then suc rest else rest

unfoldable pub count_vote : Map Bool → Raft → Raft
count_vote votes r =
    let r1 : Raft = record r { votes = some votes } in
    if leb (quorum r1) (count_granted votes) then become_leader r1 else r1

unfoldable pub vote_result : ℕ → RequestVoteResponse → Raft → Option Raft
vote_result peer resp r =
    if ltb resp.term r.current_term
    then some r
    else if ltb r.current_term resp.term
    then some (become_follower resp.term r)
    else do votes ← put_vote peer resp.vote_granted r; some (count_vote votes r)

unfoldable pub handle_vote_response : Message → Raft → Option Raft
handle_vote_response m r = elim m.vote_resp [
  | none ↦ some r
  | some resp ↦ vote_result m.from resp r
]
