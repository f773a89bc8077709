-- ===== src/Examples/Elections.antt =====
-- An election in a cluster of three (repl/sm.go, repl/raft.go, repl/bootstrap.go).
use harmony_db.Base.{ltb, Bool, false, ℕ, ◌≡◌, refl, true, Option, none, some, List, [], ◌∷◌}
use harmony_db.Base.Maps
use harmony_db.Proto.{Message, bare, msg_vote, msg_vote_resp}
use harmony_db.Raft.Types.{send_vote_response, quorum}
use harmony_db.Raft.Become.{
  become_candidate, become_follower, become_leader, campaign, stand, put_vote, new_raft,
}
use harmony_db.Raft.Vote.{
  grant, decide_vote, answer_request, handle_vote_request, count_granted, count_vote, vote_result,
  handle_vote_response,
}
use harmony_db.Raft.Step.{step, ready, make_ready, advance}
use harmony_db.RaftLog.{last_index, last_term, committed_entries}
use harmony_db.Node
use harmony_db.Node.{
  Node, Outcome, Choice, went, new_node, process, take_message, take_ready, iterate, is_member,
  process_ready, hand_over,
}
use harmony_db.Bootstrap.{
  address_of, connect, with_address, connected, NodeInfo, ClusterConfig, refused, panicked,
  with_wal, failed_to_connect, peers_of, bootstrap_raft_node,
}
use harmony_db.Wal.{new_lm}
use harmony_db.Wal.Codec.{encode_log}
use harmony_db.Proto.{Log}
use harmony_db.Cluster.{
  Cluster, new_cluster, replace, ClusterRun, here, next, deliver, submit, turn,
}
use harmony_db.Cluster.Leader.{one_leader_per_term}

abbrev three : List NodeInfo
three =
    record { id = 1; address = 1 ∷ [] }
    ∷ record { id = 2; address = 2 ∷ [] }
    ∷ record { id = 3; address = 3 ∷ [] }
    ∷ []

abbrev node_of : Node → Outcome → Node
node_of n (went n') = n'
node_of n _ = n

abbrev put_in : ℕ → Message → Cluster → Cluster
put_in i m c = replace i (process m (c i)).0 c

abbrev turned : ℕ → Choice → Cluster → Cluster
turned i choice c = replace i (node_of (c i) (iterate choice (c i))) c

abbrev request_to_2 : Message
request_to_2 = record (bare msg_vote) {
  to = 2;
  from = 1;
  vote = some (record { term = 1; candidate_id = 1; last_log_index = 0; last_log_term = 0 });
}

abbrev vote_of_2 : Message
vote_of_2 = record (bare msg_vote_resp) {
  to = 1;
  from = 2;
  vote_resp = some (record { term = 1; vote_granted = true });
}

-- Node 1 stands, and its requests go out.
abbrev asked : Cluster
asked = turned 1 take_ready (turned 1 take_message (put_in 1 (bare msg_vote) (new_cluster three)))

-- Node 2 votes for it.
abbrev answered : Cluster
answered = turned 2 take_ready (turned 2 take_message (put_in 2 request_to_2 asked))

abbrev elected : Cluster
elected = turned 1 take_message (put_in 1 vote_of_2 answered)

elected-ClusterRun : ClusterRun three (new_cluster three) elected
unfolding iterate new_node ready process new_raft last_index step handle_vote_request answer_request
    decide_vote Maps.get grant send_vote_response process_ready hand_over Node.is_nonempty
    make_ready committed_entries advance Maps.put Node.send campaign become_candidate stand
    become_follower replace new_cluster peers_of is_member last_term handle_vote_response
    vote_result count_vote become_leader put_vote quorum count_granted
elected-ClusterRun =
    next
      (next
        (next
          (next
            (next
              (next
                (next (next here (submit 1 (bare msg_vote) refl refl))
                  (turn 1 take_message refl refl))
                (turn 1 take_ready refl refl))
              (deliver 2 1 0 {m = request_to_2} refl refl refl refl))
            (turn 2 take_message refl refl))
          (turn 2 take_ready refl refl))
        (deliver 1 2 0 {m = vote_of_2} refl refl refl refl))
      (turn 1 take_message refl refl)

one_leader_per_term_example : ◌≡◌ {A = ℕ} 1 1
unfolding iterate new_node ready process new_raft last_index step handle_vote_request answer_request
    decide_vote Maps.get grant send_vote_response process_ready hand_over Node.is_nonempty
    make_ready committed_entries advance Maps.put Node.send campaign become_candidate stand
    become_follower replace new_cluster peers_of is_member last_term handle_vote_response
    vote_result count_vote become_leader put_vote quorum count_granted
one_leader_per_term_example =
    one_leader_per_term three elected (refl, (refl, (refl, tt))) elected-ClusterRun 1 1 refl refl
      refl refl refl

abbrev config_of_1 : ClusterConfig
config_of_1 = record { nodes = three; this_node_id = 1 }

-- Nodes 1 and 2 are up.
abbrev up : List ℕ → Bool
up [] = false
up (a ∷ as') = ltb a 3

-- The write-ahead log of node 1 holds one entry.
abbrev left : Log
left = record { term = 1; id = 1; cmd = none }

abbrev wal_files : ℕ → Option (List ℕ)
wal_files id = some (encode_log (left ∷ []))

abbrev started_again : Node
started_again = record (new_node 1 (2 ∷ 3 ∷ [])) { wal = left ∷ [] }

refuses :
    bootstrap_raft_node up up (λ id. some []) (some config_of_1) ≡ refused (failed_to_connect 3)
unfolding bootstrap_raft_node address_of connect with_address connected with_wal new_lm
refuses = refl

panics : bootstrap_raft_node up up (λ id. none) (some config_of_1) ≡ panicked
unfolding bootstrap_raft_node address_of with_address with_wal
panics = refl
