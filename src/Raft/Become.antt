-- ===== src/Raft/Become.antt =====
-- The transitions of repl/sm.go, `NewRaft` and the election: who becomes what, and `campaign`.
use harmony_db.Base.{
  ℕ, suc, ◌+◌, ◌%◌, Bool, true, Option, none, some, List, [], ◌∷◌, ◌++◌, length, ltb, ◌==◌,
  if◌then◌else◌, map,
}
use harmony_db.Base.Maps
use harmony_db.Base.Maps.{Map}
use harmony_db.Proto.{Message, bare, msg_vote}
use harmony_db.RaftLog.{new_raft_log, last_index, last_term}
use harmony_db.Raft.Types.{
  Raft, Progress, follower, candidate, leader, step_follower, step_candidate, step_leader,
  tick_follower, tick_candidate, tick_leader,
}

-- With `electionTick` just reset, the remainder is 0.
unfoldable pub reset_timeout : Raft → Raft
reset_timeout r =
    if ltb 0 r.election_timeout
    then record r { randomized_timeout = r.election_timeout + r.election_tick % r.election_timeout }
    else r

unfoldable pub become_follower : ℕ → Raft → Raft
unfolding reset_timeout
become_follower term r =
    let r1 : Raft = record r {
      state = follower;
      current_term = term;
      step = step_follower;
      tick = tick_follower;
      election_tick = 0;
    } in
    let r2 : Raft = reset_timeout r1 in record r2 { votes = none }

unfoldable pub become_candidate : Raft → Raft
unfolding reset_timeout
become_candidate r =
    let r1 : Raft = record r {
      state = candidate;
      step = step_candidate;
      tick = tick_candidate;
      election_tick = 0;
    } in
    let r2 : Raft = reset_timeout r1 in record r2 { votes = some [] }

-- The loop over the peers that resets their progress.
unfoldable pub init_progress : ℕ → List ℕ → Map Progress → Map Progress
init_progress last [] m = m
init_progress last (peer ∷ peers) m =
    init_progress last peers (Maps.put peer (record { match_index = 0; next_index = last + 1 }) m)

unfoldable pub become_leader : Raft → Raft
become_leader r = record r {
  state = leader;
  step = step_leader;
  tick = tick_leader;
  heartbeat_tick = 0;
  votes = none;
  progress = init_progress (last_index r.raft_log) r.peers r.progress;
}

unfoldable pub vote_request : Raft → ℕ → Message
vote_request r peer = record (bare msg_vote) {
  to = peer;
  from = r.id;
  vote = some (record {
    term = r.current_term;
    candidate_id = r.id;
    last_log_index = last_index r.raft_log;
    last_log_term = last_term r.raft_log;
  });
}

-- A write to a nil map panics.
unfoldable pub put_vote : ℕ → Bool → Raft → Option (Map Bool)
put_vote peer granted r = elim r.votes [ none ↦ none | some vs ↦ some (Maps.put peer granted vs) ]

-- `campaign` after `becomeCandidate`: the term, the vote for itself, and the requests.
unfoldable pub stand : Map Bool → Raft → Raft
unfolding vote_request
stand votes r =
    let term = suc r.current_term in
    let r1 : Raft = record r {
      current_term = term;
      voted_for = Maps.put term r.id r.voted_for;
      votes = some votes;
    } in
    if r1.cluster_size == 1
    then become_leader r1
    else record r1 { msgs = r1.msgs ++ map (vote_request r1) r1.peers }

unfoldable pub campaign : Raft → Option Raft
unfolding put_vote become_candidate
campaign r =
    let r1 : Raft = become_candidate r in
    elim (put_vote r1.id true r1) [ none ↦ none | some vs ↦ some (stand vs r1) ]

-- The keys of `peerMap`: the peers, each once.
unfoldable pub peer_map : List ℕ → Map Bool → Map Bool
peer_map [] m = m
peer_map (p ∷ ps) m = peer_map ps (Maps.put p true m)

unfoldable pub new_raft : ℕ → List ℕ → Raft
unfolding peer_map become_follower
new_raft id peers =
    let r : Raft = record {
      id = id;
      current_term = 0;
      voted_for = [];
      state = follower;
      randomized_timeout = 0;
      election_tick = 0;
      heartbeat_tick = 0;
      election_timeout = 10;
      heartbeat_timeout = 1;
      cluster_size = length peers + 1;
      peers = map (λ e. e.0) (peer_map peers []);
      step = step_follower;
      tick = tick_follower;
      votes = none;
      msgs = [];
      msgs_after_append = [];
      readyc = none;
      raft_log = new_raft_log;
      progress = [];
    } in
    let r1 : Raft = become_follower 0 r in record r1 { election_tick = id % r1.election_timeout }
