-- ===== src/Raft/Election.antt =====
-- Vote requests, vote responses and campaigns of repl/sm.go, and the votes on record.
use harmony_db.Base.{
  ℕ, suc, ◌≤◌, ◌≡◌, refl, Bool, true, false, some, List, [], ◌∷◌, ◌++◌, arith, All, All-append, map,
  Option-cases, inl, inr, ltb, leb, ltb→lt, if_intro, Ensures, Ensures-some, Ensures-if,
  Ensures-bind_any, if◌then◌else◌, ◌==◌, subst,
}
use harmony_db.Base.Maps
use harmony_db.Base.Maps.{Map, get-put, get-put_self}
use harmony_db.Proto.{Message, RequestVote, RequestVoteResponse}
use harmony_db.Raft.Types.{Raft, quorum}
use harmony_db.Raft.Become.{
  become_follower, become_candidate, become_leader, put_vote, stand, campaign, vote_request,
}
use harmony_db.Raft.Vote.{
  grant, decide_vote, answer_request, handle_vote_request, count_granted, count_vote, vote_result,
  handle_vote_response,
}
use harmony_db.Raft.Silent.{Ballots, IsHonest, Silent, Silent-of_Same, Quiet-refl}
use harmony_db.Raft.Quiet.{
  become_follower-Quiet, become_candidate-Silent, become_leader-Silent, catch_up-Quiet,
}
use harmony_db.Raft.Ballot.{
  IsFair, Keeps, Keeps-refl, Keeps-trans, Keeps-of_Quiet, Keeps-of_Silent, record-Keeps,
  answer-Keeps,
}

grant-Keeps :
    (c : ℕ) (r : Raft)
    → ((d : ℕ) → Maps.get r.current_term r.voted_for ≡ some d → d ≡ c)
    → IsFair r
    → Keeps r (grant r.current_term c r)
unfolding grant
grant-Keeps c r same h =
    let r1 : Raft = record r { voted_for = Maps.put r.current_term c r.voted_for } in
    let k : Keeps r r1 =
      record-Keeps r r.current_term c r1 same (omega arith) (omega arith) refl refl refl refl refl
        refl h in
    Keeps-trans k (
      answer-Keeps r1 c true r.current_term (λ _. get-put_self r.current_term c r.voted_for) k.fair)

decide_vote-Keeps : (c : ℕ) (r : Raft) → IsFair r → Keeps r (decide_vote r.current_term c r)
unfolding decide_vote
decide_vote-Keeps c r h = elim (Option-cases (Maps.get r.current_term r.voted_for)) [
  | inl e ↦ rw (e, decide_vote) (grant-Keeps c r (λ d p. cc (e, p)) h)
  | inr (d, e) ↦
      rw (e, decide_vote)
        (if_intro (Keeps r) (d == c) _ _
          (λ same. grant-Keeps c r (λ d' p. ground (arith, e, p, same)) h)
          (λ _. answer-Keeps r c false r.current_term (λ g. cc) h))
]

catch_up_term :
    (term : ℕ) (r : Raft)
    → r.current_term ≤ term
    → (if ltb r.current_term term then become_follower term r else r).current_term ≡ term
unfolding become_follower
catch_up_term term r h = ground arith

-- A step down to the term of the request, then the decision in that term.
answer_request-Keeps : (req : RequestVote) (r : Raft) → IsFair r → Keeps r (answer_request req r)
unfolding answer_request
answer_request-Keeps req r h =
    if_intro (Keeps r) (ltb req.term r.current_term) _ _
      (λ _. answer-Keeps r req.candidate_id false r.current_term (λ g. cc) h)
      (λ fresh.
        let r1 : Raft = if ltb r.current_term req.term then become_follower req.term r else r in
        let k : Keeps r r1 = Keeps-of_Quiet (catch_up-Quiet req.term r) h in
        let e : r1.current_term ≡ req.term = catch_up_term req.term r (ground arith) in
        Keeps-trans k (
          subst (λ t. Keeps r1 (decide_vote t req.candidate_id r1)) e
            (decide_vote-Keeps req.candidate_id r1 k.fair)))

pub handle_vote_request-Keeps :
    (m : Message) (r : Raft) → IsFair r → Keeps r (handle_vote_request m r)
unfolding handle_vote_request
handle_vote_request-Keeps m r h = elim (Option-cases m.vote) [
  | inl e ↦ rw e (Keeps-refl h)
  | inr (req, e) ↦ rw e (answer_request-Keeps req r h)
]

count_vote-Silent : (votes : Map Bool) (r : Raft) → Silent r (count_vote votes r)
unfolding count_vote become_leader
count_vote-Silent votes r =
    if_intro (Silent r) (leb (quorum (record r { votes = some votes })) (count_granted votes)) _ _
      (λ _.
        Silent-of_Same r _
          (record {
            id_same = refl;
            size_same = refl;
            voted = refl;
            msgs = refl;
            after = refl;
            buffered = refl;
          })
          (omega arith))
      (λ _.
        Silent-of_Same r _
          (record {
            id_same = refl;
            size_same = refl;
            voted = refl;
            msgs = refl;
            after = refl;
            buffered = refl;
          })
          (omega arith))

vote_result-Silent :
    (peer : ℕ) (resp : RequestVoteResponse) (r : Raft)
    → Ensures (Silent r) (vote_result peer resp r)
unfolding vote_result
vote_result-Silent peer resp r =
    Ensures-if (Silent r) (ltb resp.term r.current_term)
      (λ _. Ensures-some (Silent r) r ((Quiet-refl r).silent))
      (λ _.
        Ensures-if (Silent r) (ltb r.current_term resp.term)
          (λ e.
            Ensures-some (Silent r) _
              (become_follower-Quiet r resp.term (omega (arith, ltb→lt _ _ e))).silent)
          (λ _.
            Ensures-bind_any (Silent r) (put_vote peer resp.vote_granted r) _
              (λ votes _. Ensures-some (Silent r) _ (count_vote-Silent votes r))))

pub handle_vote_response-Silent :
    (m : Message) (r : Raft) → Ensures (Silent r) (handle_vote_response m r)
unfolding handle_vote_response
handle_vote_response-Silent m r = elim (Option-cases m.vote_resp) [
  | inl e ↦ rw e (Ensures-some (Silent r) r ((Quiet-refl r).silent))
  | inr (resp, e) ↦ rw e (vote_result-Silent m.from resp r)
]

vote_requests-Quiet :
    (r : Raft) (v : Ballots) (peers : List ℕ) → All (IsHonest v) (map (vote_request r) peers)
unfolding vote_request
vote_requests-Quiet r v [] = tt
vote_requests-Quiet r v (p ∷ ps) = ((λ resp e g. cc), vote_requests-Quiet r v ps)

-- A candidate's vote for itself, in a term that no vote is recorded for.
stand-Keeps : (votes : Map Bool) (r : Raft) → IsFair r → Keeps r (stand votes r)
unfolding stand
stand-Keeps votes r h =
    let term = suc r.current_term in
    let r1 : Raft = record r {
      current_term = term;
      voted_for = Maps.put term r.id r.voted_for;
      votes = some votes;
    } in
    let k : Keeps r r1 =
      record-Keeps r term r.id r1 (λ d e. absurd (omega (arith, h.bounded term d e))) (omega arith)
        (omega arith) refl refl refl refl refl refl h in
    if_intro (Keeps r) (r.cluster_size == 1) _ _
      (λ _. Keeps-trans k (Keeps-of_Silent (become_leader-Silent r1) k.fair))
      (λ _. Keeps-trans k (Keeps-of_Silent (ask r1) k.fair))
  where
    ask : (s : Raft) → Silent s (record s { msgs = s.msgs ++ map (vote_request s) s.peers })
    ask s = record {
      id_same = refl;
      size_same = refl;
      buffered = refl;
      voted = refl;
      term_le = omega arith;
      msgs = λ v a. All-append (IsHonest v) s.msgs _ a (vote_requests-Quiet s v s.peers);
      after = λ v a. a;
    }

pub campaign-Keeps : (r : Raft) → IsFair r → Ensures (Keeps r) (campaign r)
unfolding campaign
campaign-Keeps r h =
    let k = Keeps-of_Silent (become_candidate-Silent r) h in
    Ensures-some (Keeps r) _ (Keeps-trans k (stand-Keeps _ (become_candidate r) k.fair))
