-- ===== src/Raft/Polls.antt =====
-- The polls of repl/sm.go: every method keeps what a candidate has counted, and what a leader was
-- elected with, backed by votes that were cast.
use harmony_db.Base.{
  ℕ, suc, ◌≡◌, ◌≢◌, refl, Bool, true, Option, some, [], ◌∷◌, arith, inl, inr, ltb, leb, ltb→lt,
  Option-cases, if_intro, Ensures, Ensures-none, Ensures-some, Ensures-if, Ensures-bind,
  if◌then◌else◌, ◌==◌, subst,
}
use harmony_db.Base.Maps
use harmony_db.Base.Maps.{Map, get-put_self}
use harmony_db.Proto.{Message, RequestVote, RequestVoteResponse}
use harmony_db.Raft.Types.{Raft, quorum, candidate, leader, send_vote_response}
use harmony_db.Raft.Become.{
  become_follower, become_candidate, become_leader, put_vote, stand, campaign,
}
use harmony_db.Raft.Append.{Err}
use harmony_db.Raft.Vote.{
  grant, decide_vote, answer_request, handle_vote_request, count_granted, count_vote, vote_result,
  handle_vote_response,
}
use harmony_db.Raft.Step.{no_error}
use harmony_db.Raft.Silent.{Quiet}
use harmony_db.Raft.Quiet.{catch_up-Quiet, become_follower-Quiet}
use harmony_db.Raft.Tally.{
  Votes, Tally, IsBacked, IsGenuine, CastsOwn, put-Tally, Settled-IsBacked, Quiet-IsBacked,
}

decide_vote_same :
    (term c : ℕ) (r : Raft)
    → ((decide_vote term c r).current_term ≡ r.current_term)
      × ((decide_vote term c r).votes ≡ r.votes)
      × ((decide_vote term c r).state ≡ r.state)
      × ((decide_vote term c r).step ≡ r.step)
      × ((decide_vote term c r).id ≡ r.id)
      × ((decide_vote term c r).cluster_size ≡ r.cluster_size)
unfolding decide_vote grant send_vote_response
decide_vote_same term c r =
    (ground arith, ground arith, ground arith, ground arith, ground arith, ground arith)

become_candidate_state : (r : Raft) → (become_candidate r).state ≡ candidate
unfolding become_candidate
become_candidate_state r = ground arith

module _ (V : Votes) where
  -- The state of a step, once the votes in it are among those that were cast.
  abbrev pub NextBacked : Raft → Type 0
  NextBacked r = CastsOwn V r → IsBacked V r

  answer_request-IsBacked :
      (req : RequestVote) (r : Raft) → IsBacked V r → IsBacked V (answer_request req r)
  unfolding answer_request
  answer_request-IsBacked req r h =
      if_intro (IsBacked V) (ltb req.term r.current_term) _ _
        (λ _.
          unfold send_vote_response in
          Settled-IsBacked V r _ refl refl (inl (refl, refl, refl, refl)) h)
        (λ _.
          let r1 : Raft = if ltb r.current_term req.term then become_follower req.term r else r in
          let (t, v, s, f, i, z) = decide_vote_same req.term req.candidate_id r1 in
          Settled-IsBacked V r1 _ i z (inl (t, v, s, f))
            (Quiet-IsBacked V r r1 (catch_up-Quiet req.term r) h))

  pub handle_vote_request-IsBacked :
      (m : Message) (r : Raft) → IsBacked V r → IsBacked V (handle_vote_request m r)
  unfolding handle_vote_request
  handle_vote_request-IsBacked m r h = elim (Option-cases m.vote) [
    | inl e ↦ rw e h
    | inr (req, e) ↦ rw e (answer_request-IsBacked req r h)
  ]

  count_vote-IsBacked :
      (votes : Map Bool) (r : Raft)
      → Tally V r.current_term r.id votes
      → IsBacked V r
      → IsBacked V (count_vote votes r)
  unfolding count_vote become_leader
  count_vote-IsBacked votes r t h =
      if_intro (IsBacked V) (leb (quorum (record r { votes = some votes })) (count_granted votes)) _
        _
        (λ e. record {
          counted = λ vs p. absurd (ground (arith, p));
          elected =
              λ _. record { votes = votes; tally = t; enough = unfold quorum in ground (arith, e) };
          poised = λ p. absurd (ground (arith, p));
        })
        (λ _. record {
          counted = λ vs p. let q : votes ≡ vs = cc in subst (Tally V r.current_term r.id) q t;
          elected = h.elected;
          poised = λ _. (votes, refl);
        })

  vote_result-IsBacked :
      (peer : ℕ) (resp : RequestVoteResponse) (r : Raft)
      → (resp.vote_granted ≡ true → V peer resp.term r.id)
      → IsBacked V r
      → Ensures (IsBacked V) (vote_result peer resp r)
  unfolding vote_result put_vote count_vote
  vote_result-IsBacked peer resp r genuine h =
      Ensures-if (IsBacked V) (ltb resp.term r.current_term) (λ _. Ensures-some (IsBacked V) r h)
        (λ low.
          Ensures-if (IsBacked V) (ltb r.current_term resp.term)
            (λ up. Ensures-some (IsBacked V) _ (
              Quiet-IsBacked V r _
                (become_follower-Quiet r resp.term (omega (arith, ltb→lt _ _ up))) h))
            (λ high.
              let same : resp.term ≡ r.current_term = ground arith in
              elim (Option-cases r.votes) [
                | inl e ↦ rw e (Ensures-none (IsBacked V))
                | inr (vs, e) ↦ rw e (
                    Ensures-some (IsBacked V) _ (
                      count_vote-IsBacked _ r
                        (put-Tally V r.current_term r.id peer resp.vote_granted vs
                          (λ g. subst (λ t. V peer t r.id) same (genuine g)) (h.counted vs e))
                        h))
              ]))

  pub handle_vote_response-IsBacked :
      (m : Message) (r : Raft)
      → IsGenuine V r.id m
      → IsBacked V r
      → Ensures (IsBacked V) (handle_vote_response m r)
  unfolding handle_vote_response
  handle_vote_response-IsBacked m r g h = elim (Option-cases m.vote_resp) [
    | inl e ↦ rw e (Ensures-some (IsBacked V) r h)
    | inr (resp, e) ↦ rw e (vote_result-IsBacked m.from resp r (g resp e) h)
  ]

  -- A candidate's own vote, in a cluster of one enough.
  stand-NextBacked : (r : Raft) → r.state ≢ leader → NextBacked (stand ((r.id, true) ∷ []) r)
  unfolding stand become_leader
  stand-NextBacked r other =
      if_intro NextBacked (r.cluster_size == 1) _ _
        (λ one own. record {
          counted = λ vs p. absurd (ground (arith, p));
          elected = λ _. record {
            votes = (r.id, true) ∷ [];
            tally = record {
              distinct = (tt, tt);
              cast = ((λ _. own (suc r.current_term) r.id (get-put_self _ r.id r.voted_for)), tt);
            };
            enough = unfold count_granted in ground (arith, one);
          };
          poised = λ p. absurd (ground (arith, p));
        })
        (λ _ own. record {
          counted = λ vs p.
              let q : (r.id, true) ∷ [] ≡ vs = cc in
              subst (Tally V (suc r.current_term) r.id) q (record {
                distinct = (tt, tt);
                cast = ((λ _. own (suc r.current_term) r.id (get-put_self _ r.id r.voted_for)), tt);
              });
          elected = λ e. absurd (other e);
          poised = λ _. ((r.id, true) ∷ [], refl);
        })

  pub campaign-NextBacked : (r : Raft) → Ensures NextBacked (campaign r)
  unfolding campaign Maps.put
  campaign-NextBacked r = Ensures-some NextBacked _ (
      stand-NextBacked (become_candidate r)
        (λ e. absurd (ground (arith, become_candidate_state r, e))))

  abbrev pub StepBacked : Raft × Option Err → Type 0
  StepBacked s = NextBacked s.0

  pub no_error-Backed : (o : Option Raft) → Ensures NextBacked o → Ensures StepBacked (no_error o)
  no_error-Backed o h =
      Ensures-bind StepBacked NextBacked o _ h (λ s k. Ensures-some StepBacked _ k)

  pub known : (o : Option Raft) → Ensures (IsBacked V) o → Ensures NextBacked o
  known o h = record { at = λ s e _. h.at s e }

  pub quiet :
      (r : Raft) (o : Option Raft) → IsBacked V r → Ensures (Quiet r) o → Ensures NextBacked o
  quiet r o h q = record { at = λ s e _. Quiet-IsBacked V r s (q.at s e) h }
