-- ===== src/Raft/Ballot.antt =====
-- The votes of one node (repl/sm.go): a vote is never changed, and every granted vote that leaves
-- the node is the one on record.
use harmony_db.Base.{
  refl, ℕ, ◌≤◌, ◌≡◌, sym, ◌∙◌, Bool, true, some, List, [], ◌∷◌, arith, All, All-append,
}
use harmony_db.Base.Maps
use harmony_db.Base.Maps.{Map, get-put}
use harmony_db.Proto.{Message}
use harmony_db.Raft.Types.{Raft, Ready, send_vote_response}
use harmony_db.Raft.Silent.{ballots, IsHonest, Silent, Quiet}

-- No vote is recorded for a term to come, and every granted vote in the buffers is on record.
pub record IsFair (r : Raft) : Type 0 where
  pub bounded : (t c : ℕ) → Maps.get t r.voted_for ≡ some c → t ≤ r.current_term
  pub msgs : All (IsHonest (ballots r)) r.msgs
  pub after : All (IsHonest (ballots r)) r.msgs_after_append
  pub buffered :
      (rd : Ready)
      → r.readyc ≡ some rd
      → All (IsHonest (ballots r)) rd.messages × All (IsHonest (ballots r)) rd.messages_after_append

-- From `r` to `r'` no vote is lost or changed, and the term does not fall.
pub record Keeps (r r' : Raft) : Type 0 where
  pub fair : IsFair r'
  pub id_same : r'.id ≡ r.id
  pub size_same : r'.cluster_size ≡ r.cluster_size
  pub term_le : r.current_term ≤ r'.current_term
  pub votes : (t c : ℕ) → Maps.get t r.voted_for ≡ some c → Maps.get t r'.voted_for ≡ some c

pub Keeps-refl : {r : Raft} → IsFair r → Keeps r r
Keeps-refl h = record {
  fair = h;
  id_same = refl;
  size_same = refl;
  term_le = omega arith;
  votes = λ t c e. e;
}

pub Keeps-trans : {r s t : Raft} → Keeps r s → Keeps s t → Keeps r t
Keeps-trans p q = record {
  fair = q.fair;
  id_same = q.id_same ∙ p.id_same;
  size_same = q.size_same ∙ p.size_same;
  term_le = omega arith;
  votes = λ t c e. q.votes t c (p.votes t c e);
}

pub Keeps-of_Silent : {r r' : Raft} → Silent r r' → IsFair r → Keeps r r'
Keeps-of_Silent {r} {r'} q h = record {
  fair = record {
    bounded = λ t c e.
        let old : t ≤ r.current_term = h.bounded t c (rw q.voted at e) in
        let up : r.current_term ≤ r'.current_term = q.term_le in omega arith;
    msgs = rw (q.id_same, q.voted) (q.msgs _ h.msgs);
    after = rw (q.id_same, q.voted) (q.after _ h.after);
    buffered = λ rd e. rw (q.id_same, q.voted) (h.buffered rd (sym q.buffered ∙ e));
  };
  id_same = q.id_same;
  size_same = q.size_same;
  term_le = q.term_le;
  votes = λ t c e. rw q.voted e;
}

pub Keeps-of_Quiet : {r r' : Raft} → Quiet r r' → IsFair r → Keeps r r'
Keeps-of_Quiet q h = Keeps-of_Silent q.silent h

-- `IsHonest` grows with the recorded votes.
pub All-IsHonest_mono :
    (id : ℕ) (v w : Map ℕ)
    → ((t c : ℕ) → Maps.get t v ≡ some c → Maps.get t w ≡ some c)
    → (ms : List Message) → All (IsHonest (id, v)) ms
    → All (IsHonest (id, w)) ms
All-IsHonest_mono id v w up [] h = tt
All-IsHonest_mono id v w up (m ∷ ms) h =
    ((λ resp e g. let (a, b) = h.0 resp e g in (up _ _ a, b)), All-IsHonest_mono id v w up ms h.1)

-- A vote for a term whose recorded vote, if any, is the same.
put_mono :
    (v : Map ℕ) (term c : ℕ)
    → ((d : ℕ) → Maps.get term v ≡ some d → d ≡ c)
    → (t d : ℕ) → Maps.get t v ≡ some d
    → Maps.get t (Maps.put term c v) ≡ some d
put_mono v term c same t d e = ground (arith, get-put term t c v, same d)

-- Casting such a vote in a term that has come, with nothing else of the ballots changed.
pub record-Keeps :
    (r : Raft) (term c : ℕ) (r' : Raft)
    → ((d : ℕ) → Maps.get term r.voted_for ≡ some d → d ≡ c)
    → term ≤ r'.current_term
    → r.current_term ≤ r'.current_term
    → r'.id ≡ r.id
    → r'.cluster_size ≡ r.cluster_size
    → r'.voted_for ≡ Maps.put term c r.voted_for
    → r'.msgs ≡ r.msgs
    → r'.msgs_after_append ≡ r.msgs_after_append
    → r'.readyc ≡ r.readyc
    → IsFair r
    → Keeps r r'
record-Keeps r term c r' same come up ei es ev em ea eb h = record {
  fair = record {
    bounded = λ t d e. ground (arith, get-put term t c r.voted_for, h.bounded t d, rw ev at e);
    msgs =
        rw (ei, ev, em) (All-IsHonest_mono _ _ _ (put_mono r.voted_for term c same) r.msgs h.msgs);
    after =
        rw (ei, ev, ea)
          (All-IsHonest_mono _ _ _ (put_mono r.voted_for term c same) r.msgs_after_append h.after);
    buffered = λ rd e.
        let old = h.buffered rd (sym eb ∙ e) in
        rw (ei, ev)
          (
            All-IsHonest_mono _ _ _ (put_mono r.voted_for term c same) rd.messages old.0,
            All-IsHonest_mono _ _ _ (put_mono r.voted_for term c same) rd.messages_after_append
                old.1,
          );
  };
  id_same = ei;
  size_same = es;
  term_le = up;
  votes = λ t d e. rw ev (put_mono r.voted_for term c same t d e);
}

-- Queueing an answer that agrees with the record.
pub answer-Keeps :
    (r : Raft) (to : ℕ) (granted : Bool) (term : ℕ)
    → (granted ≡ true → Maps.get term r.voted_for ≡ some to)
    → IsFair r
    → Keeps r (send_vote_response to granted term r)
unfolding send_vote_response
answer-Keeps r to granted term ok h = record {
  fair = record {
    bounded = h.bounded;
    msgs =
        All-append (IsHonest (ballots r)) r.msgs _ h.msgs
          ((λ resp e g. (ground (arith, ok), ground arith)), tt);
    after = h.after;
    buffered = h.buffered;
  };
  id_same = refl;
  size_same = refl;
  term_le = omega arith;
  votes = λ t c e. e;
}
