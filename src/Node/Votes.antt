-- ===== src/Node/Votes.antt =====
-- No node ever grants two candidates a vote in one term (repl/raft.go over repl/sm.go).
use harmony_db.Base.{ℕ, zero, suc, ◌≡◌, true, some, List, [], ◌∷◌, arith, All, subst, get_elem?}
use harmony_db.Base.Maps
use harmony_db.Base.Maps.{Map, get-put}
use harmony_db.Proto.{Message, RequestVoteResponse}
use harmony_db.Raft.Become.{new_raft}
use harmony_db.Raft.Silent.{Ballots, ballots, IsHonest}
use harmony_db.Node.{Node, new_node, Reach, here, next}
use harmony_db.Node.Trusty.{IsTrusty, NodeStep-Kept}

Reach-Trusty : {n n' : Node} → IsTrusty n → Reach n n' → IsTrusty n'
Reach-Trusty h here = h
Reach-Trusty h (next r s) = (NodeStep-Kept s (Reach-Trusty h r)).trusty

pub new_node-Trusty : (id : ℕ) (peers : List ℕ) → IsTrusty (new_node id peers)
unfolding new_node new_raft Maps.get
new_node-Trusty id peers = record {
  fair = record {
    bounded = λ t c e. absurd (ground arith);
    msgs = tt;
    after = tt;
    buffered = λ rd e. absurd (ground arith);
  };
  sent = tt;
}

pub All-get_elem? :
    (v : Ballots) (ms : List Message) (i : ℕ) {m : Message}
    → All (IsHonest v) ms
    → get_elem? ms i ≡ some m
    → IsHonest v m
All-get_elem? v [] i h e = cc
All-get_elem? v (x ∷ ms) zero {m} h e = let q : x ≡ m = cc in subst (IsHonest v) q h.0
All-get_elem? v (x ∷ ms) (suc i) h e = All-get_elem? v ms i h.1 e

-- Whatever messages, ticks and interleavings a fresh node meets, two granted votes that it sends
-- out for one term go to one candidate.
pub one_vote_per_term :
    (id : ℕ) (peers : List ℕ) (n : Node)
    → Reach (new_node id peers) n
    → (i j : ℕ) (m k : Message) (p q : RequestVoteResponse) → get_elem? n.sent i ≡ some m
    → get_elem? n.sent j ≡ some k
    → m.vote_resp ≡ some p
    → k.vote_resp ≡ some q
    → p.vote_granted ≡ true
    → q.vote_granted ≡ true
    → p.term ≡ q.term
    → m.to ≡ k.to
one_vote_per_term id peers n reach i j m k p q at_i at_j has_p has_q gp gq same =
    let t = Reach-Trusty (new_node-Trusty id peers) reach in
    let first = (All-get_elem? (ballots n.raft) n.sent i t.sent at_i p has_p gp).0 in
    let second = (All-get_elem? (ballots n.raft) n.sent j t.sent at_j q has_q gq).0 in cc
