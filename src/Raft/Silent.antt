-- ===== src/Raft/Silent.antt =====
-- What a method of repl/sm.go that casts no vote leaves as it was.
use harmony_db.Base.{◌⊎◌, none, ℕ, ◌≤◌, ◌≡◌, refl, ◌∙◌, true, some, arith, All, inl, inr}
use harmony_db.Base.Maps
use harmony_db.Base.Maps.{Map}
use harmony_db.Proto.{Message, RequestVoteResponse}
use harmony_db.RaftLog.{RaftLog}
use harmony_db.Raft.Types.{Progress, follower, step_follower, Raft}

-- A node's id and its recorded votes.
abbrev pub Ballots : Type 0
Ballots = ℕ × Map ℕ

abbrev pub ballots : Raft → Ballots
ballots r = (r.id, r.voted_for)

-- A granted vote in `m` is the one that the node has recorded for its term, and comes from the node.
abbrev pub IsHonest : Ballots → Message → Type 0
IsHonest b m =
    (resp : RequestVoteResponse)
    → m.vote_resp ≡ some resp
    → resp.vote_granted ≡ true
    → (Maps.get resp.term b.1 ≡ some m.to) × (m.from ≡ b.0)

-- No vote is cast or queued.
pub record Silent (r r' : Raft) : Type 0 where
  pub id_same : r'.id ≡ r.id
  pub size_same : r'.cluster_size ≡ r.cluster_size
  pub buffered : r'.readyc ≡ r.readyc
  pub voted : r'.voted_for ≡ r.voted_for
  pub term_le : r.current_term ≤ r'.current_term
  pub msgs : (b : Ballots) → All (IsHonest b) r.msgs → All (IsHonest b) r'.msgs
  pub after :
      (b : Ballots) → All (IsHonest b) r.msgs_after_append → All (IsHonest b) r'.msgs_after_append

Silent-trans : {r s t : Raft} → Silent r s → Silent s t → Silent r t
Silent-trans p q = record {
  id_same = q.id_same ∙ p.id_same;
  size_same = q.size_same ∙ p.size_same;
  buffered = q.buffered ∙ p.buffered;
  voted = q.voted ∙ p.voted;
  term_le = omega arith;
  msgs = λ b h. q.msgs b (p.msgs b h);
  after = λ b h. q.after b (p.after b h);
}

-- What a change of the other fields leaves as it was.
pub record Same (r r' : Raft) : Type 0 where
  pub id_same : r'.id ≡ r.id
  pub size_same : r'.cluster_size ≡ r.cluster_size
  pub voted : r'.voted_for ≡ r.voted_for
  pub msgs : r'.msgs ≡ r.msgs
  pub after : r'.msgs_after_append ≡ r.msgs_after_append
  pub buffered : r'.readyc ≡ r.readyc

pub Silent-of_Same : (r r' : Raft) → Same r r' → r.current_term ≤ r'.current_term → Silent r r'
Silent-of_Same r r' s le = record {
  id_same = s.id_same;
  size_same = s.size_same;
  buffered = s.buffered;
  voted = s.voted;
  term_le = le;
  msgs = λ b h. rw s.msgs h;
  after = λ b h. rw s.after h;
}

-- The poll and the role are as they were, or the node has stepped down.
abbrev pub Settled : Raft → Raft → Type 0
Settled r r' =
    ((r'.current_term ≡ r.current_term)
      × (r'.votes ≡ r.votes)
      × (r'.state ≡ r.state)
      × (r'.step ≡ r.step))
    ⊎ ((r'.votes ≡ none) × (r'.state ≡ follower) × (r'.step ≡ step_follower))

Settled-trans : (r s t : Raft) → Settled r s → Settled s t → Settled r t
Settled-trans r s t p (inr b) = inr b
Settled-trans r s t (inl (a, b, c, k)) (inl (d, e, f, l)) = inl (d ∙ a, e ∙ b, f ∙ c, l ∙ k)
Settled-trans r s t (inr (b, c, k)) (inl (d, e, f, l)) = inr (e ∙ b, f ∙ c, l ∙ k)

pub record Quiet (r r' : Raft) : Type 0 where
  pub silent : Silent r r'
  pub polls : Settled r r'

pub Quiet-trans : {r s t : Raft} → Quiet r s → Quiet s t → Quiet r t
Quiet-trans {r} {s} {t} p q = record {
  silent = Silent-trans p.silent q.silent;
  polls = Settled-trans r s t p.polls q.polls;
}

-- A state in which no field of an election has changed.
pub Quiet-of_Same :
    (r r' : Raft)
    → Same r r'
    → r'.current_term ≡ r.current_term
    → r'.votes ≡ r.votes
    → r'.state ≡ r.state
    → r'.step ≡ r.step
    → Quiet r r'
Quiet-of_Same r r' s t v st f = record {
  silent = Silent-of_Same r r' s (omega arith);
  polls = inl (t, v, st, f);
}

-- The log, the progress and the tick counters play no part.
pub with_others :
    (r : Raft) (l : RaftLog) (p : Map Progress) (e h : ℕ)
    → Quiet r (record r { raft_log = l; progress = p; election_tick = e; heartbeat_tick = h })
with_others r l p e h =
    Quiet-of_Same r _
      (record {
        id_same = refl;
        size_same = refl;
        voted = refl;
        msgs = refl;
        after = refl;
        buffered = refl;
      })
      refl refl refl refl

pub Quiet-refl : (r : Raft) → Quiet r r
Quiet-refl r = with_others r r.raft_log r.progress r.election_tick r.heartbeat_tick
