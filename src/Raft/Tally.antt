-- ===== src/Raft/Tally.antt =====
-- The votes that a candidate of repl/sm.go counts, and those a leader was elected with, against the
-- votes that the nodes of a cluster have cast.
use harmony_db.Base.{
  ℕ, ◌+◌, ◌/◌, ◌≤◌, ◌≡◌, ◌≢◌, sym, ◌∙◌, Bool, true, some, [], ◌∷◌, arith, All, inl, inr, Bool-cases,
  ◌==◌, subst,
}
use harmony_db.Base.Maps
use harmony_db.Base.Maps.{Map, put-All}
use harmony_db.Proto.{Message, RequestVoteResponse}
use harmony_db.Raft.Types.{Raft, leader, step_candidate}
use harmony_db.Raft.Vote.{count_granted}
use harmony_db.Raft.Silent.{Settled, Quiet}

-- Whether the first node votes, in the term, for the last.
abbrev pub Votes : Type 1
Votes = ℕ → ℕ → ℕ → Type 0

abbrev pub DistinctKeys : Map Bool → Type 0
DistinctKeys [] = Unit
DistinctKeys ((k, v) ∷ m) = All (λ e. e.0 ≢ k) m × DistinctKeys m

put-DistinctKeys :
    (k : ℕ) (v : Bool) (m : Map Bool) → DistinctKeys m → DistinctKeys (Maps.put k v m)
unfolding Maps.put
put-DistinctKeys k v [] h = (tt, tt)
put-DistinctKeys k v ((j, w) ∷ m) h = elim (Bool-cases (j == k)) [
  | inl same ↦
      let e : j ≡ k = ground arith in
      rw (same, Maps.put) (subst (λ i. All (λ e. e.0 ≢ i) m) e h.0, h.1)
  | inr other ↦
      rw (other, Maps.put)
        (put-All (λ e. e.0 ≢ j) k v m (λ e. ground arith) h.0, put-DistinctKeys k v m h.1)
]

module _ (V : Votes) where
  -- Counted votes: at most one for each node, and the granted ones are votes that were cast.
  pub record Tally (term id : ℕ) (votes : Map Bool) : Type 0 where
    pub distinct : DistinctKeys votes
    pub cast : All (λ e. e.1 ≡ true → V e.0 term id) votes

  pub record Won (id size term : ℕ) : Type 0 where
    pub votes : Map Bool
    pub tally : Tally term id votes
    pub enough : size / 2 + 1 ≤ count_granted votes

  -- A candidate counts such votes, and a leader was elected with them.
  pub record IsBacked (r : Raft) : Type 0 where
    pub counted : (votes : Map Bool) → r.votes ≡ some votes → Tally r.current_term r.id votes
    pub elected : r.state ≡ leader → Won r.id r.cluster_size r.current_term
    -- The map of the votes is there where a candidate would write to it.
    pub poised : r.step ≡ step_candidate → (votes : Map Bool) × (r.votes ≡ some votes)

  -- A granted vote response to the node `id` comes from a node that has voted for it.
  abbrev pub IsGenuine : ℕ → Message → Type 0
  IsGenuine id m =
      (resp : RequestVoteResponse)
      → m.vote_resp ≡ some resp
      → resp.vote_granted ≡ true
      → V m.from resp.term id

  -- The node's own votes are among those that were cast.
  abbrev pub CastsOwn : Raft → Type 0
  CastsOwn r = (t c : ℕ) → Maps.get t r.voted_for ≡ some c → V r.id t c

  pub put-Tally :
      (term id peer : ℕ) (granted : Bool) (votes : Map Bool)
      → (granted ≡ true → V peer term id)
      → Tally term id votes
      → Tally term id (Maps.put peer granted votes)
  put-Tally term id peer granted votes h t = record {
    distinct = put-DistinctKeys peer granted votes t.distinct;
    cast = put-All (λ e. e.1 ≡ true → V e.0 term id) peer granted votes h t.cast;
  }

  pub Settled-IsBacked :
      (r r' : Raft)
      → r'.id ≡ r.id
      → r'.cluster_size ≡ r.cluster_size
      → Settled r r'
      → IsBacked r
      → IsBacked r'
  Settled-IsBacked r r' i z (inl (t, v, s, f)) h = record {
    counted = λ votes e. rw (i, t) (h.counted votes (sym v ∙ e));
    elected = λ e. rw (i, z, t) (h.elected (sym s ∙ e));
    poised = λ e. let (vs, p) = h.poised (sym f ∙ e) in (vs, v ∙ p);
  }
  Settled-IsBacked r r' i z (inr (v, s, f)) h = record {
    counted = λ votes e. absurd (ground (arith, v, e));
    elected = λ e. absurd (ground (arith, s, e));
    poised = λ e. absurd (ground (arith, f, e));
  }

  pub Quiet-IsBacked : (r r' : Raft) → Quiet r r' → IsBacked r → IsBacked r'
  Quiet-IsBacked r r' q h = Settled-IsBacked r r' q.silent.id_same q.silent.size_same q.polls h

-- More votes are cast.
module _ (V W : Votes) (up : (p t c : ℕ) → V p t c → W p t c) where
  Tally-mono : (term id : ℕ) (votes : Map Bool) → Tally V term id votes → Tally W term id votes
  Tally-mono term id votes h = record { distinct = h.distinct; cast = go votes h.cast }
    where
      go :
          (m : Map Bool)
          → All (λ e. e.1 ≡ true → V e.0 term id) m
          → All (λ e. e.1 ≡ true → W e.0 term id) m
      go [] k = tt
      go (e ∷ m) k = ((λ g. up _ _ _ (k.0 g)), go m k.1)

  pub IsBacked-mono : (r : Raft) → IsBacked V r → IsBacked W r
  IsBacked-mono r h = record {
    counted = λ votes e. Tally-mono _ _ votes (h.counted votes e);
    elected = λ e.
        let w = h.elected e in
        record { votes = w.votes; tally = Tally-mono _ _ w.votes w.tally; enough = w.enough };
    poised = h.poised;
  }
