-- ===== src/Raft/Commit.antt =====
-- The commit rule of a leader (`maybeCommit` in repl/sm.go).
use harmony_db.Base.{
  ℕ, zero, suc, ◌+◌, ◌-◌, ◌≤◌, ◌<◌, ◌≡◌, refl, sym, ◌∙◌, subst, ◌⊎◌, inl, inr, true, false, some,
  arith, leb, leb→le, le→leb, lt→ltb, ap, ◌==◌, ==_iff, ◌*◌, ◌/◌, if◌then◌else◌, length, List, [],
  ◌∷◌, Bool-cases,
}
use harmony_db.RaftLog
use harmony_db.RaftLog.{RaftLog, last_index}
use harmony_db.RaftLog.Sequential.{IsSequential, term_total}
use harmony_db.Raft.Types.{Raft, Progress, quorum}
use harmony_db.Base.Maps.{Map}
use harmony_db.Raft.Append.{
  commit_round, commit_loop, maybe_commit, replicated_count, count_matching,
}

-- The followers that hold the entry at `index`, as the leader's `progress` tells.
abbrev pub holders : ℕ → Map Progress → List ℕ
holders index [] = []
holders index ((peer, p) ∷ m) =
    let rest = holders index m in if leb index p.match_index then peer ∷ rest else rest

-- The raft paper's rule: the leader and these followers are more than half of the cluster, and the
-- entry is of the leader's own term.
abbrev pub Eligible : Raft → ℕ → Type 0
Eligible r index =
    (r.cluster_size < 2 * suc (length (holders index r.progress)))
    × (RaftLog.term r.raft_log index ≡ some r.current_term)

count_matching-holders :
    (index : ℕ) (m : Map Progress) → count_matching index m ≡ length (holders index m)
unfolding count_matching
count_matching-holders index [] = refl
count_matching-holders index ((peer, p) ∷ m) = elim (Bool-cases (leb index p.match_index)) [
  | inl e ↦ rw (e, count_matching-holders index m) refl
  | inr e ↦ rw (e, count_matching-holders index m) refl
]

majority :
    (r : Raft) (index : ℕ)
    → leb (quorum r) (replicated_count index r) ≡ true
    → r.cluster_size < 2 * suc (length (holders index r.progress))
unfolding quorum replicated_count
majority r index h =
    let le = leb→le (r.cluster_size / 2 + 1) (suc (count_matching index r.progress)) h in
    omega (arith, le, count_matching-holders index r.progress)

no_majority :
    (r : Raft) (index : ℕ)
    → leb (quorum r) (replicated_count index r) ≡ false
    → ¬ (r.cluster_size < 2 * suc (length (holders index r.progress)))
unfolding quorum replicated_count
no_majority r index h = λ many.
    let le : r.cluster_size / 2 + 1 ≤ suc (count_matching index r.progress) =
      omega (arith, many, count_matching-holders index r.progress) in
    absurd (ground (arith, h, le→leb _ _ le))

abbrev pub with_commit : ℕ → Raft → Raft
with_commit c r = record r { raft_log = record r.raft_log { commit_index = c } }

-- `s` is `r` with its commit index moved up to the highest eligible index, if there is one.
pub record IsHighest (r s : Raft) : Type 0 where
  pub only_commit : s ≡ with_commit s.raft_log.commit_index r
  pub commit_le : r.raft_log.commit_index ≤ s.raft_log.commit_index
  pub chosen :
      (s.raft_log.commit_index ≡ r.raft_log.commit_index) ⊎ Eligible r s.raft_log.commit_index
  pub none_above :
      (j : ℕ) → s.raft_log.commit_index < j → j ≤ last_index r.raft_log → ¬ Eligible r j

module _ (r : Raft) (c index : ℕ) where
  few_holders :
      leb (quorum r) (replicated_count index r) ≡ false
      → commit_round index (with_commit c r) ≡ some (with_commit c r)
  unfolding commit_round quorum replicated_count
  few_holders h = rw h

  module _ (many : leb (quorum r) (replicated_count index r) ≡ true) where
    other_term :
        (t : ℕ)
        → RaftLog.term r.raft_log index ≡ some t
        → (t == r.current_term) ≡ false
        → commit_round index (with_commit c r) ≡ some (with_commit c r)
    unfolding commit_round quorum replicated_count RaftLog.term last_index
    other_term t p h = rw (many, p, h)

    own_term :
        (t : ℕ)
        → RaftLog.term r.raft_log index ≡ some t
        → (t == r.current_term) ≡ true
        → c < index
        → index ≤ last_index r.raft_log
        → commit_round index (with_commit c r) ≡ some (with_commit index r)
    unfolding commit_round quorum replicated_count RaftLog.term last_index RaftLog.maybe_commit
    own_term t p h lt le = rw (many, p, h) (rw (lt→ltb c index lt, le→leb index _ le))

-- One round, at an index above the commit index and within the log.
round_cases :
    (r : Raft) (c index : ℕ)
    → IsSequential r.raft_log
    → c < index
    → index ≤ last_index r.raft_log
    → (Eligible r index × (commit_round index (with_commit c r) ≡ some (with_commit index r)))
      ⊎ ((¬ Eligible r index) × (commit_round index (with_commit c r) ≡ some (with_commit c r)))
round_cases r c index s lt le = elim (Bool-cases (leb (quorum r) (replicated_count index r))) [
  | inr few ↦ inr ((λ el. absurd (no_majority r index few el.0)), few_holders r c index few)
  | inl many ↦
      let (t, p) = term_total r.raft_log index s in
      elim (Bool-cases (t == r.current_term)) [
        | inl same ↦ inl (
          (majority r index many, p ∙ ap some ((==_iff t r.current_term).0 same)),
          own_term r c index many t p same lt le,
        )
        | inr other ↦
            inr ((λ el. ground (arith, other, p, el.1)), other_term r c index many t p other)
      ]
]

-- The rounds from `index` on, with the commit index at `c` and nothing eligible in between.
record IsHighestFrom (r : Raft) (index c : ℕ) (s : Raft) : Type 0 where
  at : ℕ
  same : s ≡ with_commit at r
  le : c ≤ at
  chosen : (at ≡ c) ⊎ Eligible r at
  none_above : (j : ℕ) → index ≤ j → at < j → j ≤ last_index r.raft_log → ¬ Eligible r j

loop_highest :
    (r : Raft) (rounds index c : ℕ)
    → IsSequential r.raft_log
    → c < index
    → last_index r.raft_log < index + rounds
    → rounds ≤ suc (last_index r.raft_log) - index
    → (s : Raft) × (commit_loop rounds index (with_commit c r) ≡ some s) × IsHighestFrom r index c s
unfolding commit_loop
loop_highest r zero index c seq lt up down = (
  with_commit c r,
  refl,
  record {
    at = c;
    same = refl;
    le = omega arith;
    chosen = inl refl;
    none_above = λ j a b d. absurd (omega arith);
  },
)
loop_highest r (suc rounds) index c seq lt up down =
    elim (round_cases r c index seq lt (omega arith)) [
      | inl (el, e) ↦
          let (s, run, h) =
            loop_highest r rounds (index + 1) index seq (omega arith) (omega arith) (omega arith) in
          (
            s,
            rw e run,
            record {
              at = h.at;
              same = h.same;
              le = omega (arith, h.le);
              chosen = inr (elim h.chosen [ inl p ↦ subst (Eligible r) (sym p) el | inr q ↦ q ]);
              none_above = λ j a b d. h.none_above j (omega (arith, h.le)) b d;
            },
          )
      | inr (nel, e) ↦
          let (s, run, h) =
            loop_highest r rounds (index + 1) c seq (omega arith) (omega arith) (omega arith) in
          (
            s,
            rw e run,
            record {
              at = h.at;
              same = h.same;
              le = h.le;
              chosen = h.chosen;
              none_above = λ j a b d. above h.none_above nel j a b d;
            },
          )
    ]
  where
    above :
        {at : ℕ}
        → ((j : ℕ) → index + 1 ≤ j → at < j → j ≤ last_index r.raft_log → ¬ Eligible r j)
        → ¬ Eligible r index
        → (j : ℕ) → index ≤ j
        → at < j
        → j ≤ last_index r.raft_log
        → ¬ Eligible r j
    above rest nel j a b d = elim (Bool-cases (j == index)) [
      | inl e ↦ subst (λ i. ¬ Eligible r i) (sym ((==_iff j index).0 e)) nel
      | inr e ↦ rest j (ground arith) b d
    ]

-- On a leader's sequential log `maybeCommit` never panics. It changes the commit index only: up to
-- the highest index of the log whose entry is of the current term and at which, as `progress` tells,
-- more than half of the cluster match, the leader included. With no such index above it, the commit
-- index stays.
pub maybe_commit_exact :
    (r : Raft) → IsSequential r.raft_log → (s : Raft) × (maybe_commit r ≡ some s) × IsHighest r s
unfolding maybe_commit
maybe_commit_exact r seq =
    let c = r.raft_log.commit_index in
    let (s, run, h) =
      loop_highest r (last_index r.raft_log - c) (c + 1) c seq (omega arith) (omega arith)
        (omega arith) in
    let e : s.raft_log.commit_index ≡ h.at = ap (λ (x : Raft). x.raft_log.commit_index) h.same in
    (
      s,
      run,
      record {
        only_commit = rw e h.same;
        commit_le = omega (arith, h.le);
        chosen = rw e h.chosen;
        none_above = λ j a b. h.none_above j (omega (arith, h.le)) (omega arith) b;
      },
    )
