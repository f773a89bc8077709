-- ===== src/Cluster/Leader.antt =====
-- The leaders of a cluster (repl/sm.go, repl/raft.go).
use harmony_db.Base.{
  ℕ, suc, ◌≡◌, sym, ◌∙◌, true, false, some, List, [], ◌∷◌, arith, length, inl, inr, Bool-cases,
  ◌==◌, subst,
}
use harmony_db.Raft.Types.{leader}
use harmony_db.Raft.Tally.{Won}
use harmony_db.Node.{is_member}
use harmony_db.Bootstrap.{NodeInfo, peers_of}
use harmony_db.Cluster.{Cluster, ids, new_cluster, ClusterRun}
use harmony_db.Cluster.Quorum.{Distinct, Won-shared}
use harmony_db.Cluster.Sound.{Cast, IsSound, run-IsSound}

not_listed :
    (i : ℕ) (infos : List NodeInfo)
    → is_member i (ids infos) ≡ false
    → length (peers_of i infos) ≡ length (ids infos)
unfolding is_member peers_of
not_listed i [] h = omega arith
not_listed i (info ∷ infos) h = ground (arith, not_listed i infos, h)

-- A node that is listed once has all the others as peers.
length-peers_of :
    (i : ℕ) (infos : List NodeInfo)
    → Distinct (ids infos)
    → is_member i (ids infos) ≡ true
    → suc (length (peers_of i infos)) ≡ length (ids infos)
unfolding is_member peers_of
length-peers_of i [] d h = absurd (ground (arith, h))
length-peers_of i (info ∷ infos) d h = elim (Bool-cases (info.id == i)) [
  | inl same ↦
      let q : info.id ≡ i = ground arith in
      rw same
        (omega (arith, not_listed i infos (subst (λ x. is_member x (ids infos) ≡ false) q d.0)))
  | inr other ↦ rw other (omega (arith, length-peers_of i infos d.1 (ground (arith, h, other))))
]

won :
    (infos : List NodeInfo) (c : Cluster) (i : ℕ)
    → Distinct (ids infos)
    → IsSound infos c
    → is_member i (ids infos) ≡ true
    → (c i).raft.state ≡ leader
    → Won (Cast infos c) i (length (ids infos)) (c i).raft.current_term
won infos c i d h member lead =
    let s = h.at i member in
    let w = s.polling.backed.elected lead in
    let size = s.size ∙ length-peers_of i infos d member in
    subst (λ x. Won (Cast infos c) x (length (ids infos)) (c i).raft.current_term) s.polling.id_same
      (subst (λ z. Won (Cast infos c) (c i).raft.id z (c i).raft.current_term) size w)

-- In a cluster of nodes with different ids that start afresh, whatever messages are lost, repeated
-- or reordered and however the nodes' clocks and loops interleave, two nodes that lead in one term
-- are the same node.
pub one_leader_per_term :
    (infos : List NodeInfo) (c : Cluster)
    → Distinct (ids infos)
    → ClusterRun infos (new_cluster infos) c
    → (i j : ℕ) → is_member i (ids infos) ≡ true
    → is_member j (ids infos) ≡ true
    → (c i).raft.state ≡ leader
    → (c j).raft.state ≡ leader
    → (c i).raft.current_term ≡ (c j).raft.current_term
    → i ≡ j
one_leader_per_term infos c d run i j mi mj li lj same =
    let h = run-IsSound infos run in
    let (p, a, b) =
      Won-shared (Cast infos c) (ids infos) (λ p t k v. v.0) i j (c i).raft.current_term
        (won infos c i d h mi li) (rw same (won infos c j d h mj lj)) in
    let e : some i ≡ some j = sym a.1 ∙ b.1 in cc
