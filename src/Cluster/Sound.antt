-- ===== src/Cluster/Sound.antt =====
-- The votes of all nodes of a cluster (repl/raft.go), and that every step keeps the polls to them.
use harmony_db.Base.{
  ℕ, suc, ◌≡◌, sym, ◌∙◌, ap, true, false, some, List, [], ◌∷◌, arith, All, inl, inr, Bool-cases,
  ◌==◌, length, subst, get_elem?,
}
use harmony_db.Base.Maps
use harmony_db.Base.Maps.{Map}
use harmony_db.Proto.{Message}
use harmony_db.Raft.Become.{new_raft, become_follower}
use harmony_db.Raft.Silent.{ballots}
use harmony_db.Raft.Tally.{Votes, IsGenuine, CastsOwn, IsBacked-mono}
use harmony_db.Node.{Node, new_node, is_member, propose, clock, loop, apply}
use harmony_db.Node.Trusty.{IsTrusty, Kept, NodeStep-Kept}
use harmony_db.Node.Votes.{new_node-Trusty, All-get_elem?}
use harmony_db.Node.Backed.{
  IsPolling, NextPolling, iterate-Polling, process-NextPolling, tick_in-NextPolling,
  new_node-Polling,
}
use harmony_db.Bootstrap.{NodeInfo, peers_of}
use harmony_db.Cluster.{
  Cluster, ids, new_cluster, replace, ClusterStep, ClusterRun, deliver, submit, turn, take, here,
  next,
}

module _ (infos : List NodeInfo) where
  -- The votes that the nodes have on record.
  abbrev pub Cast : Cluster → Votes
  Cast c p t k = (is_member p (ids infos) ≡ true) × (Maps.get t (c p).raft.voted_for ≡ some k)

  pub record NodeSound (V : Votes) (i : ℕ) (n : Node) : Type 0 where
    pub trusty : IsTrusty n
    pub polling : IsPolling V i n
    pub size : n.raft.cluster_size ≡ suc (length (peers_of i infos))

  pub record IsSound (c : Cluster) : Type 0 where
    pub at : (i : ℕ) → is_member i (ids infos) ≡ true → NodeSound (Cast c) i (c i)

  -- A step of node `i` to `n`.
  module _ (c : Cluster) (i : ℕ) (n : Node) where
    replace_self : replace i n c i ≡ n
    unfolding replace
    replace_self = ground arith

    replace_other : (j : ℕ) → (j == i) ≡ false → replace i n c j ≡ c j
    unfolding replace
    replace_other j e = rw e

    Cast_mono : Kept (c i).raft n → (p t k : ℕ) → Cast c p t k → Cast (replace i n c) p t k
    Cast_mono kept p t k (a, e) = elim (Bool-cases (p == i)) [
      | inl same ↦
          let q : i ≡ p = ground arith in
          (
            a,
            subst (λ x. Maps.get t (replace i n c x).raft.voted_for ≡ some k) q
                (rw replace_self (
                  kept.keeps.votes t k
                    (subst (λ x. Maps.get t (c x).raft.voted_for ≡ some k) (sym q) e))),
          )
      | inr other ↦ (a, rw (replace_other p other) e)
    ]

    IsPolling-mono :
        (V W : Votes)
        → ((p t k : ℕ) → V p t k → W p t k)
        → (j : ℕ) (m : Node) → IsPolling V j m
        → IsPolling W j m
    IsPolling-mono V W up j m h = record {
      id_same = h.id_same;
      backed = IsBacked-mono V W up m.raft h.backed;
      queued = go m.propc h.queued;
    }
      where
        go : (ms : List Message) → All (IsGenuine V j) ms → All (IsGenuine W j) ms
        go [] k = tt
        go (x ∷ ms) k = ((λ resp e g. up _ _ _ (k.0 resp e g)), go ms k.1)

    pub replace-IsSound :
        is_member i (ids infos) ≡ true
        → Kept (c i).raft n
        → (IsPolling (Cast (replace i n c)) i (c i) → NextPolling (Cast (replace i n c)) i n)
        → IsSound c
        → IsSound (replace i n c)
    replace-IsSound member kept moves h = record {
      at = λ j mj. elim (Bool-cases (j == i)) [
        | inl same ↦
            let q : i ≡ j = ground arith in
            subst (λ x. NodeSound W x (replace i n c x)) q (rw replace_self own)
        | inr other ↦ rw (replace_other j other) (
            let s = h.at j mj in
            record { trusty = s.trusty; polling = up j (c j) s.polling; size = s.size })
      ];
    }
      where
        W : Votes
        W = Cast (replace i n c)

        up : (j : ℕ) (m : Node) → IsPolling (Cast c) j m → IsPolling W j m
        up = IsPolling-mono (Cast c) W (Cast_mono kept)

        old : NodeSound (Cast c) i (c i)
        old = h.at i member

        after : NextPolling W i n
        after = moves (up i (c i) old.polling)

        id_same : n.raft.id ≡ i
        id_same = kept.keeps.id_same ∙ old.polling.id_same

        casts : CastsOwn W n.raft
        casts t k e =
            subst (λ p. W p t k) (sym id_same)
              (member, subst (λ x. Maps.get t x.raft.voted_for ≡ some k) (sym replace_self) e)

        own : NodeSound W i n
        own = record {
          trusty = kept.trusty;
          polling = record {
            id_same = id_same;
            backed = after.backed casts;
            queued = after.queued;
          };
          size = kept.keeps.size_same ∙ old.size;
        }

  -- What a sound node has sent to node `i` is genuine.
  sent-IsGenuine :
      (c : Cluster) (i j k : ℕ) (m : Message)
      → IsSound c
      → is_member j (ids infos) ≡ true
      → get_elem? (c j).sent k ≡ some m
      → m.to ≡ i
      → IsGenuine (Cast c) i m
  sent-IsGenuine c i j k m h member at_k to resp e g =
      let s = h.at j member in
      let (voted, from) =
        All-get_elem? (ballots (c j).raft) (c j).sent k s.trusty.sent at_k resp e g in
      let q : j ≡ m.from = sym (from ∙ s.polling.id_same) in
      subst (λ p. Cast c p resp.term i) q (member, voted ∙ ap some to)

  pub ClusterStep-IsSound : {c d : Cluster} → ClusterStep infos c d → IsSound c → IsSound d
  ClusterStep-IsSound {c} (deliver i j k {m} mi mj at_k to) h =
      let kept = NodeStep-Kept (propose m) (h.at i mi).trusty in
      let g = sent-IsGenuine c i j k m h mj at_k to in
      replace-IsSound c i _ mi kept
        (process-NextPolling _ i m (c i)
          (λ resp e y. Cast_mono c i _ kept m.from resp.term i (g resp e y)))
        h
  ClusterStep-IsSound {c} (submit i m mi no_vote) h =
      replace-IsSound c i _ mi (NodeStep-Kept (propose m) (h.at i mi).trusty)
        (process-NextPolling _ i m (c i) (λ resp e y. absurd (ground (arith, no_vote, e)))) h
  ClusterStep-IsSound {c} (ClusterStep.clock i mi) h =
      replace-IsSound c i _ mi (NodeStep-Kept clock (h.at i mi).trusty)
        (tick_in-NextPolling _ i (c i)) h
  ClusterStep-IsSound {c} (turn i choice {n} mi e) h =
      replace-IsSound c i n mi (NodeStep-Kept (loop choice e) (h.at i mi).trusty)
        (λ p. (iterate-Polling _ i choice (c i) p).at n e) h
  ClusterStep-IsSound {c} (take i mi e) h =
      replace-IsSound c i _ mi (NodeStep-Kept (apply e) (h.at i mi).trusty)
        (λ p. record { backed = λ _. p.backed; queued = p.queued }) h

  new_cluster-IsSound : IsSound (new_cluster infos)
  unfolding new_cluster
  new_cluster-IsSound = record {
    at = λ i member. record {
      trusty = new_node-Trusty i (peers_of i infos);
      polling = new_node-Polling (Cast (new_cluster infos)) i (peers_of i infos);
      size = unfold new_node in unfold new_raft in unfold become_follower in ground arith;
    };
  }

  pub run-IsSound : {c : Cluster} → ClusterRun infos (new_cluster infos) c → IsSound c
  run-IsSound here = new_cluster-IsSound
  run-IsSound (next r s) = ClusterStep-IsSound s (run-IsSound r)
