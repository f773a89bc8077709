-- ===== src/Cluster.antt =====
-- The nodes of a cluster (repl/raft.go), each made by repl/bootstrap.go from the same list of nodes,
-- and the network between them: a message that a node has handed to the transport may reach the
-- node that it is for at any time, more than once, or never.
pub mod Quorum
pub mod Sound
pub mod Leader
use harmony_db.Base.{ℕ, ◌≡◌, true, none, some, List, [], ◌∷◌, ◌==◌, if◌then◌else◌, get_elem?, map}
use harmony_db.Proto.{Message}
use harmony_db.Node.{Node, ToApply, new_node, process, tick_in, is_member, Choice, iterate, went}
use harmony_db.Bootstrap.{NodeInfo, peers_of}

-- The node with each id.
abbrev pub Cluster : Type 0
Cluster = ℕ → Node

abbrev pub ids : List NodeInfo → List ℕ
ids infos = map (λ info. info.id) infos

unfoldable pub new_cluster : List NodeInfo → Cluster
new_cluster infos i = new_node i (peers_of i infos)

unfoldable pub replace : ℕ → Node → Cluster → Cluster
replace i n c j = if j == i then n else c j

module _ (infos : List NodeInfo) where
  pub data ClusterStep (c : Cluster) : Cluster → Type 0 where
    -- The message at place `k` of what node `j` has sent arrives.
    deliver :
        (i j k : ℕ) {m : Message}
        → is_member i (ids infos) ≡ true
        → is_member j (ids infos) ≡ true
        → get_elem? (c j).sent k ≡ some m
        → m.to ≡ i
        → ClusterStep c (replace i (process m (c i)).0 c)
    -- The database of a node, or a client, passes a message in; it carries no vote.
    submit :
        (i : ℕ) (m : Message)
        → is_member i (ids infos) ≡ true
        → m.vote_resp ≡ none
        → ClusterStep c (replace i (process m (c i)).0 c)
    clock : (i : ℕ) → is_member i (ids infos) ≡ true → ClusterStep c (replace i (tick_in (c i)) c)
    turn :
        (i : ℕ) (choice : Choice) {n : Node}
        → is_member i (ids infos) ≡ true
        → iterate choice (c i) ≡ went n
        → ClusterStep c (replace i n c)
    take :
        (i : ℕ) {a : ToApply} {rest : List ToApply}
        → is_member i (ids infos) ≡ true
        → (c i).applyc ≡ a ∷ rest
        → ClusterStep c (replace i (record (c i) { applyc = rest }) c)

  pub data ClusterRun (c : Cluster) : Cluster → Type 0 where
    here : ClusterRun c c
    next : {d e : Cluster} → ClusterRun c d → ClusterStep d e → ClusterRun c e
