-- ===== src/Bootstrap/Boots.antt =====
-- When repl/bootstrap.go starts a node, and when it gives up.
use harmony_db.Base.{ℕ, ◌≡◌, ◌≢◌, ◌⊎◌, Bool, true, Option, some, List, [], All}
use harmony_db.Node.{Node, new_node}
use harmony_db.Wal.{LogManager, new_lm}
use harmony_db.Bootstrap.{NodeInfo, ClusterConfig, address_of, peers_of}

module _ (dials : List ℕ → Bool) (this : ℕ) where
  -- The node itself, or one that can be dialled.
  abbrev pub IsReachable : NodeInfo → Type 0
  IsReachable info = (info.id ≡ this) ⊎ (dials info.address ≡ true)

module _ (dials listens : List ℕ → Bool) (wal_file : ℕ → Option (List ℕ))
    (config : ClusterConfig) where
  pub record CanBoot : Type 0 where
    -- The first node listed with its id has an address, and can listen on it.
    pub listed : address_of config.this_node_id config.nodes ≢ []
    pub reachable : All (IsReachable dials config.this_node_id) config.nodes
    pub listening : listens (address_of config.this_node_id config.nodes) ≡ true

  -- A node that has nothing but the logs of its write-ahead log.
  abbrev pub node_with : LogManager → Node
  node_with lm = record (new_node config.this_node_id (peers_of config.this_node_id config.nodes)) {
    wal = lm.logs;
  }

  -- The file of the write-ahead log opens, and decodes to these logs.
  abbrev pub Recovers : LogManager → Type 0
  Recovers lm =
      (bytes : List ℕ) × (wal_file config.this_node_id ≡ some bytes) × (new_lm bytes ≡ some lm)
