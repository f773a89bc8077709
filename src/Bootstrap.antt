-- ===== src/Bootstrap.antt =====
-- repl/bootstrap.go: the node that is made of a configuration file. The reading of the file is a
-- parameter, `none` for its error, and so are whether an address can be dialled, whether it can be
-- listened on, and what the file of the write-ahead log of a node holds, `none` if its directory
-- cannot be made or the file cannot be opened. No options are given, as in `NewRaftNode`.
pub mod Boots
use harmony_db.Base.{
  ℕ, Bool, true, false, Option, none, some, List, [], ◌∷◌, ◌==◌, if◌then◌else◌, ◌>>=◌,
}
use harmony_db.Wal.{LogManager, new_lm}
use harmony_db.Node.{Node, new_node}

pub record NodeInfo : Type 0 where
  pub id : ℕ
  pub address : List ℕ

pub record ClusterConfig : Type 0 where
  pub nodes : List NodeInfo
  pub this_node_id : ℕ

pub data BootError : Type 0 where
  failed_to_load_config failed_to_start : BootError
  node_not_found failed_to_connect : ℕ → BootError

pub data Booted : Type 0 where
  running : Node → Booted
  refused : BootError → Booted
  panicked : Booted

-- The loop that looks for the node's own address; it stays empty if there is none.
unfoldable pub address_of : ℕ → List NodeInfo → List ℕ
address_of this [] = []
address_of this (info ∷ infos) = if info.id == this then info.address else address_of this infos

unfoldable pub peers_of : ℕ → List NodeInfo → List ℕ
peers_of this [] = []
peers_of this (info ∷ infos) =
    let rest = peers_of this infos in if info.id == this then rest else info.id ∷ rest

-- The first other node that cannot be dialled.
unfoldable pub connect : (List ℕ → Bool) → ℕ → List NodeInfo → Option ℕ
connect dials this [] = none
connect dials this (peer ∷ infos) =
    let rest = connect dials this infos in
    if peer.id == this then rest else if dials peer.address then rest else some peer.id

unfoldable pub started : Bool → Node → Booted
started true n = running n
started false n = refused failed_to_start

unfoldable pub connected : Option ℕ → Bool → Node → Booted
unfolding started
connected none listens n = started listens n
connected (some id) listens n = refused (failed_to_connect id)

-- `NewLM` at the node's path, and then the rest with the logs that it recovered.
unfoldable pub with_wal : (List ℕ → Bool) → ClusterConfig → Bool → Option LogManager → Booted
unfolding connected
with_wal dials config listens none = panicked
with_wal dials config listens (some lm) =
    connected (connect dials config.this_node_id config.nodes) listens
      (record (new_node config.this_node_id (peers_of config.this_node_id config.nodes)) {
        wal = lm.logs;
      })

unfoldable pub with_address :
    (List ℕ → Bool) → (List ℕ → Bool) → (ℕ → Option (List ℕ)) → List ℕ → ClusterConfig → Booted
unfolding with_wal
with_address dials listens wal_file [] config = refused (node_not_found config.this_node_id)
with_address dials listens wal_file (b ∷ bs) config =
    with_wal dials config (listens (b ∷ bs)) (wal_file config.this_node_id >>= new_lm)

unfoldable pub bootstrap_raft_node :
    (List ℕ → Bool) → (List ℕ → Bool) → (ℕ → Option (List ℕ)) → Option ClusterConfig → Booted
unfolding with_address
bootstrap_raft_node dials listens wal_file none = refused failed_to_load_config
bootstrap_raft_node dials listens wal_file (some config) =
    with_address dials listens wal_file (address_of config.this_node_id config.nodes) config
