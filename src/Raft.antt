-- ===== src/Raft.antt =====
-- The pure state machine of repl/sm.go, one child for each group of its methods, and the children
-- with the theorems.
pub mod Types
pub mod Become
pub mod Append
pub mod Vote
pub mod Step
pub mod Silent
pub mod Quiet
pub mod Sends
pub mod Ballot
pub mod Election
pub mod Fair
pub mod Tally
pub mod Polls
pub mod Turns
pub mod Growth
pub mod Replication
pub mod Monotone
pub mod Commit
pub mod Total
