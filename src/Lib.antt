-- ===== src/Lib.antt =====
-- HarmonyDB: a replicated key-value store. Clients put and get keys at a node; a raft group orders
-- the puts; a write-ahead log and a B+ tree keep them.
--
-- The parts, and the files that model them:
--   Proto          the messages (repl/proto/repl/raft.pb.go)
--   RaftLog        the raft log in memory, `raftLog` (repl/log.go)
--   Raft           the state machine `Raft` (repl/sm.go): Types its state and the responses, Become
--                  the transitions and the election, Append log replication and the commit rule,
--                  Vote the votes, Step the methods Step, Tick, Ready and Advance
--   Node           the node around it, `Node` (repl/raft.go), with its run loop and channels
--   Bootstrap      the node that a configuration makes (repl/bootstrap.go)
--   Cluster        the nodes of a cluster and the messages between them (repl/raft.go)
--   Bytes, Wal     the write-ahead log (wal/wal.go), and its codec in Wal/Codec
--   Tree           the pages of the B+ tree (node.go) in Page, their bytes in Codec, and the tree
--                  (btree.go) in Store; Routing has the way of a search through a page
--   PageFile       the page file and its cache (storage.go), and in Stored what btree.go does with
--                  it: opening a tree, loading pages, and the metadata file
--   Generator      the ids of requests (generator.go)
--   Replay         the replay of the write-ahead log into the tree at a start (replay.go)
--   Wait, WaitTime the waiters of the write and the read path (wait.go, wait_time.go)
--   Scheduler      the queue of jobs (scheduler/scheduler.go)
--   Database       the database of a node (db.go): the jobs that apply committed entries, Put and Get
--   Api            the HTTP handlers (api/server.go) over the database
--   Logging        the debug filter of the logger (logger.go), over a core of zap
--   Examples       the models at concrete inputs
-- The other modules below these hold proofs. A node's loop calls the methods of the state machine,
-- which call those of the raft log. `Node` keeps its write-ahead log as the list of the logs that
-- it appended; `Wal` models the file that this list goes to. `Database` joins the tree, the waiters,
-- the scheduler's jobs and the ids, and proposes to `Node`; `Api` calls it through an interface. The
-- database keeps its tree in memory; `PageFile.Stored` is that tree with the file below it.
--
-- Functions carry the source's names in snake case; a method of several branches has a helper for
-- each part, named for what it does. What a method changes is returned. `none` is a Go panic; of
-- `ready` it is the send to the full channel, which blocks for ever.
--
-- Numbers. Terms, ids and indices are int64 in the source and natural numbers here: negative values
-- and overflow at 2^63 are outside the model. Conversions to uint16 and uint32, and the words of
-- the files and request ids, are reduced as the source does. Strings are lists of bytes.
-- Maps are association lists, walked in their order; Go's order is random, and no theorem here
-- depends on it. Function values (`step`, `tick`) are tags. `readyc` is what its one-slot buffer
-- holds. A run of a node is any sequence of incoming messages, ticks, iterations with any choice of
-- the ready cases, and receives on `applyc`. Sends over the network are recorded in order. A run of
-- one node takes any incoming message; in a run of a cluster a message with a vote is one that
-- another node has sent, and it may come late, often or never.
--
-- Fuel. `decode_loop` gets one round more than there are bytes, which is enough for any bytes;
-- `bisect` gets one round more than the page has offsets, which is enough on sorted pages. The
-- loops over index ranges get the number of their rounds. `put` and `get` of the tree take a bound
-- on its depth.
--
-- Not modelled: serialisation by protobuf, gRPC, JSON, starting the servers (api, cmd), the
-- set-up of the loggers, reading configuration files, and mocks; locks, timers and contexts; writes
-- and reads that the system refuses; a restart of a node inside a cluster.
pub mod Base
pub mod Proto
pub mod RaftLog
pub mod Raft
pub mod Node
pub mod Bootstrap
pub mod Cluster
pub mod Bytes
pub mod Wal
pub mod Tree
pub mod PageFile
pub mod Generator
pub mod Wait
pub mod WaitTime
pub mod Scheduler
pub mod Replay
pub mod Database
pub mod Api
pub mod Logging
pub mod Examples
