-- ===== src/Node/Moves.antt =====
-- The cases of the run loop of repl/raft.go that take a message or a tick: they only step the state
-- machine.
use harmony_db.Base.{ℕ, zero, suc, ◌≡◌, refl, Option, none, some, List, [], ◌∷◌, Ensures}
use harmony_db.Proto.{Message}
use harmony_db.Raft.Types.{Raft}
use harmony_db.Raft.Step.{Stepped, step, tick}
use harmony_db.Raft.Growth.{Grows}
use harmony_db.Raft.Replication.{GrowsStep}
use harmony_db.Raft.Monotone.{step-Grows, tick-Grows}
use harmony_db.Node.{Node, after_step, after_tick, on_message, on_tick}
use harmony_db.Node.Holds.{Holds, Holds-went, Holds-waits}

pub record Moves (n n' : Node) : Type 0 where
  pub grows : Grows n.raft n'.raft
  pub delivered_same : n'.delivered ≡ n.delivered
  pub wal_same : n'.wal ≡ n.wal

-- What every such move gives holds after the case.
module _ (P : Node → Type 0) (n : Node) (moved : (n' : Node) → Moves n n' → P n') where
  after_step-Holds :
      (ms : List Message) (s : Stepped)
      → Ensures (GrowsStep n.raft) s
      → Holds P (after_step s (record n { propc = ms }))
  unfolding after_step
  after_step-Holds ms none k = record { at = λ x e. cc }
  after_step-Holds ms (some (r, x)) k =
      Holds-went P _
        (moved _ (record { grows = k.at (r, x) refl; delivered_same = refl; wal_same = refl }))

  pub on_message-Holds : (ms : List Message) → Holds P (on_message ms n)
  unfolding on_message
  on_message-Holds [] = Holds-waits P
  on_message-Holds (m ∷ ms) = after_step-Holds ms (step m n.raft) (step-Grows m n.raft)

  after_tick-Holds :
      (k : ℕ) (o : Option Raft)
      → Ensures (Grows n.raft) o
      → Holds P (after_tick o (record n { tickc = k }))
  unfolding after_tick
  after_tick-Holds k none q = record { at = λ x e. cc }
  after_tick-Holds k (some r) q =
      Holds-went P _
        (moved _ (record { grows = q.at r refl; delivered_same = refl; wal_same = refl }))

  pub on_tick-Holds : (ticks : ℕ) → Holds P (on_tick ticks n)
  unfolding on_tick
  on_tick-Holds zero = Holds-waits P
  on_tick-Holds (suc k) = after_tick-Holds k (tick n.raft) (tick-Grows n.raft)
