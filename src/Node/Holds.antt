-- ===== src/Node/Holds.antt =====
-- Properties of the run loop's outcomes (repl/raft.go).
use harmony_db.Base.{◌≡◌, subst}
use harmony_db.Node.{Node, Outcome, went, waits}

-- `P` holds of the node after the iteration, if it ends.
pub record Holds (P : Node → Type 0) (o : Outcome) : Type 0 where
  pub at : (n : Node) → o ≡ went n → P n

module _ (P : Node → Type 0) where
  pub Holds-went : (n : Node) → P n → Holds P (went n)
  Holds-went n p = record { at = λ m e. subst P (cc) p }

  pub Holds-waits : Holds P waits
  Holds-waits = record { at = λ m e. cc }
