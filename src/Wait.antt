-- ===== src/Wait.antt =====
-- wait.go: the waiters of the write path. A channel is its number; `closed` lists those that were
-- closed. The lock is left out: both methods hold it for their whole run.
pub mod Wakes
pub mod Several
use harmony_db.Base.{
  ℕ, ◌+◌, ◌≡◌, Bool, true, false, Option, none, some, List, [], ◌∷◌, ◌==◌, if◌then◌else◌, ◌>>=◌,
}
use harmony_db.Base.Maps
use harmony_db.Base.Maps.{Map}

pub record Waiter : Type 0 where
  pub chans : Map ℕ
  pub next_chan : ℕ
  pub closed : List ℕ

abbrev pub new_waiter : Waiter
new_waiter = record { chans = []; next_chan = 0; closed = [] }

unfoldable pub is_closed : ℕ → List ℕ → Bool
is_closed ch [] = false
is_closed ch (c ∷ cs) = if c == ch then true else is_closed ch cs

-- Closing a closed channel panics.
unfoldable pub close : ℕ → Waiter → Option Waiter
close ch w = if is_closed ch w.closed then none else some (record w { closed = ch ∷ w.closed })

unfoldable pub trigger : ℕ → Waiter → Option Waiter
unfolding close
trigger id w = elim (Maps.get id w.chans) [
  | none ↦ some w
  | some ch ↦ do w1 ← close ch w; some (record w1 { chans = Maps.remove id w1.chans })
]

unfoldable pub register : ℕ → Waiter → ℕ × Waiter
register id w = elim (Maps.get id w.chans) [
  | some ch ↦ (ch, w)
  | none ↦ (
    w.next_chan,
    record w { chans = Maps.put id w.next_chan w.chans; next_chan = w.next_chan + 1 },
  )
]

-- What can happen to a waiter.
pub data WaitStep : Waiter → Waiter → Type 0 where
  registering : {w : Waiter} (id : ℕ) → WaitStep w (register id w).1
  triggering : {w w' : Waiter} (id : ℕ) → trigger id w ≡ some w' → WaitStep w w'

pub data Reach (w : Waiter) : Waiter → Type 0 where
  here : Reach w w
  next : {v u : Waiter} → Reach w v → WaitStep v u → Reach w u
