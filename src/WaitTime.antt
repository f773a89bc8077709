-- ===== src/WaitTime.antt =====
-- wait_time.go: the waiters of the read path, by the index that they wait for. A channel is its
-- number; channel 0 is `closec`, which is closed from the start. The lock is left out.
pub mod Shut
pub mod Wakes
use harmony_db.Base.{
  ℕ, ◌+◌, ◌≡◌, true, false, Option, none, some, List, [], ◌∷◌, leb, if◌then◌else◌, ◌>>=◌,
}
use harmony_db.Base.Maps
use harmony_db.Base.Maps.{Map}
use harmony_db.Wait.{is_closed}

pub record WaitTime : Type 0 where
  pub last_triggered : ℕ
  pub m : Map ℕ
  pub next_chan : ℕ
  pub closed : List ℕ

abbrev pub new_wait_time : WaitTime
new_wait_time = record { last_triggered = 0; m = []; next_chan = 1; closed = 0 ∷ [] }

-- The channel to wait on.
unfoldable pub wait : ℕ → WaitTime → ℕ × WaitTime
wait deadline w = if leb deadline w.last_triggered then (0, w) else (elim (Maps.get deadline w.m) [
  | some ch ↦ (ch, w)
  | none ↦
      (w.next_chan, record w { m = Maps.put deadline w.next_chan w.m; next_chan = w.next_chan + 1 })
])

-- Closing a closed channel panics.
unfoldable pub close_chan : ℕ → List ℕ → Option (List ℕ)
close_chan ch closed = if is_closed ch closed then none else some (ch ∷ closed)

-- The loop of `Trigger` over the pairs of the map: what is left of them, and the closed channels.
unfoldable pub wake : ℕ → Map ℕ → List ℕ → Option (Map ℕ × List ℕ)
unfolding close_chan
wake limit [] closed = some ([], closed)
wake limit ((deadline, ch) ∷ m) closed = elim (leb deadline limit) [
  | true ↦ close_chan ch closed >>= λ closed1. wake limit m closed1
  | false ↦ wake limit m closed >>= λ r. some ((deadline, ch) ∷ r.0, r.1)
]

unfoldable pub trigger : ℕ → WaitTime → Option WaitTime
unfolding wake
trigger limit w = wake limit w.m w.closed >>= λ r.
    some (record w { last_triggered = limit; m = r.0; closed = r.1 })

pub data WaitStep : WaitTime → WaitTime → Type 0 where
  waiting : {w : WaitTime} (deadline : ℕ) → WaitStep w (wait deadline w).1
  triggering : {w w' : WaitTime} (limit : ℕ) → trigger limit w ≡ some w' → WaitStep w w'

pub data Reach (w : WaitTime) : WaitTime → Type 0 where
  here : Reach w w
  next : {v u : WaitTime} → Reach w v → WaitStep v u → Reach w u
