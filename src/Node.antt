-- ===== src/Node.antt =====
-- repl/raft.go: the node around the state machine. Its run loop takes a proposal, a `Ready` or a
-- tick; the channels are the lists of what they hold, `sent` is what was handed to the transport
-- and `delivered` what was sent on `applyc`, in order. The WAL is the list of its logs (`Wal`
-- models the file).
pub mod Holds
pub mod Moves
pub mod Trusty
pub mod Votes
pub mod Backed
pub mod Deadlock
pub mod Delivery
pub mod Order
pub mod Saved
pub mod Persist
pub mod Panics
pub mod History
use harmony_db.Base.{
  ◌≡◌, ℕ, suc, ◌+◌, ◌-◌, Bool, true, false, ◌&&◌, not, Option, none, some, List, [], ◌∷◌, ◌++◌,
  length, ltb, ◌==◌, if◌then◌else◌,
}
use harmony_db.Proto.{Message, Log}
use harmony_db.Raft.Types.{Raft, Ready}
use harmony_db.Raft.Become.{new_raft}
use harmony_db.Raft.Step.{Stepped, step, tick, ready, advance}

pub record ToApply : Type 0 where
  pub entries : List Log
  pub commit_index : ℕ

pub record Node : Type 0 where
  pub members : List ℕ
  pub raft : Raft
  pub propc : List Message
  pub applyc : List ToApply
  pub tickc : ℕ
  pub wal : List Log
  pub sent : List Message
  pub delivered : List Log

-- The node that `bootstrapRaftNode` of repl/bootstrap.go builds for a cluster, connected to its peers.
unfoldable pub new_node : ℕ → List ℕ → Node
new_node id peers = record {
  members = peers;
  raft = new_raft id peers;
  propc = [];
  applyc = [];
  tickc = 0;
  wal = [];
  sent = [];
  delivered = [];
}

-- What one attempt at an iteration of the loop comes to.
pub data Outcome : Type 0 where
  went : Node → Outcome
  -- The case that was chosen cannot proceed yet.
  waits : Outcome
  -- The loop's own goroutine sends to the full `readyc` and stops for ever.
  deadlock : Outcome
  panic : Outcome

-- `Process` queues the message where there is room, and otherwise waits for its context to end.
unfoldable pub process : Message → Node → Node × Bool
process m n =
    if ltb (length n.propc) 256
    then (record n { propc = n.propc ++ (m ∷ []) }, true)
    else (n, false)

-- `Tick`; a tick that finds the channel full is dropped.
unfoldable pub tick_in : Node → Node
tick_in n = if ltb n.tickc 128 then record n { tickc = n.tickc + 1 } else n

unfoldable pub save_to_wal : List Log → List Log → List Log
save_to_wal [] wal = wal
save_to_wal (e ∷ es) wal = save_to_wal es (wal ++ (e ∷ []))

unfoldable pub is_member : ℕ → List ℕ → Bool
is_member id [] = false
is_member id (m ∷ ms) = if m == id then true else is_member id ms

-- The messages of `msgs` that go out: those with a destination among the members.
unfoldable pub send : List ℕ → List Message → List Message
unfolding is_member
send members [] = []
send members (m ∷ ms) =
    let rest = send members ms in
    if not (m.to == 0) && is_member m.to members then m ∷ rest else rest

unfoldable pub is_nonempty : List Log → Bool
is_nonempty [] = false
is_nonempty (e ∷ es) = true

-- The send on `applyc`, which has room for 256 values; `none` while it waits.
unfoldable pub hand_over : Ready → Node → Option Node
hand_over rd n =
    if is_nonempty rd.committed_entries
    then (if ltb (length n.applyc) 256
        then some (record n {
          applyc =
              n.applyc
              ++ (record {
                entries = rd.committed_entries;
                commit_index = rd.hard_state.last_commit_index;
              }
                  ∷ []);
          delivered = n.delivered ++ rd.committed_entries;
        })
        else none)
    else some n

-- `Advance` once everything of the `Ready` is handed on.
unfoldable pub finish : Option Node → Outcome
finish none = waits
finish (some n) = went (record n { raft = advance n.raft })

-- The body of the `Ready` case.
unfoldable pub process_ready : Ready → Node → Outcome
unfolding finish
process_ready rd n =
    let n1 : Node = record n {
      wal = save_to_wal rd.entries n.wal;
      sent = n.sent ++ (send n.members rd.messages ++ send n.members rd.messages_after_append);
    } in
    finish (hand_over rd n1)

-- An error of `Step` is logged and dropped.
unfoldable pub after_step : Stepped → Node → Outcome
after_step none n = panic
after_step (some (r, e)) n = went (record n { raft = r })

unfoldable pub after_tick : Option Raft → Node → Outcome
after_tick none n = panic
after_tick (some r) n = went (record n { raft = r })

pub data Choice : Type 0 where
  take_message take_ready take_tick take_default : Choice

unfoldable pub on_message : List Message → Node → Outcome
unfolding after_step
on_message [] n = waits
on_message (m ∷ ms) n = after_step (step m n.raft) (record n { propc = ms })

unfoldable pub on_ready : Option Ready → Node → Outcome
on_ready none n = waits
on_ready (some rd) n = process_ready rd (record n { raft = record n.raft { readyc = none } })

unfoldable pub on_tick : ℕ → Node → Outcome
unfolding after_tick
on_tick ℕ.zero n = waits
on_tick (suc k) n = after_tick (tick n.raft) (record n { tickc = k })

unfoldable pub is_idle : List Message → Option Ready → ℕ → Bool
is_idle [] none ticks = ticks == 0
is_idle _ _ ticks = false

-- `default` runs only if no channel is ready.
unfoldable pub on_default : Node → Outcome
on_default n = if is_idle n.propc n.raft.readyc n.tickc then went n else waits

unfoldable pub choose : Choice → Node → Outcome
unfolding on_message on_ready on_tick on_default
choose take_message n = on_message n.propc n
choose take_ready n = on_ready n.raft.readyc n
choose take_tick n = on_tick n.tickc n
choose take_default n = on_default n

unfoldable pub evaluated : Choice → Node → Option Raft → Outcome
unfolding choose
evaluated c n none = deadlock
evaluated c n (some r) = choose c (record n { raft = r })

-- One iteration: `select` first evaluates its channels, so `Ready` is called whichever case is taken.
unfoldable pub iterate : Choice → Node → Outcome
unfolding evaluated
iterate c n = evaluated c n (ready n.raft)

-- What can happen to a node: a message or a tick comes in, the loop goes round once, or the
-- database takes a value from `applyc`.
pub data NodeStep : Node → Node → Type 0 where
  propose : {n : Node} (m : Message) → NodeStep n (process m n).0
  clock : {n : Node} → NodeStep n (tick_in n)
  loop : {n n' : Node} (c : Choice) → iterate c n ≡ went n' → NodeStep n n'
  apply :
      {n : Node} {a : ToApply} {rest : List ToApply}
      → n.applyc ≡ a ∷ rest
      → NodeStep n (record n { applyc = rest })

pub data Reach (n : Node) : Node → Type 0 where
  here : Reach n n
  next : {m k : Node} → Reach n m → NodeStep m k → Reach n k
