-- ===== src/RaftLog.antt =====
-- repl/log.go: the in-memory raft log. The unused entry at index 0 is left out, so that
-- `len(l.entries)` is one more than the length here, and the entry at index i ≥ 1 is the one at
-- place i - 1.
pub mod Sequential
use harmony_db.Base.{
  ℕ, zero, suc, ◌+◌, ◌-◌, Bool, true, false, ◌&&◌, ◌||◌, Option, none, some, List, [], ◌∷◌, ◌++◌,
  ltb, leb, ◌==◌, if◌then◌else◌, length, get_elem?, get_last?, ◌>>=◌,
}
use harmony_db.Proto.{Log}

pub record RaftLog : Type 0 where
  pub entries : List Log
  pub commit_index : ℕ
  pub last_applied : ℕ
  pub stable_index : ℕ

abbrev pub new_raft_log : RaftLog
new_raft_log = record { entries = []; commit_index = 0; last_applied = 0; stable_index = 0 }

last_id : Option Log → ℕ
last_id none = 0
last_id (some e) = e.id

unfoldable pub last_index : RaftLog → ℕ
unfolding last_id
last_index l = last_id (get_last? l.entries)

last_term_of : Option Log → ℕ
last_term_of none = 0
last_term_of (some e) = e.term

unfoldable pub last_term : RaftLog → ℕ
unfolding last_term_of
last_term l = last_term_of (get_last? l.entries)

unfoldable pub append : RaftLog → List Log → RaftLog
append l [] = l
append l (e ∷ es) = record l { entries = l.entries ++ (e ∷ es) }

-- `l.entries[i]` for an index that the caller has shown to be at least 1; `none` is the panic.
unfoldable pub entry : RaftLog → ℕ → Option Log
entry l i = get_elem? l.entries (i - 1)

-- `none` where the access `l.entries[i]` panics.
unfoldable pub term : RaftLog → ℕ → Option ℕ
unfolding entry
term l i = if i == 0 || ltb (last_index l) i then some 0 else do e ← entry l i; some e.term

-- The loop `for i := from; i <= till; i++` that collects the entries with `int(i) < len(l.entries)`,
-- by the number of rounds left.
unfoldable pub cons_some : Option Log → List Log → List Log
cons_some none es = es
cons_some (some e) es = e ∷ es

unfoldable pub collect : List Log → ℕ → ℕ → List Log
unfolding cons_some
collect es zero i = []
collect es (suc rounds) i = cons_some (get_elem? es (i - 1)) (collect es rounds (i + 1))

unfoldable pub committed_entries : RaftLog → List Log
committed_entries l =
    if leb l.commit_index l.last_applied
    then []
    else collect l.entries (l.commit_index - l.last_applied) (l.last_applied + 1)

unfoldable pub volatile_entries : RaftLog → List Log
volatile_entries l =
    if leb (last_index l) l.stable_index
    then []
    else collect l.entries (last_index l - l.stable_index) (l.stable_index + 1)

unfoldable pub maybe_commit : RaftLog → ℕ → RaftLog × Bool
maybe_commit l index =
    if ltb l.commit_index index && leb index (last_index l)
    then (record l { commit_index = index }, true)
    else (l, false)

unfoldable pub mark_applied_till : RaftLog → ℕ → RaftLog
mark_applied_till l index =
    if ltb l.last_applied index then record l { last_applied = index } else l

unfoldable pub mark_stable_till : RaftLog → ℕ → RaftLog
mark_stable_till l index =
    if ltb l.stable_index index && leb index (last_index l)
    then record l { stable_index = index }
    else l
