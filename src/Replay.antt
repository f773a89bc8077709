-- ===== src/Replay.antt =====
-- replay.go: what a start does with the write-ahead log. The metadata file of btree.go is the record
-- of the two numbers that `readMeta` returns; `put` gets the bound on the tree's depth.
pub mod Range
use harmony_db.Base.{
  ℕ, zero, suc, ◌+◌, Bool, true, false, Option, none, some, List, [], ◌∷◌, ltb, leb, if◌then◌else◌,
  ◌>>=◌,
}
use harmony_db.Proto.{Log, Cmd}
use harmony_db.Wal.{LogManager, get_logs_after}
use harmony_db.Tree.Page.{bytes_equal}
use harmony_db.Tree.Store.{BTree, put}

pub record Meta : Type 0 where
  pub last_commit : ℕ
  pub last_applied : ℕ

-- `cmd.GetOp()` is `"PUT"`.
unfoldable pub is_put : Cmd → Bool
is_put c = bytes_equal c.op (80 ∷ 85 ∷ 84 ∷ [])

-- The body of the loop behind the `break`: the tree, and the number of applied entries.
unfoldable pub apply_entry : ℕ → Option Cmd → BTree × ℕ → Option (BTree × ℕ)
unfolding is_put
apply_entry depth none now = some now
apply_entry depth (some c) now =
    if is_put c then (put depth c.key c.value now.0 >>= λ b. some (b, now.1 + 1)) else some now

unfoldable pub replay_loop : ℕ → ℕ → List Log → BTree × ℕ → Option (BTree × ℕ)
unfolding apply_entry
replay_loop depth commit [] now = some now
replay_loop depth commit (e ∷ es) now = elim (ltb commit e.id) [
  | true ↦ some now
  | false ↦ apply_entry depth e.cmd now >>= λ after. replay_loop depth commit es after
]

-- `updateMeta` if any entry was applied.
unfoldable pub new_meta : Meta → ℕ → Meta
new_meta meta applied =
    if ltb 0 applied then record meta { last_applied = meta.last_applied + applied } else meta

unfoldable pub replay_wal : ℕ → BTree → Meta → LogManager → Option (BTree × Meta)
unfolding replay_loop new_meta
replay_wal depth b meta lm =
    if leb meta.last_commit meta.last_applied
    then some (b, meta)
    else (replay_loop depth meta.last_commit (get_logs_after (meta.last_applied + 1) lm) (b, 0)
        >>= λ after. some (after.0, new_meta meta after.1))
