-- ===== src/Replay/Range.antt =====
-- Which entries a replay applies (replay.go).
use harmony_db.Base.{
  ℕ, zero, suc, ◌+◌, ◌-◌, ◌<◌, ◌≡◌, refl, true, false, Option, some, List, [], ◌∷◌, ltb, leb,
  bind_cong, arith, Bool-cases, inl, inr, ◌>>=◌, drop, length, subst, sym, ◌∙◌, ap, none,
  Option-cases, if◌then◌else◌,
}
use harmony_db.Proto.{Log, Cmd}
use harmony_db.Tree.Page.{bytes_equal}
use harmony_db.RaftLog.Sequential.{CountsFrom}
use harmony_db.Wal.{LogManager, get_logs_after}
use harmony_db.Wal.Indexing.{with_ids_from, with_ids_to, to_none, get_logs_after_by_id}
use harmony_db.Tree.Store.{BTree, put}
use harmony_db.Replay.{Meta, apply_entry, replay_loop, new_meta, replay_wal}

-- All the entries applied in order, and the number of those that are a put.
unfoldable pub apply_all : ℕ → List Log → BTree × ℕ → Option (BTree × ℕ)
apply_all depth [] now = some now
apply_all depth (e ∷ es) now = apply_entry depth e.cmd now >>= λ after. apply_all depth es after

CountsFrom-drop : (i k : ℕ) (ls : List Log) → CountsFrom i ls → CountsFrom (i + k) (drop k ls)
CountsFrom-drop i zero ls h = let e : i ≡ i + 0 = omega arith in subst (λ j. CountsFrom j ls) e h
CountsFrom-drop i (suc k) [] h = tt
CountsFrom-drop i (suc k) (l ∷ ls) h =
    let e : suc i + k ≡ i + suc k = omega arith in
    subst (λ j. CountsFrom j (drop k ls)) e (CountsFrom-drop (suc i) k ls h.1)

loop-apply_all :
    (depth commit i : ℕ) (es : List Log) (now : BTree × ℕ)
    → CountsFrom i es
    → replay_loop depth commit es now ≡ apply_all depth (with_ids_to commit es) now
unfolding replay_loop apply_all with_ids_to
loop-apply_all depth commit i [] now h = refl
loop-apply_all depth commit i (e ∷ es) now h = elim (Bool-cases (ltb commit e.id)) [
  | inl past ↦
      let none_left : with_ids_to commit (e ∷ es) ≡ [] =
        to_none i commit (e ∷ es) h (ground (arith, h.0)) in
      rw (past, replay_loop, none_left, apply_all) refl
  | inr within ↦
      let kept : leb e.id commit ≡ true = ground arith in
      rw (within, replay_loop, kept, with_ids_to, apply_all)
        (bind_cong (apply_entry depth e.cmd now) _ _
          (λ after. loop-apply_all depth commit (suc i) es after h.1))
]

after_counts :
    (lm : LogManager) (applied : ℕ)
    → CountsFrom 1 lm.logs
    → CountsFrom (1 + applied) (get_logs_after (applied + 1) lm)
unfolding get_logs_after
after_counts lm applied h = elim (Bool-cases (leb (length lm.logs) (applied + 1 - 1))) [
  | inl e ↦ rw (e, get_logs_after) tt
  | inr e ↦
      let p : applied + 1 - 1 ≡ applied = omega arith in
      rw (e, get_logs_after, p) (CountsFrom-drop 1 applied lm.logs h)
]

-- The commands of the entries whose operation is "PUT", and their puts into a tree one after the
-- other.
abbrev pub put_text : List ℕ
put_text = 80 ∷ 85 ∷ 84 ∷ []

abbrev pub with_put : Option Cmd → List Cmd → List Cmd
with_put none cs = cs
with_put (some c) cs = if bytes_equal c.op put_text then c ∷ cs else cs

abbrev pub client_puts : List Log → List Cmd
client_puts [] = []
client_puts (e ∷ es) = with_put e.cmd (client_puts es)

abbrev pub put_each : ℕ → List Cmd → BTree → Option BTree
put_each depth [] b = some b
put_each depth (c ∷ cs) b = put depth c.key c.value b >>= λ b1. put_each depth cs b1

counted : ℕ → Option BTree → List Cmd → Option (BTree × ℕ)
counted n o cs = o >>= λ b1. some (b1, n + length cs)

entry_put :
    (depth : ℕ) (c : Cmd) (b : BTree) (n : ℕ)
    → bytes_equal c.op put_text ≡ true
    → apply_entry depth (some c) (b, n) ≡ (put depth c.key c.value b >>= λ b1. some (b1, n + 1))
unfolding apply_entry
entry_put depth c b n h = rw h refl

entry_other :
    (depth : ℕ) (c : Cmd) (b : BTree) (n : ℕ)
    → bytes_equal c.op put_text ≡ false
    → apply_entry depth (some c) (b, n) ≡ some (b, n)
unfolding apply_entry
entry_other depth c b n h = rw h refl

entry_first :
    (depth : ℕ) (o : Option Cmd) (es : List Log) (cs : List Cmd)
    → ((b : BTree) (n : ℕ) → apply_all depth es (b, n) ≡ counted n (put_each depth cs b) cs)
    → (b : BTree) (n : ℕ)
    → (apply_entry depth o (b, n) >>= λ after. apply_all depth es after)
      ≡ counted n (put_each depth (with_put o cs) b) (with_put o cs)
entry_first depth none es cs ih b n = unfold apply_entry in ih b n
entry_first depth (some c) es cs ih b n = elim (Bool-cases (bytes_equal c.op put_text)) [
  | inr other ↦ rw (other, entry_other depth c b n other) (ih b n)
  | inl put_it ↦ elim (Option-cases (put depth c.key c.value b)) [
    | inl panics ↦ rw (put_it, entry_put depth c b n put_it, panics) (unfold counted in refl)
    | inr (b1, done) ↦
        let count : n + 1 + length cs ≡ n + suc (length cs) = omega arith in
        rw (put_it, entry_put depth c b n put_it, done)
          (ih b1 (n + 1)
            ∙ (unfold counted in ap (λ m. put_each depth cs b1 >>= λ b2. some (b2, m)) count))
  ]
]

apply_all-counted :
    (depth : ℕ) (es : List Log) (b : BTree) (n : ℕ)
    → apply_all depth es (b, n) ≡ counted n (put_each depth (client_puts es) b) (client_puts es)
unfolding apply_all
apply_all-counted depth [] b n = unfold counted in ap (λ x. some (b, x)) (omega arith)
apply_all-counted depth (e ∷ es) b n =
    entry_first depth e.cmd es (client_puts es) (apply_all-counted depth es) b n

moved_on :
    (meta : Meta) (n : ℕ) → new_meta meta n ≡ record meta { last_applied = meta.last_applied + n }
unfolding new_meta
moved_on meta n = elim (Bool-cases (ltb 0 n)) [
  | inl e ↦ rw e refl
  | inr e ↦ rw e (ap (λ x. record meta { last_applied = x }) (ground (arith, e)))
]

-- The tree, and the last applied index moved on by `n`.
abbrev pub moved : Meta → ℕ → BTree → BTree × Meta
moved meta n b = (b, record meta { last_applied = meta.last_applied + n })

abbrev counted_meta : Meta → BTree × ℕ → BTree × Meta
counted_meta meta after = (after.0, new_meta meta after.1)

moved_all :
    (meta : Meta) (o : Option BTree) (cs : List Cmd)
    → (counted 0 o cs >>= λ after. some (counted_meta meta after))
      ≡ (o >>= λ b1. some (moved meta (length cs) b1))
unfolding counted
moved_all meta none cs = refl
moved_all meta (some b1) cs =
    let count : 0 + length cs ≡ length cs = omega arith in
    rw count (ap (λ m. some (b1, m)) (moved_on meta (length cs)))

to_counts : (commit i : ℕ) (es : List Log) → CountsFrom i es → CountsFrom i (with_ids_to commit es)
unfolding with_ids_to
to_counts commit i [] h = tt
to_counts commit i (e ∷ es) h = elim (Bool-cases (leb e.id commit)) [
  | inl kept ↦ rw (kept, with_ids_to) (h.0, to_counts commit (suc i) es h.1)
  | inr gone ↦
      let none_left : with_ids_to commit (e ∷ es) ≡ [] =
        to_none i commit (e ∷ es) h (ground (arith, h.0, gone)) in
      subst (CountsFrom i) (sym none_left) tt
]

-- The entries that the metadata says are committed and not applied.
abbrev pub unapplied : Meta → LogManager → List Log
unapplied meta lm = with_ids_to meta.last_commit (with_ids_from (meta.last_applied + 1) lm.logs)

-- On a write-ahead log with ids from 1, and metadata that is behind its commit index, a replay puts
-- exactly the commands with the operation "PUT" of the entries with an id above the last applied one
-- and up to the commit index, in order, or panics where one of these puts does; it moves the last
-- applied index on by their number and leaves the commit index.
pub replay_wal-range :
    (depth : ℕ) (b : BTree) (meta : Meta) (lm : LogManager)
    → CountsFrom 1 lm.logs
    → meta.last_applied < meta.last_commit
    → replay_wal depth b meta lm ≡ (
        put_each depth (client_puts (unapplied meta lm)) b >>= λ b1.
        some (moved meta (length (client_puts (unapplied meta lm))) b1))
unfolding replay_wal
replay_wal-range depth b meta lm h behind =
    let go_on : leb meta.last_commit meta.last_applied ≡ false = ground arith in
    let loop =
      loop-apply_all depth meta.last_commit (1 + meta.last_applied)
        (get_logs_after (meta.last_applied + 1) lm) (b, 0) (after_counts lm meta.last_applied h) in
    let es = unapplied meta lm in
    rw (go_on, replay_wal, loop, get_logs_after_by_id lm h (meta.last_applied + 1))
      (rw (apply_all-counted depth es b 0)
        (moved_all meta (put_each depth (client_puts es) b) (client_puts es)))

-- The ids of these entries count from the one behind the last applied index.
pub unapplied_counts :
    (meta : Meta) (lm : LogManager)
    → CountsFrom 1 lm.logs
    → CountsFrom (1 + meta.last_applied) (unapplied meta lm)
unapplied_counts meta lm h =
    let a = after_counts lm meta.last_applied h in
    to_counts meta.last_commit (1 + meta.last_applied) _ (
      subst (CountsFrom (1 + meta.last_applied)) (get_logs_after_by_id lm h (meta.last_applied + 1))
        a)
