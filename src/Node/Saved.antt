-- ===== src/Node/Saved.antt =====
-- What the `Ready` values of repl/raft.go hold of the entries that are not in the WAL yet, and what is
-- in it once the loop has written them.
use mathlib.Core.List.{append-nil, append_assoc}
use harmony_db.Base.{
  [], ◌∷◌, ◌++◌, ℕ, ◌-◌, ◌≤◌, ◌≡◌, sym, ◌∙◌, false, Option, none, some, List, arith, Ensures,
  Ensures-some, Ensures-none, Ensures-if, length, length-append, take, drop, take-append,
  take_of_length-le, length-drop,
}
use harmony_db.Proto.{Log}
use harmony_db.RaftLog.{RaftLog, mark_stable_till, mark_applied_till}
use harmony_db.RaftLog.Sequential.{IsSequential, last_index-eq-length, volatile_entries-slice}
use harmony_db.Raft.Types.{Raft, Ready}
use harmony_db.Raft.Step.{ready, report, has_ready, make_ready, advance}
use harmony_db.Raft.Growth.{Grows}
use harmony_db.Node.{Node, save_to_wal}
use harmony_db.Node.Delivery.{IsBounded, drop-append-take, advance_applied, advance_rest}

-- A `Ready` holds entries from behind the persisted ones.
pub record IsPending (l : RaftLog) (rd : Ready) : Type 0 where
  pub till : ℕ
  pub from_stable : l.stable_index ≤ till
  pub to_end : till ≤ length l.entries
  pub slice : rd.entries ≡ take (till - l.stable_index) (drop l.stable_index l.entries)

-- Between two iterations: the file has the log up to the stable index, which covers what is applied.
pub record IsSaved (n : Node) : Type 0 where
  pub wal : n.wal ≡ take n.raft.raft_log.stable_index n.raft.raft_log.entries
  pub applied_le : n.raft.raft_log.last_applied ≤ n.raft.raft_log.stable_index
  pub stable_le : n.raft.raft_log.stable_index ≤ length n.raft.raft_log.entries
  pub buffer : (rd : Ready) → n.raft.readyc ≡ some rd → IsPending n.raft.raft_log rd

-- All that is not persisted.
abbrev pub rest : RaftLog → List Log
rest l = take (length l.entries - l.stable_index) (drop l.stable_index l.entries)

-- After the call of `Ready` a buffered value has all that is not persisted.
pub record IsWhole (n : Node) : Type 0 where
  pub saved : IsSaved n
  pub sequential : IsSequential n.raft.raft_log
  pub whole : (rd : Ready) → n.raft.readyc ≡ some rd → rd.entries ≡ rest n.raft.raft_log

Grows-IsPending :
    (r r' : Raft) (rd : Ready) → Grows r r' → IsPending r.raft_log rd → IsPending r'.raft_log rd
Grows-IsPending r r' rd g h = record {
  till = h.till;
  from_stable = rw g.stable h.from_stable;
  to_end = rw (g.entries, length-append r.raft_log.entries g.more) (omega (arith, h.to_end));
  slice =
      rw (g.entries, g.stable)
        (h.slice
          ∙ sym (
              drop-append-take r.raft_log.stable_index h.till r.raft_log.entries g.more h.to_end
                h.from_stable));
}

pub Grows-IsSaved : (n n' : Node) → Grows n.raft n'.raft → n'.wal ≡ n.wal → IsSaved n → IsSaved n'
Grows-IsSaved n n' g e h = record {
  wal =
      rw (e, g.entries, g.stable)
        (h.wal
          ∙ sym (
              take-append n.raft.raft_log.stable_index n.raft.raft_log.entries g.more h.stable_le));
  applied_le = rw (g.applied, g.stable) h.applied_le;
  stable_le =
      rw (g.stable, g.entries, length-append n.raft.raft_log.entries g.more)
        (omega (arith, h.stable_le));
  buffer = λ rd p. Grows-IsPending n.raft n'.raft rd g (h.buffer rd (sym g.buffered ∙ p));
}

volatile_entries-rest :
    (r : Raft) → IsSequential r.raft_log → (make_ready r).entries ≡ rest r.raft_log
unfolding make_ready
volatile_entries-rest r s =
    let l = r.raft_log in
    volatile_entries-slice l s
    ∙ sym (
        take_of_length-le (length l.entries - l.stable_index) (drop l.stable_index l.entries)
          (omega (arith, length-drop l.stable_index l.entries)))

abbrev pub WholeWith : Node → Raft → Type 0
WholeWith n r = IsWhole (record n { raft = r })

report-IsWhole :
    (n : Node) (o : Option Ready)
    → IsSequential n.raft.raft_log
    → IsSaved n
    → Ensures (WholeWith n) (report n.raft o)
unfolding report
report-IsWhole n none s h = Ensures-some (WholeWith n) _ (record {
  saved = record {
    wal = h.wal;
    applied_le = h.applied_le;
    stable_le = h.stable_le;
    buffer = λ rd p. record {
      till = length n.raft.raft_log.entries;
      from_stable = h.stable_le;
      to_end = omega arith;
      slice = fresh rd p;
    };
  };
  sequential = s;
  whole = fresh;
})
  where
    fresh : (rd : Ready) → some (make_ready n.raft) ≡ some rd → rd.entries ≡ rest n.raft.raft_log
    fresh rd p = let q : make_ready n.raft ≡ rd = cc in rw (← q) (volatile_entries-rest n.raft s)
report-IsWhole n (some rd) s h = Ensures-none (WholeWith n)

-- With nothing to report, everything is persisted.
quiet-stable :
    (r : Raft)
    → IsSequential r.raft_log
    → has_ready r ≡ false
    → length r.raft_log.entries ≤ r.raft_log.stable_index
unfolding has_ready
quiet-stable r s e = ground (arith, last_index-eq-length r.raft_log s)

pub ready-IsWhole :
    (n : Node) → IsSequential n.raft.raft_log → IsSaved n → Ensures (WholeWith n) (ready n.raft)
unfolding ready
ready-IsWhole n s h =
    Ensures-if (WholeWith n) (has_ready n.raft) (λ _. report-IsWhole n n.raft.readyc s h)
      (λ e. Ensures-some (WholeWith n) n.raft (record {
        saved = h;
        sequential = s;
        whole = λ rd p.
            let k = h.buffer rd p in
            let t : k.till ≡ length n.raft.raft_log.entries =
              omega (arith, quiet-stable n.raft s e, k.from_stable, k.to_end) in
            k.slice ∙ rw t;
      }))

pub save_to_wal_lem : (es wal : List Log) → save_to_wal es wal ≡ wal ++ es
unfolding save_to_wal
save_to_wal_lem [] wal = sym (append-nil wal)
save_to_wal_lem (e ∷ es) wal = save_to_wal_lem es (wal ++ (e ∷ [])) ∙ append_assoc wal (e ∷ []) es

pub take-length : (es : List Log) → take (length es) es ≡ es
take-length es = take_of_length-le (length es) es (omega arith)

advance_stable :
    (r : Raft)
    → IsSequential r.raft_log
    → r.raft_log.stable_index ≤ length r.raft_log.entries
    → (advance r).raft_log.stable_index ≡ length r.raft_log.entries
unfolding advance mark_applied_till mark_stable_till
advance_stable r s h = ground (arith, last_index-eq-length r.raft_log s)

-- The state once the entries of the `Ready` are written, and before it is handed on.
pub record IsWritten (n : Node) : Type 0 where
  pub wal : n.wal ≡ n.raft.raft_log.entries
  pub stable_le : n.raft.raft_log.stable_index ≤ length n.raft.raft_log.entries
  pub empty : n.raft.readyc ≡ none
  pub bounded : IsBounded n.raft.raft_log
  pub sequential : IsSequential n.raft.raft_log

pub advanced-IsSaved : (n : Node) → IsWritten n → IsSaved (record n { raft = advance n.raft })
advanced-IsSaved n h = record {
  wal = rw (stable, entries) (h.wal ∙ sym (take-length n.raft.raft_log.entries));
  applied_le = rw (stable, advance_applied n.raft h.bounded) h.bounded.commit_le;
  stable_le = rw (stable, entries) (omega arith);
  buffer = λ rd p. absurd (ground (arith, h.empty, (advance_rest n.raft).2, p));
}
  where
    stable : (advance n.raft).raft_log.stable_index ≡ length n.raft.raft_log.entries
    stable = advance_stable n.raft h.sequential h.stable_le

    entries : (advance n.raft).raft_log.entries ≡ n.raft.raft_log.entries
    entries = (advance_rest n.raft).0
