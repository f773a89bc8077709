-- ===== src/Node/Delivery.antt =====
-- What the run loop of repl/raft.go hands to the database: every committed entry once, in order.
use harmony_db.Base.{
  ℕ, zero, suc, ◌-◌, ◌≤◌, ◌≡◌, refl, sym, ◌∙◌, ap, subst, inl, inr, false, Option, none, some, List,
  [], ◌∷◌, ◌++◌, arith, Ensures, Ensures-none, Ensures-some, Ensures-if, ltb, length, take, drop,
  length-append, take-append,
}
use mathlib.Core.List.{append-nil}
use harmony_db.Proto.{Log}
use harmony_db.RaftLog.{RaftLog, mark_stable_till, mark_applied_till}
use harmony_db.RaftLog.Sequential.{IsSequential, last_index-eq-length, committed_entries-slice}
use harmony_db.Raft.Types.{Raft, Ready}
use harmony_db.Raft.Step.{ready, report, has_ready, make_ready, advance}
use harmony_db.Raft.Growth.{Grows}
use harmony_db.Node.{Node, hand_over, is_nonempty}

-- The indices are in order and within the log.
pub record IsBounded (l : RaftLog) : Type 0 where
  pub applied_le : l.last_applied ≤ l.commit_index
  pub commit_le : l.commit_index ≤ length l.entries

-- A `Ready` holds the committed entries behind the applied ones, up to its own commit index.
pub record IsSlice (l : RaftLog) (rd : Ready) : Type 0 where
  pub from_applied : l.last_applied ≤ rd.hard_state.last_commit_index
  pub to_commit : rd.hard_state.last_commit_index ≤ l.commit_index
  pub slice :
      rd.committed_entries
      ≡ take (rd.hard_state.last_commit_index - l.last_applied) (drop l.last_applied l.entries)

-- Between two iterations: what went out is the log's prefix up to the applied index.
pub record IsOrderly (n : Node) : Type 0 where
  pub bounded : IsBounded n.raft.raft_log
  pub delivered : n.delivered ≡ take n.raft.raft_log.last_applied n.raft.raft_log.entries
  pub buffer : (rd : Ready) → n.raft.readyc ≡ some rd → IsSlice n.raft.raft_log rd

pub drop-append-take :
    (a c : ℕ) (xs ys : List Log)
    → c ≤ length xs
    → a ≤ c
    → take (c - a) (drop a (xs ++ ys)) ≡ take (c - a) (drop a xs)
drop-append-take zero c xs ys h k = take-append (c - 0) xs ys (omega arith)
drop-append-take (suc a) zero xs ys h k = absurd (omega arith)
drop-append-take (suc a) (suc c) [] ys h k = absurd (omega arith)
drop-append-take (suc a) (suc c) (x ∷ xs) ys h k =
    let e : suc c - suc a ≡ c - a = omega arith in
    rw e (drop-append-take a c xs ys (omega arith) (omega arith))

-- A step of the state machine that ends in a sequential log.
Grows-IsBounded :
    (r r' : Raft)
    → Grows r r'
    → IsSequential r'.raft_log
    → IsBounded r.raft_log
    → IsBounded r'.raft_log
Grows-IsBounded r r' g s b = record {
  applied_le = omega arith;
  commit_le = elim g.commit_bound [
    | inl e ↦ rw (e, g.entries, length-append r.raft_log.entries g.more) (omega arith)
    | inr h ↦ omega (arith, last_index-eq-length r'.raft_log s)
  ];
}

Grows-IsSlice :
    (r r' : Raft) (rd : Ready)
    → Grows r r'
    → IsBounded r.raft_log
    → IsSlice r.raft_log rd
    → IsSlice r'.raft_log rd
Grows-IsSlice r r' rd g b h = record {
  from_applied = omega arith;
  to_commit = omega arith;
  slice =
      h.slice
      ∙ sym (
          ap
            (λ (es : List Log).
              take (rd.hard_state.last_commit_index - r'.raft_log.last_applied)
                (drop r'.raft_log.last_applied es))
            g.entries
          ∙ rw g.applied (
              drop-append-take r.raft_log.last_applied rd.hard_state.last_commit_index
                r.raft_log.entries g.more (omega arith) h.from_applied));
}

-- The step of a message or a tick, inside a node whose delivery is in order.
pub Grows-IsOrderly :
    (n n' : Node)
    → Grows n.raft n'.raft
    → n'.delivered ≡ n.delivered
    → IsSequential n'.raft.raft_log
    → IsOrderly n
    → IsOrderly n'
Grows-IsOrderly n n' g e s h = record {
  bounded = Grows-IsBounded n.raft n'.raft g s h.bounded;
  delivered =
      e
      ∙ h.delivered
      ∙ sym (
          ap (λ (es : List Log). take n'.raft.raft_log.last_applied es) g.entries
          ∙ rw g.applied (take-append _ _ g.more (omega arith)));
  buffer = λ rd p. Grows-IsSlice n.raft n'.raft rd g h.bounded (h.buffer rd (sym g.buffered ∙ p));
}

-- After the call of `Ready` a buffered value is up to date with the commit index.
pub record IsPolled (n : Node) : Type 0 where
  pub orderly : IsOrderly n
  pub current :
      (rd : Ready)
      → n.raft.readyc ≡ some rd
      → rd.hard_state.last_commit_index ≡ n.raft.raft_log.commit_index

abbrev pub AfterReady : Node → Raft → Type 0
AfterReady n r = IsPolled (record n { raft = r })

make_ready-IsSlice : (r : Raft) → IsBounded r.raft_log → IsSlice r.raft_log (make_ready r)
unfolding make_ready
make_ready-IsSlice r b = record {
  from_applied = b.applied_le;
  to_commit = omega arith;
  slice = committed_entries-slice r.raft_log;
}

report-IsPolled :
    (n : Node) (o : Option Ready) → IsOrderly n → Ensures (AfterReady n) (report n.raft o)
unfolding report
report-IsPolled n none h = Ensures-some (AfterReady n) _ (record {
  orderly = record {
    bounded = h.bounded;
    delivered = h.delivered;
    buffer = λ rd p.
        let q : make_ready n.raft ≡ rd = cc in
        subst (IsSlice n.raft.raft_log) q (make_ready-IsSlice n.raft h.bounded);
  };
  current = λ rd p. unfold make_ready in ground arith;
})
report-IsPolled n (some rd) h = Ensures-none (AfterReady n)

-- With nothing to report, everything committed is applied.
quiet-applied : (r : Raft) → has_ready r ≡ false → r.raft_log.commit_index ≤ r.raft_log.last_applied
unfolding has_ready
quiet-applied r e = ground arith

pub ready-IsPolled : (n : Node) → IsOrderly n → Ensures (AfterReady n) (ready n.raft)
unfolding ready
ready-IsPolled n h =
    Ensures-if (AfterReady n) (has_ready n.raft) (λ _. report-IsPolled n n.raft.readyc h)
      (λ e. Ensures-some (AfterReady n) n.raft (record {
        orderly = h;
        current = λ rd p.
            let s = h.buffer rd p in
            omega (arith, quiet-applied n.raft e, s.from_applied, s.to_commit);
      }))

-- The next state is in order, if its log is sequential.
abbrev pub NextOrderly : Node → Type 0
NextOrderly n = IsSequential n.raft.raft_log → IsOrderly n

-- What is handed over continues what went out, up to the commit index.
pub record HandsOver (n n' : Node) (rd : Ready) : Type 0 where
  pub raft_same : n'.raft ≡ n.raft
  pub extended : n'.delivered ≡ n.delivered ++ rd.committed_entries
  pub wal_same : n'.wal ≡ n.wal
  pub propc_same : n'.propc ≡ n.propc

pub hand_over-HandsOver :
    (rd : Ready) (n : Node) → Ensures (λ n'. HandsOver n n' rd) (hand_over rd n)
unfolding hand_over
hand_over-HandsOver rd n =
    Ensures-if P (is_nonempty rd.committed_entries)
      (λ _.
        Ensures-if P (ltb (length n.applyc) 256)
          (λ _.
            Ensures-some P _
              (record { raft_same = refl; extended = refl; wal_same = refl; propc_same = refl }))
          (λ _. Ensures-none P))
      (λ e. Ensures-some P n (record {
        raft_same = refl;
        extended = rw (empty rd.committed_entries e) (sym (append-nil n.delivered));
        wal_same = refl;
        propc_same = refl;
      }))
  where
    P : Node → Type 0
    P n' = HandsOver n n' rd

    empty : (es : List Log) → is_nonempty es ≡ false → es ≡ []
    empty [] e = refl
    empty (x ∷ es) e = unfold is_nonempty in cc

pub advance_applied :
    (r : Raft) → IsBounded r.raft_log → (advance r).raft_log.last_applied ≡ r.raft_log.commit_index
unfolding advance mark_applied_till mark_stable_till
advance_applied r b = ground arith

pub advance_rest :
    (r : Raft)
    → ((advance r).raft_log.entries ≡ r.raft_log.entries)
      × ((advance r).raft_log.commit_index ≡ r.raft_log.commit_index)
      × ((advance r).readyc ≡ r.readyc)
unfolding advance mark_applied_till mark_stable_till
advance_rest r = (ground arith, ground arith, refl)
