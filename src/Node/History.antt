-- ===== src/Node/History.antt =====
-- What every run of the node of repl/raft.go preserves of its log.
use mathlib.Core.List.{append-nil, append_assoc}
use harmony_db.Base.{
  ◌≤◌, ◌≡◌, refl, sym, ◌∙◌, ap, Option, none, some, List, [], ◌++◌, arith, Ensures, Ensures-some,
  Ensures-none, Ensures-if, if_intro,
}
use harmony_db.Proto.{Log}
use harmony_db.Raft.Types.{Raft, Ready}
use harmony_db.Raft.Step.{ready, report, has_ready}
use harmony_db.Raft.Growth.{Grows}
use harmony_db.Node.{
  Node, process, tick_in, process_ready, hand_over, save_to_wal, send, finish, is_idle, evaluated,
  Choice, take_message, take_ready, take_tick, take_default, on_ready, choose, iterate, NodeStep,
  propose, clock, loop, apply, Reach, here, next,
}
use harmony_db.Node.Holds.{Holds, Holds-went, Holds-waits}
use harmony_db.Node.Moves.{Moves, on_message-Holds, on_tick-Holds}
use harmony_db.Node.Delivery.{HandsOver, hand_over-HandsOver, advance_rest}

-- Entries are only added at the end, and the commit index does not fall.
pub record Extends (r r' : Raft) : Type 0 where
  pub added : List Log
  pub entries : r'.raft_log.entries ≡ r.raft_log.entries ++ added
  pub commit_le : r.raft_log.commit_index ≤ r'.raft_log.commit_index

Extends-refl : (r : Raft) → Extends r r
Extends-refl r = record {
  added = [];
  entries = sym (append-nil r.raft_log.entries);
  commit_le = omega arith;
}

Extends-trans : {r s t : Raft} → Extends r s → Extends s t → Extends r t
Extends-trans {r} {s} {t} p q = record {
  added = p.added ++ q.added;
  entries =
      q.entries
      ∙ ap (λ (es : List Log). es ++ q.added) p.entries
      ∙ append_assoc r.raft_log.entries p.added q.added;
  commit_le = omega (arith, p.commit_le, q.commit_le);
}

Extends-of_same :
    {r s : Raft}
    → s.raft_log.entries ≡ r.raft_log.entries
    → s.raft_log.commit_index ≡ r.raft_log.commit_index
    → Extends r s
Extends-of_same {r} {s} e c = record {
  added = [];
  entries = e ∙ sym (append-nil r.raft_log.entries);
  commit_le = omega arith;
}

Extends-of_Grows : {r s : Raft} → Grows r s → Extends r s
Extends-of_Grows g = record { added = g.more; entries = g.entries; commit_le = g.commit_le }

ready-Extends : (r : Raft) → Ensures (Extends r) (ready r)
unfolding ready
ready-Extends r =
    Ensures-if (Extends r) (has_ready r) (λ _. go r.readyc)
      (λ _. Ensures-some (Extends r) r (Extends-refl r))
  where
    go : (o : Option Ready) → Ensures (Extends r) (report r o)
    go none = Ensures-some (Extends r) _ (Extends-of_same refl refl)
    go (some rd) = Ensures-none (Extends r)

abbrev ExtendsNode : Raft → Node → Type 0
ExtendsNode r n = Extends r n.raft

finish-Extends :
    (r : Raft) (n : Node) (rd : Ready) (o : Option Node)
    → Extends r n.raft
    → Ensures (λ n'. HandsOver n n' rd) o
    → Holds (ExtendsNode r) (finish o)
unfolding finish
finish-Extends r n rd none e h = Holds-waits (ExtendsNode r)
finish-Extends r n rd (some n1) e h =
    let same = (h.at n1 refl).raft_same in
    Holds-went (ExtendsNode r) _
      (Extends-trans e (rw same (Extends-of_same (advance_rest n.raft).0 (advance_rest n.raft).1)))

process_ready-Extends :
    (r : Raft) (rd : Ready) (n : Node)
    → Extends r n.raft
    → Holds (ExtendsNode r) (process_ready rd n)
unfolding process_ready
process_ready-Extends r rd n e =
    let n1 : Node = record n {
      wal = save_to_wal rd.entries n.wal;
      sent = n.sent ++ (send n.members rd.messages ++ send n.members rd.messages_after_append);
    } in
    finish-Extends r n1 rd (hand_over rd n1) e (hand_over-HandsOver rd n1)

on_ready-Extends : (o : Option Ready) (n : Node) → Holds (ExtendsNode n.raft) (on_ready o n)
unfolding on_ready
on_ready-Extends none n = Holds-waits (ExtendsNode n.raft)
on_ready-Extends (some rd) n =
    process_ready-Extends n.raft rd (record n { raft = record n.raft { readyc = none } })
      (Extends-of_same refl refl)

moved : (n n' : Node) → Moves n n' → ExtendsNode n.raft n'
moved n n' m = Extends-of_Grows m.grows

choose-Extends : (c : Choice) (n : Node) → Holds (ExtendsNode n.raft) (choose c n)
unfolding choose
choose-Extends take_message n = on_message-Holds (ExtendsNode n.raft) n (moved n) n.propc
choose-Extends take_ready n = on_ready-Extends n.raft.readyc n
choose-Extends take_tick n = on_tick-Holds (ExtendsNode n.raft) n (moved n) n.tickc
choose-Extends take_default n =
    if_intro (Holds (ExtendsNode n.raft)) (is_idle n.propc n.raft.readyc n.tickc) _ _
      (λ _. Holds-went (ExtendsNode n.raft) n (Extends-refl n.raft))
      (λ _. Holds-waits (ExtendsNode n.raft))

iterate-Extends : (c : Choice) (n : Node) → Holds (ExtendsNode n.raft) (iterate c n)
unfolding iterate
iterate-Extends c n = go (ready n.raft) (ready-Extends n.raft)
  where
    go :
        (o : Option Raft)
        → Ensures (Extends n.raft) o
        → Holds (ExtendsNode n.raft) (evaluated c n o)
    go none k = record { at = λ x e. cc }
    go (some r) k = record {
      at = λ m e. Extends-trans (k.at r refl) ((choose-Extends c (record n { raft = r })).at m e);
    }

NodeStep-Extends : {n n' : Node} → NodeStep n n' → Extends n.raft n'.raft
unfolding process tick_in
NodeStep-Extends (propose m) = Extends-of_same (ground arith) (ground arith)
NodeStep-Extends clock = Extends-of_same (ground arith) (ground arith)
NodeStep-Extends {n} {n'} (loop c e) = (iterate-Extends c n).at n' e
NodeStep-Extends {n} (apply e) = Extends-refl n.raft

-- Whatever messages, ticks and interleavings a node meets, its log only grows at the end, and its
-- commit index never falls: no entry, committed or not, is ever changed or removed.
pub log_append_only :
    (n n' : Node)
    → Reach n n'
    → ((added : List Log) × (n'.raft.raft_log.entries ≡ n.raft.raft_log.entries ++ added))
      × (n.raft.raft_log.commit_index ≤ n'.raft.raft_log.commit_index)
log_append_only n n' run = let h = along run in ((h.added, h.entries), h.commit_le)
  where
    along : {m : Node} → Reach n m → Extends n.raft m.raft
    along here = Extends-refl n.raft
    along (next r s) = Extends-trans (along r) (NodeStep-Extends s)
