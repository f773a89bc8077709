-- ===== src/Node/Trusty.antt =====
-- The votes of a node of repl/raft.go through a turn of its run loop.
use harmony_db.Base.{
  ℕ, zero, suc, ◌≡◌, refl, Option, none, some, List, [], ◌∷◌, ◌++◌, arith, All, All-append, Ensures,
  Ensures-none, Ensures-some, Ensures-if, if_intro, ltb, not, ◌&&◌, ◌==◌, length, subst,
}
use harmony_db.Proto.{Message}
use harmony_db.Raft.Types.{Raft, Ready}
use harmony_db.Raft.Step.{Stepped, step, tick, ready, advance, make_ready, report, has_ready}
use harmony_db.Raft.Silent.{Ballots, ballots, IsHonest, with_others}
use harmony_db.Raft.Ballot.{
  IsFair, Keeps, Keeps-refl, Keeps-trans, Keeps-of_Quiet, All-IsHonest_mono,
}
use harmony_db.Raft.Fair.{KeepsStep, step-Keeps, tick-Keeps}
use harmony_db.Node.Holds.{Holds, Holds-went, Holds-waits}
use harmony_db.Node.{
  Node, process, tick_in, is_member, send, hand_over, process_ready, save_to_wal, finish,
  is_nonempty, is_idle, evaluated, after_step, after_tick, Choice, take_message, take_ready,
  take_tick, take_default, on_message, on_ready, on_tick, choose, iterate, NodeStep, propose, clock,
  loop, apply,
}

-- The state machine is fair, and what went out agrees with its recorded votes.
pub record IsTrusty (n : Node) : Type 0 where
  pub fair : IsFair n.raft
  pub sent : All (IsHonest (ballots n.raft)) n.sent

report-Keeps :
    (r : Raft) → IsFair r → (o : Option Ready) → r.readyc ≡ o → Ensures (Keeps r) (report r o)
unfolding report make_ready
report-Keeps r h none e = Ensures-some (Keeps r) _ (record {
  fair = record {
    bounded = h.bounded;
    msgs = tt;
    after = tt;
    buffered = λ rd p.
        subst
          (λ (x : Ready).
            All (IsHonest (ballots r)) x.messages
            × All (IsHonest (ballots r)) x.messages_after_append)
          (let q : make_ready r ≡ rd = cc in q) (h.msgs, h.after);
  };
  id_same = refl;
  size_same = refl;
  term_le = omega arith;
  votes = λ t c p. p;
})
report-Keeps r h (some rd) e = Ensures-none (Keeps r)

ready-Keeps : (r : Raft) → IsFair r → Ensures (Keeps r) (ready r)
unfolding ready
ready-Keeps r h =
    Ensures-if (Keeps r) (has_ready r) (λ _. report-Keeps r h r.readyc refl)
      (λ _. Ensures-some (Keeps r) r (Keeps-refl h))

send-IsHonest :
    (v : Ballots) (members : List ℕ) (ms : List Message)
    → All (IsHonest v) ms
    → All (IsHonest v) (send members ms)
unfolding send
send-IsHonest v members [] h = tt
send-IsHonest v members (m ∷ ms) h =
    if_intro (All (IsHonest v)) (not (m.to == 0) && is_member m.to members) _ _
      (λ _. (h.0, send-IsHonest v members ms h.1)) (λ _. send-IsHonest v members ms h.1)

-- From a trusty node to one with the same messages sent and the same votes, or more.
moved : {n n' : Node} → IsTrusty n → Keeps n.raft n'.raft → n'.sent ≡ n.sent → IsTrusty n'
moved {n} {n'} h k e = record {
  fair = k.fair;
  sent = rw e (All-IsHonest_mono _ _ _ k.votes n.sent (rw (← k.id_same) at h.sent));
}

-- A trusty node that has kept the votes of `r`.
pub record Kept (r : Raft) (n : Node) : Type 0 where
  pub trusty : IsTrusty n
  pub keeps : Keeps r n.raft

moved-Kept : {n n' : Node} → IsTrusty n → Keeps n.raft n'.raft → n'.sent ≡ n.sent → Kept n.raft n'
moved-Kept h k e = record { trusty = moved h k e; keeps = k }

advance-Keeps : (r : Raft) → IsFair r → Keeps r (advance r)
unfolding advance
advance-Keeps r h = Keeps-of_Quiet (with_others r _ _ _ _) h

finish-Kept : (r : Raft) (o : Option Node) → Ensures (Kept r) o → Holds (Kept r) (finish o)
unfolding finish
finish-Kept r none h = Holds-waits (Kept r)
finish-Kept r (some n) h =
    let t = h.at n refl in
    let k = advance-Keeps n.raft t.trusty.fair in
    Holds-went (Kept r) _ (record { trusty = moved t.trusty k refl; keeps = Keeps-trans t.keeps k })

hand_over-Kept : (rd : Ready) (n : Node) → IsTrusty n → Ensures (Kept n.raft) (hand_over rd n)
unfolding hand_over
hand_over-Kept rd n h =
    Ensures-if (Kept n.raft) (is_nonempty rd.committed_entries)
      (λ _.
        Ensures-if (Kept n.raft) (ltb (length n.applyc) 256)
          (λ _. Ensures-some (Kept n.raft) _ (moved-Kept h (Keeps-refl h.fair) refl))
          (λ _. Ensures-none (Kept n.raft)))
      (λ _. Ensures-some (Kept n.raft) n (moved-Kept h (Keeps-refl h.fair) refl))

taken-Keeps : (r : Raft) → IsFair r → Keeps r (record r { readyc = none })
taken-Keeps r h = record {
  fair = record { bounded = h.bounded; msgs = h.msgs; after = h.after; buffered = λ x p. cc };
  id_same = refl;
  size_same = refl;
  term_le = omega arith;
  votes = λ t c e. e;
}

on_ready-Kept :
    (o : Option Ready) (n : Node)
    → n.raft.readyc ≡ o
    → IsTrusty n
    → Holds (Kept n.raft) (on_ready o n)
unfolding on_ready process_ready
on_ready-Kept none n e h = Holds-waits (Kept n.raft)
on_ready-Kept (some rd) n e h = finish-Kept n.raft _ (record {
  at = λ n2 p.
      let k = (hand_over-Kept rd _ handed).at n2 p in
      record { trusty = k.trusty; keeps = Keeps-trans taken k.keeps };
})
  where
    taken : Keeps n.raft (record n.raft { readyc = none })
    taken = taken-Keeps n.raft h.fair

    b : Ballots
    b = ballots n.raft

    handed : IsTrusty (record n {
      raft = record n.raft { readyc = none };
      wal = save_to_wal rd.entries n.wal;
      sent = n.sent ++ (send n.members rd.messages ++ send n.members rd.messages_after_append);
    })
    handed = record {
      fair = taken.fair;
      sent =
          let honest = h.fair.buffered rd e in
          All-append (IsHonest b) n.sent _ h.sent (
            All-append (IsHonest b) _ _ (send-IsHonest b n.members rd.messages honest.0)
              (send-IsHonest b n.members rd.messages_after_append honest.1));
    }

on_message-Kept :
    (ms : List Message) (n : Node) → IsTrusty n → Holds (Kept n.raft) (on_message ms n)
unfolding on_message
on_message-Kept [] n h = Holds-waits (Kept n.raft)
on_message-Kept (m ∷ ms) n h = go (step m n.raft) (step-Keeps m n.raft h.fair)
  where
    go :
        (s : Stepped)
        → Ensures (KeepsStep n.raft) s
        → Holds (Kept n.raft) (after_step s (record n { propc = ms }))
    go none k = record { at = λ x e. cc }
    go (some (r, x)) k = Holds-went (Kept n.raft) _ (moved-Kept h (k.at (r, x) refl) refl)

on_tick-Kept : (ticks : ℕ) (n : Node) → IsTrusty n → Holds (Kept n.raft) (on_tick ticks n)
unfolding on_tick
on_tick-Kept zero n h = Holds-waits (Kept n.raft)
on_tick-Kept (suc k) n h = go (tick n.raft) (tick-Keeps n.raft h.fair)
  where
    go :
        (o : Option Raft)
        → Ensures (Keeps n.raft) o
        → Holds (Kept n.raft) (after_tick o (record n { tickc = k }))
    go none q = record { at = λ x e. cc }
    go (some r) q = Holds-went (Kept n.raft) _ (moved-Kept h (q.at r refl) refl)

choose-Kept : (c : Choice) (n : Node) → IsTrusty n → Holds (Kept n.raft) (choose c n)
unfolding choose
choose-Kept take_message n h = on_message-Kept n.propc n h
choose-Kept take_ready n h = on_ready-Kept n.raft.readyc n refl h
choose-Kept take_tick n h = on_tick-Kept n.tickc n h
choose-Kept take_default n h =
    if_intro (Holds (Kept n.raft)) (is_idle n.propc n.raft.readyc n.tickc) _ _
      (λ _. Holds-went (Kept n.raft) n (moved-Kept h (Keeps-refl h.fair) refl))
      (λ _. Holds-waits (Kept n.raft))

iterate-Kept : (c : Choice) (n : Node) → IsTrusty n → Holds (Kept n.raft) (iterate c n)
unfolding iterate
iterate-Kept c n h = go (ready n.raft) (ready-Keeps n.raft h.fair)
  where
    go : (o : Option Raft) → Ensures (Keeps n.raft) o → Holds (Kept n.raft) (evaluated c n o)
    go none k = record { at = λ x e. cc }
    go (some r) k = record {
      at = λ m e.
          let first = k.at r refl in
          let last = (choose-Kept c (record n { raft = r }) (moved h first refl)).at m e in
          record { trusty = last.trusty; keeps = Keeps-trans first last.keeps };
    }

pub NodeStep-Kept : {n n' : Node} → NodeStep n n' → IsTrusty n → Kept n.raft n'
unfolding process tick_in
NodeStep-Kept {n} (propose m) h =
    moved-Kept h (subst (Keeps n.raft) (ground arith) (Keeps-refl h.fair)) (ground arith)
NodeStep-Kept {n} clock h =
    moved-Kept h (subst (Keeps n.raft) (ground arith) (Keeps-refl h.fair)) (ground arith)
NodeStep-Kept {n} (loop c e) h = (iterate-Kept c n h).at _ e
NodeStep-Kept (apply e) h = moved-Kept h (Keeps-refl h.fair) refl
