-- ===== src/Node/Backed.antt =====
-- The polls of a node of repl/raft.go through a turn of its run loop, against the votes that the
-- nodes of its cluster have cast.
use harmony_db.Base.{
  Bool, arith, ltb, length, All-append, ℕ, zero, suc, ◌≡◌, refl, Option, none, some, List, [], ◌∷◌,
  All, inl, Ensures, Ensures-none, Ensures-some, Ensures-if, if_intro,
}
use harmony_db.Proto.{Message}
use harmony_db.Raft.Types.{Raft, Ready}
use harmony_db.Raft.Step.{Stepped, step, tick, ready, report, has_ready, advance}
use harmony_db.Raft.Silent.{with_others}
use harmony_db.Raft.Tally.{Votes, IsBacked, IsGenuine, Settled-IsBacked, Quiet-IsBacked}
use harmony_db.Raft.Polls.{NextBacked, StepBacked}
use harmony_db.Raft.Turns.{step-Backed, tick-Backed}
use harmony_db.Raft.Become.{new_raft, become_follower}
use harmony_db.Node.{
  Node, new_node, process, tick_in, process_ready, finish, is_idle, evaluated, after_step,
  after_tick, Choice, take_message, take_ready, take_tick, take_default, on_message, on_ready,
  on_tick, choose, iterate,
}
use harmony_db.Node.Holds.{Holds, Holds-went, Holds-waits}
use harmony_db.Node.Delivery.{HandsOver, hand_over-HandsOver}

module _ (V : Votes) (id : ℕ) where
  -- The node counts votes that were cast, and the responses that it has yet to take are genuine.
  pub record IsPolling (n : Node) : Type 0 where
    pub id_same : n.raft.id ≡ id
    pub backed : IsBacked V n.raft
    pub queued : All (IsGenuine V id) n.propc

  -- The same after a turn, once the node's new votes are among those that were cast.
  pub record NextPolling (n : Node) : Type 0 where
    pub backed : NextBacked V n.raft
    pub queued : All (IsGenuine V id) n.propc

  now : (n : Node) → IsPolling n → NextPolling n
  now n h = record { backed = λ _. h.backed; queued = h.queued }

  genuine : (r : Raft) (m : Message) → r.id ≡ id → IsGenuine V id m → IsGenuine V r.id m
  genuine r m e g = rw e g

  on_message-Polling :
      (ms : List Message) (n : Node)
      → All (IsGenuine V id) ms
      → IsPolling n
      → Holds NextPolling (on_message ms n)
  unfolding on_message
  on_message-Polling [] n g h = Holds-waits NextPolling
  on_message-Polling (m ∷ ms) n g h =
      go (step m n.raft) (step-Backed V m n.raft (genuine n.raft m h.id_same g.0) h.backed)
    where
      go :
          (s : Stepped)
          → Ensures (StepBacked V) s
          → Holds NextPolling (after_step s (record n { propc = ms }))
      go none k = record { at = λ x e. cc }
      go (some (r, x)) k =
          Holds-went NextPolling _ (record { backed = k.at (r, x) refl; queued = g.1 })

  on_tick-Polling : (ticks : ℕ) (n : Node) → IsPolling n → Holds NextPolling (on_tick ticks n)
  unfolding on_tick
  on_tick-Polling zero n h = Holds-waits NextPolling
  on_tick-Polling (suc k) n h = go (tick n.raft) (tick-Backed V n.raft h.backed)
    where
      go :
          (o : Option Raft)
          → Ensures (NextBacked V) o
          → Holds NextPolling (after_tick o (record n { tickc = k }))
      go none q = record { at = λ x e. cc }
      go (some r) q = Holds-went NextPolling _ (record { backed = q.at r refl; queued = h.queued })

  finish-Polling :
      (n : Node) (rd : Ready)
      → IsPolling n
      → (o : Option Node) → Ensures (λ n'. HandsOver n n' rd) o
      → Holds NextPolling (finish o)
  unfolding finish advance
  finish-Polling n rd h none k = Holds-waits NextPolling
  finish-Polling n rd h (some n1) k =
      let d = k.at n1 refl in
      Holds-went NextPolling _ (record {
        backed =
            λ _. Quiet-IsBacked V n1.raft _ (with_others n1.raft _ _ _ _) (rw d.raft_same h.backed);
        queued = rw d.propc_same h.queued;
      })

  on_ready-Polling : (o : Option Ready) (n : Node) → IsPolling n → Holds NextPolling (on_ready o n)
  unfolding on_ready process_ready
  on_ready-Polling none n h = Holds-waits NextPolling
  on_ready-Polling (some rd) n h =
      finish-Polling _ rd
        (record {
          id_same = h.id_same;
          backed = Settled-IsBacked V n.raft _ refl refl (inl (refl, refl, refl, refl)) h.backed;
          queued = h.queued;
        })
        _ (hand_over-HandsOver rd _)

  choose-Polling : (c : Choice) (n : Node) → IsPolling n → Holds NextPolling (choose c n)
  unfolding choose
  choose-Polling take_message n h = on_message-Polling n.propc n h.queued h
  choose-Polling take_ready n h = on_ready-Polling n.raft.readyc n h
  choose-Polling take_tick n h = on_tick-Polling n.tickc n h
  choose-Polling take_default n h =
      if_intro (Holds NextPolling) (is_idle n.propc n.raft.readyc n.tickc) _ _
        (λ _. Holds-went NextPolling n (now n h)) (λ _. Holds-waits NextPolling)

  abbrev PolledWith : Node → Raft → Type 0
  PolledWith n r = IsPolling (record n { raft = r })

  ready-Polling : (n : Node) → IsPolling n → Ensures (PolledWith n) (ready n.raft)
  unfolding ready report
  ready-Polling n h =
      Ensures-if (PolledWith n) (has_ready n.raft) (λ _. go n.raft.readyc)
        (λ _. Ensures-some (PolledWith n) n.raft h)
    where
      go : (o : Option Ready) → Ensures (PolledWith n) (report n.raft o)
      go none = Ensures-some (PolledWith n) _ (record {
        id_same = h.id_same;
        backed = Settled-IsBacked V n.raft _ refl refl (inl (refl, refl, refl, refl)) h.backed;
        queued = h.queued;
      })
      go (some rd) = Ensures-none (PolledWith n)

  pub iterate-Polling : (c : Choice) (n : Node) → IsPolling n → Holds NextPolling (iterate c n)
  unfolding iterate
  iterate-Polling c n h = go (ready n.raft) (ready-Polling n h)
    where
      go : (o : Option Raft) → Ensures (PolledWith n) o → Holds NextPolling (evaluated c n o)
      go none k = record { at = λ x e. cc }
      go (some r) k = choose-Polling c _ (k.at r refl)

pub process-NextPolling :
    (V : Votes) (i : ℕ) (m : Message) (n : Node)
    → IsGenuine V i m
    → IsPolling V i n
    → NextPolling V i (process m n).0
unfolding process
process-NextPolling V i m n g h =
    if_intro (λ (x : Node × Bool). NextPolling V i x.0) (ltb (length n.propc) 256) _ _
      (λ _. record {
        backed = λ _. h.backed;
        queued = All-append (IsGenuine V i) n.propc _ h.queued (g, tt);
      })
      (λ _. record { backed = λ _. h.backed; queued = h.queued })

pub tick_in-NextPolling :
    (V : Votes) (i : ℕ) (n : Node) → IsPolling V i n → NextPolling V i (tick_in n)
unfolding tick_in
tick_in-NextPolling V i n h =
    if_intro (NextPolling V i) (ltb n.tickc 128) _ _
      (λ _. record { backed = λ _. h.backed; queued = h.queued })
      (λ _. record { backed = λ _. h.backed; queued = h.queued })

pub new_node-Polling : (V : Votes) (id : ℕ) (peers : List ℕ) → IsPolling V id (new_node id peers)
unfolding new_node new_raft become_follower
new_node-Polling V id peers = record {
  id_same = ground arith;
  backed = record {
    counted = λ votes e. absurd (ground (arith, e));
    elected = λ e. absurd (ground (arith, e));
    poised = λ e. absurd (ground (arith, e));
  };
  queued = tt;
}
