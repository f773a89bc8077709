-- ===== src/Wait/Wakes.antt =====
-- The waiters of wait.go: who is woken, and that no channel is closed twice.
use harmony_db.Base.{
  ℕ, ◌+◌, ◌<◌, ◌≡◌, refl, sym, ◌∙◌, true, false, none, some, ◌∷◌, ◌==◌, arith, Option-cases,
  Bool-cases, inl, inr, ==_iff, subst, ◌>>=◌,
}
use harmony_db.Base.Maps
use harmony_db.Base.Maps.{Map, get-put, get-remove}
use harmony_db.Wait.{
  Waiter, new_waiter, is_closed, close, trigger, register, WaitStep, registering, triggering, Reach,
  here, next,
}

-- Waiting channels are open and differ; those to come are open.
pub record IsSound (w : Waiter) : Type 0 where
  known : (i c : ℕ) → Maps.get i w.chans ≡ some c → c < w.next_chan
  pub open_chan : (i c : ℕ) → Maps.get i w.chans ≡ some c → is_closed c w.closed ≡ false
  differ : (i j c : ℕ) → Maps.get i w.chans ≡ some c → Maps.get j w.chans ≡ some c → i ≡ j
  made : (c : ℕ) → is_closed c w.closed ≡ true → c < w.next_chan

pub new_waiter-IsSound : IsSound new_waiter
unfolding Maps.get is_closed
new_waiter-IsSound = record {
  known = λ i c e. absurd (ground arith);
  open_chan = λ i c e. absurd (ground arith);
  differ = λ i j c e f. absurd (ground arith);
  made = λ c e. absurd (ground arith);
}

added-IsSound :
    (id : ℕ) (w : Waiter)
    → Maps.get id w.chans ≡ none
    → IsSound w
    → IsSound (record w { chans = Maps.put id w.next_chan w.chans; next_chan = w.next_chan + 1 })
added-IsSound id w new h = record {
  known = λ i c e. ground (arith, get-put id i w.next_chan w.chans, h.known i c);
  open_chan = λ i c e. ground (
    arith,
    get-put id i w.next_chan w.chans,
    h.open_chan i c,
    h.made w.next_chan,
    Bool-cases (is_closed c w.closed),
  );
  differ = λ i j c e f. ground (
    arith,
    get-put id i w.next_chan w.chans,
    get-put id j w.next_chan w.chans,
    h.differ i j c,
    h.known i c,
    h.known j c,
  );
  made = λ c e. let b = h.made c e in omega arith;
}

pub register-IsSound : (id : ℕ) (w : Waiter) → IsSound w → IsSound (register id w).1
unfolding register
register-IsSound id w h = elim (Option-cases (Maps.get id w.chans)) [
  | inl new ↦ rw (new, register) (added-IsSound id w new h)
  | inr (ch, there) ↦ rw (there, register) h
]

-- A trigger closes the channel of its id.
unfoldable pub woken : ℕ → ℕ → Waiter → Waiter
woken id ch w = record w { closed = ch ∷ w.closed; chans = Maps.remove id w.chans }

pub trigger-woken :
    (id ch : ℕ) (w : Waiter)
    → IsSound w
    → Maps.get id w.chans ≡ some ch
    → trigger id w ≡ some (woken id ch w)
unfolding trigger woken
trigger-woken id ch w h there = rw (there, trigger, h.open_chan id ch there, close, ◌>>=◌) refl

pub trigger-unknown : (id : ℕ) (w : Waiter) → Maps.get id w.chans ≡ none → trigger id w ≡ some w
unfolding trigger
trigger-unknown id w unknown = rw (unknown, trigger) refl

pub woken-IsSound :
    (id ch : ℕ) (w : Waiter) → IsSound w → Maps.get id w.chans ≡ some ch → IsSound (woken id ch w)
unfolding woken is_closed
woken-IsSound id ch w h there = record {
  known = λ i c e. ground (arith, get-remove id i w.chans, h.known i c);
  open_chan = λ i c e. ground (arith, get-remove id i w.chans, h.open_chan i c, h.differ id i c);
  differ =
      λ i j c e f. ground (arith, get-remove id i w.chans, get-remove id j w.chans, h.differ i j c);
  made = λ c e. ground (arith, h.made c, h.known id ch there);
}

WaitStep-IsSound : {w w' : Waiter} → WaitStep w w' → IsSound w → IsSound w'
WaitStep-IsSound {w} (registering id) h = register-IsSound id w h
WaitStep-IsSound {w} {w'} (triggering id e) h = elim (Option-cases (Maps.get id w.chans)) [
  | inl none_there ↦
      let q : w ≡ w' = let back = sym (trigger-unknown id w none_there) ∙ e in cc in
      subst IsSound q h
  | inr (ch, there) ↦
      let q : woken id ch w ≡ w' = let back = sym (trigger-woken id ch w h there) ∙ e in cc in
      subst IsSound q (woken-IsSound id ch w h there)
]

Reach-IsSound : {w w' : Waiter} → Reach w w' → IsSound w → IsSound w'
Reach-IsSound here h = h
Reach-IsSound (next r s) h = WaitStep-IsSound s (Reach-IsSound r h)

pub register-get :
    (id : ℕ) (w : Waiter) → Maps.get id (register id w).1.chans ≡ some (register id w).0
unfolding register
register-get id w = elim (Option-cases (Maps.get id w.chans)) [
  | inl new ↦ rw (new, register) (ground (arith, get-put id id w.next_chan w.chans))
  | inr (ch, there) ↦ rw (there, register) there
]

pub unknown_other :
    (w : Waiter) (other id : ℕ) {ch : ℕ}
    → Maps.get id w.chans ≡ some ch
    → Maps.get other w.chans ≡ none
    → (other == id) ≡ false
unknown_other w other id own nobody = elim (Bool-cases (other == id)) [
  | inl e ↦
      let p = (==_iff other id).0 e in
      let q : Maps.get id w.chans ≡ none = subst (λ i. Maps.get i w.chans ≡ none) p nobody in
      absurd (ground (arith, q, own))
  | inr e ↦ e
]

woken-own :
    (w : Waiter) (other id : ℕ) {c ch : ℕ}
    → IsSound w
    → Maps.get other w.chans ≡ some c
    → Maps.get id w.chans ≡ some ch
    → is_closed ch w.closed ≡ false
    → is_closed ch (woken other c w).closed ≡ (other == id)
unfolding is_closed woken
woken-own w other id {c} {ch} h there own shut = elim (Bool-cases (other == id)) [
  | inl e ↦
      let p = (==_iff other id).0 e in
      let q : some c ≡ some ch = sym there ∙ rw p own in ground (arith, e, q)
  | inr e ↦ ground (arith, e, shut, there, own, h.differ other id ch)
]

-- Along every run of the waiters, on the channel that `Register` returns for an id: no `Trigger`
-- panics, and the channel is closed by the next trigger exactly if that is for the id.
pub trigger_wakes_own :
    (w : Waiter)
    → Reach new_waiter w
    → (id other : ℕ)
    → (w' : Waiter) × (trigger other (register id w).1 ≡ some w')
      × (is_closed (register id w).0 w'.closed ≡ (other == id))
trigger_wakes_own w run id other =
    let w1 = (register id w).1 in
    let ch = (register id w).0 in
    let h : IsSound w1 = register-IsSound id w (Reach-IsSound run new_waiter-IsSound) in
    let own : Maps.get id w1.chans ≡ some ch = register-get id w in
    let shut = h.open_chan id ch own in
    elim (Option-cases (Maps.get other w1.chans)) [
      | inl nobody ↦
          (w1, trigger-unknown other w1 nobody, shut ∙ sym (unknown_other w1 other id own nobody))
      | inr (c, there) ↦ (
        woken other c w1,
        trigger-woken other c w1 h there,
        woken-own w1 other id h there own shut,
      )
    ]
