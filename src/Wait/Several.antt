-- ===== src/Wait/Several.antt =====
-- Several triggers one after the other, as the apply loop of db.go makes them (wait.go).
use harmony_db.Base.{
  ℕ, ◌+◌, ◌≡◌, refl, sym, ◌∙◌, Bool, true, false, Option, none, some, List, [], ◌∷◌, ◌==◌, ◌||◌,
  arith, Option-cases, Bool-cases, inl, inr, ==_iff, subst, ◌>>=◌,
}
use harmony_db.Base.Maps
use harmony_db.Base.Maps.{get-put, get-remove}
use harmony_db.Wait.{Waiter, is_closed, trigger, register}
use harmony_db.Wait.Wakes.{
  IsSound, woken, trigger-woken, trigger-unknown, woken-IsSound, unknown_other, register-get,
}

unfoldable pub trigger_all : List ℕ → Waiter → Option Waiter
trigger_all [] w = some w
trigger_all (id ∷ ids) w = trigger id w >>= λ w1. trigger_all ids w1

unfoldable pub is_one_of : ℕ → List ℕ → Bool
is_one_of id [] = false
is_one_of id (i ∷ is) = i == id || is_one_of id is

-- The channel `ch` waits for `id`, or is closed already.
pub data Awaits (id ch : ℕ) (w : Waiter) : Bool → Type 0 where
  waits : Maps.get id w.chans ≡ some ch → Awaits id ch w false
  closed : is_closed ch w.closed ≡ true → Awaits id ch w true

-- After the triggers: a channel is closed if it was, or if its id was among them.
pub record Triggered (ids : List ℕ) (w : Waiter) : Type 0 where
  pub after : Waiter
  pub done : trigger_all ids w ≡ some after
  pub sound : IsSound after
  pub awaits :
      (id ch : ℕ) (b : Bool) → Awaits id ch w b → Awaits id ch after (b || is_one_of id ids)

woken-Awaits :
    (i c : ℕ) (w : Waiter)
    → IsSound w
    → Maps.get i w.chans ≡ some c
    → (id ch : ℕ) (b : Bool) → Awaits id ch w b
    → Awaits id ch (woken i c w) (b || i == id)
unfolding woken is_closed
woken-Awaits i c w h there id ch true (closed k) = closed (ground (arith, k))
woken-Awaits i c w h there id ch false (waits own) = elim (Bool-cases (i == id)) [
  | inl e ↦
      let p = (==_iff i id).0 e in
      let q : some c ≡ some ch =
        sym there ∙ subst (λ j. Maps.get j w.chans ≡ some ch) (sym p) own in
      rw e (closed (ground (arith, q)))
  | inr e ↦ rw e (waits (ground (arith, get-remove i id w.chans, own, e)))
]

unknown-Awaits :
    (i : ℕ) (w : Waiter)
    → Maps.get i w.chans ≡ none
    → (id ch : ℕ) (b : Bool) → Awaits id ch w b
    → Awaits id ch w (b || i == id)
unknown-Awaits i w nobody id ch true (closed k) = closed k
unknown-Awaits i w nobody id ch false (waits own) = rw (unknown_other w i id own nobody) (waits own)

or_assoc : (a b c : Bool) → ((a || b) || c) ≡ (a || (b || c))
or_assoc true b c = refl
or_assoc false b c = refl

first-Triggered :
    (i : ℕ) (ids : List ℕ) (w w1 : Waiter)
    → trigger i w ≡ some w1
    → ((id ch : ℕ) (b : Bool) → Awaits id ch w b → Awaits id ch w1 (b || i == id))
    → Triggered ids w1
    → Triggered (i ∷ ids) w
unfolding trigger_all is_one_of
first-Triggered i ids w w1 e keep t = record {
  after = t.after;
  done = rw e t.done;
  sound = t.sound;
  awaits = λ id ch b k.
      subst (Awaits id ch t.after) (or_assoc b (i == id) (is_one_of id ids))
        (t.awaits id ch (b || i == id) (keep id ch b k));
}

or_false : (b : Bool) → b ≡ (b || false)
or_false true = refl
or_false false = refl

-- Triggers on sound waiters do not panic.
pub trigger_all-Triggered : (ids : List ℕ) (w : Waiter) → IsSound w → Triggered ids w
unfolding trigger_all is_one_of
trigger_all-Triggered [] w h = record {
  after = w;
  done = refl;
  sound = h;
  awaits = λ id ch b k. subst (Awaits id ch w) (or_false b) k;
}
trigger_all-Triggered (i ∷ ids) w h = elim (Option-cases (Maps.get i w.chans)) [
  | inl nobody ↦
      first-Triggered i ids w w (trigger-unknown i w nobody) (unknown-Awaits i w nobody)
        (trigger_all-Triggered ids w h)
  | inr (c, there) ↦
      first-Triggered i ids w (woken i c w) (trigger-woken i c w h there)
        (woken-Awaits i c w h there)
        (trigger_all-Triggered ids (woken i c w) (woken-IsSound i c w h there))
]

-- An awaiting channel is closed exactly as its index says.
pub Awaits-closed :
    (id ch : ℕ) (w : Waiter) (b : Bool) → IsSound w → Awaits id ch w b → is_closed ch w.closed ≡ b
Awaits-closed id ch w false h (waits own) = h.open_chan id ch own
Awaits-closed id ch w true h (closed k) = k

added-Awaits :
    (i : ℕ) (w : Waiter)
    → Maps.get i w.chans ≡ none
    → (id ch : ℕ) (b : Bool) → Awaits id ch w b
    → Awaits id ch
        (record w { chans = Maps.put i w.next_chan w.chans; next_chan = w.next_chan + 1 })
        b
added-Awaits i w new id ch true (closed k) = closed k
added-Awaits i w new id ch false (waits own) =
    let apart = unknown_other w i id own new in
    waits (get-put i id w.next_chan w.chans ∙ rw apart own)

-- Registering an id, also another or the same again, leaves what awaits.
pub register-Awaits :
    (i : ℕ) (w : Waiter) (id ch : ℕ) (b : Bool) → Awaits id ch w b → Awaits id ch (register i w).1 b
unfolding register
register-Awaits i w id ch b k = elim (Option-cases (Maps.get i w.chans)) [
  | inr (c, there) ↦ rw (there, register) k
  | inl new ↦ rw (new, register) (added-Awaits i w new id ch b k)
]

pub registered-Awaits : (id : ℕ) (w : Waiter) → Awaits id (register id w).0 (register id w).1 false
registered-Awaits id w = waits (register-get id w)
