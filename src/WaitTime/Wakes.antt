-- ===== src/WaitTime/Wakes.antt =====
-- The waiters of wait_time.go: who is woken, and that no channel is closed twice.
use harmony_db.Base.{
  ℕ, ◌+◌, ◌<◌, ◌≤◌, ap, le→leb, ◌≡◌, refl, sym, ◌∙◌, subst, true, false, some, [], ◌∷◌, ◌||◌, ◌==◌,
  leb, arith, Option-cases, Bool-cases, inl, inr, All, ◌>>=◌,
}
use harmony_db.Base.Maps
use harmony_db.Base.Maps.{Map, get-put, put-All}
use harmony_db.Wait.{is_closed}
use harmony_db.WaitTime.{
  WaitTime, new_wait_time, wait, trigger, waiting, triggering, Reach, here, next,
}
use harmony_db.WaitTime.Shut.{
  OtherThan, IsOpen, IsMade, Distinct, later, shut, wake-shut, closed_own, later-All,
  later-Distinct, later-IsOpen, shut_made, shut_keeps,
}

new_OtherThan : (bound : ℕ) (m : Map ℕ) → All (IsMade bound) m → All (OtherThan bound) m
new_OtherThan bound [] h = tt
new_OtherThan bound (e ∷ m) h = ((λ p. absurd (omega (arith, h.0, p))), new_OtherThan bound m h.1)

put-Distinct :
    (d bound : ℕ) (m : Map ℕ) → All (IsMade bound) m → Distinct m → Distinct (Maps.put d bound m)
unfolding Maps.put
put-Distinct d bound [] h k = (tt, tt)
put-Distinct d bound ((j, ch) ∷ m) h k = elim (Bool-cases (j == d)) [
  | inl same ↦ rw (same, Maps.put) (new_OtherThan bound m h.1, k.1)
  | inr other ↦
      rw (other, Maps.put)
        (
          put-All (OtherThan ch) d bound m (λ p. absurd (omega (arith, h.0, p))) k.0,
          put-Distinct d bound m h.1 k.1,
        )
]

IsMade-suc : (bound : ℕ) (m : Map ℕ) → All (IsMade bound) m → All (IsMade (bound + 1)) m
IsMade-suc bound [] h = tt
IsMade-suc bound (e ∷ m) h = (omega (arith, h.0), IsMade-suc bound m h.1)

pub record IsSound (w : WaitTime) : Type 0 where
  bounded : All (IsMade w.next_chan) w.m
  open_chans : All (IsOpen w.closed) w.m
  distinct : Distinct w.m
  made : (c : ℕ) → is_closed c w.closed ≡ true → c < w.next_chan
  pub closec : is_closed 0 w.closed ≡ true

pub new_wait_time-IsSound : IsSound new_wait_time
unfolding is_closed
new_wait_time-IsSound = record {
  bounded = tt;
  open_chans = tt;
  distinct = tt;
  made = λ c e. ground (arith, e);
  closec = refl;
}

added-IsSound :
    (d : ℕ) (w : WaitTime)
    → IsSound w
    → IsSound (record w { m = Maps.put d w.next_chan w.m; next_chan = w.next_chan + 1 })
added-IsSound d w h = record {
  bounded =
      put-All (IsMade (w.next_chan + 1)) d w.next_chan w.m (omega arith)
        (IsMade-suc w.next_chan w.m h.bounded);
  open_chans =
      put-All (IsOpen w.closed) d w.next_chan w.m
        (ground (arith, h.made w.next_chan, Bool-cases (is_closed w.next_chan w.closed)))
        h.open_chans;
  distinct = put-Distinct d w.next_chan w.m h.bounded h.distinct;
  made = λ c e. let b = h.made c e in omega arith;
  closec = h.closec;
}

-- What a call of `Wait` gives: the closed channel, or the one in the map.
pub record Given (d : ℕ) (w : WaitTime) : Type 0 where
  pub sound : IsSound (wait d w).1
  pub past : leb d w.last_triggered ≡ true → (wait d w).0 ≡ 0
  pub own : leb d w.last_triggered ≡ false → Maps.get d (wait d w).1.m ≡ some (wait d w).0

pub wait-Given : (d : ℕ) (w : WaitTime) → IsSound w → Given d w
unfolding wait
wait-Given d w h = elim (Bool-cases (leb d w.last_triggered)) [
  | inl e ↦ record {
    sound = rw (e, wait) h;
    past = λ q. rw (e, wait) refl;
    own = λ q. absurd (ground (arith, e, q));
  }
  | inr e ↦ elim (Option-cases (Maps.get d w.m)) [
    | inl new ↦ record {
      sound = rw (e, wait, new) (added-IsSound d w h);
      past = λ q. absurd (ground (arith, e, q));
      own = λ q. rw (e, wait, new) (ground (arith, get-put d d w.next_chan w.m));
    }
    | inr (c, there) ↦ record {
      sound = rw (e, wait, there) h;
      past = λ q. absurd (ground (arith, e, q));
      own = λ q. rw (e, wait, there) there;
    }
  ]
]

unfoldable pub triggered : ℕ → WaitTime → WaitTime
triggered limit w = record w {
  last_triggered = limit;
  m = later limit w.m;
  closed = shut limit w.m w.closed;
}

pub trigger-triggered :
    (limit : ℕ) (w : WaitTime) → IsSound w → trigger limit w ≡ some (triggered limit w)
unfolding trigger triggered
trigger-triggered limit w h =
    rw (trigger, wake-shut limit w.m w.closed h.open_chans h.distinct, ◌>>=◌) refl

pub triggered-IsSound : (limit : ℕ) (w : WaitTime) → IsSound w → IsSound (triggered limit w)
unfolding triggered
triggered-IsSound limit w h = record {
  bounded = later-All (IsMade w.next_chan) limit w.m h.bounded;
  open_chans = later-IsOpen limit w.m w.closed h.open_chans h.distinct;
  distinct = later-Distinct limit w.m h.distinct;
  made = λ c e. shut_made c limit w.next_chan w.m w.closed h.bounded (h.made c) e;
  closec = shut_keeps 0 limit w.m w.closed h.closec;
}

-- A trigger closes the channels that are due, and opens none.
pub triggered_due :
    (d ch limit : ℕ) (w : WaitTime)
    → IsSound w
    → Maps.get d w.m ≡ some ch
    → d ≤ limit
    → is_closed ch (triggered limit w).closed ≡ true
unfolding triggered
triggered_due d ch limit w h there le =
    closed_own d ch limit w.m w.closed there h.open_chans h.distinct ∙ le→leb d limit le

pub triggered_keeps :
    (ch limit : ℕ) (w : WaitTime)
    → is_closed ch w.closed ≡ true
    → is_closed ch (triggered limit w).closed ≡ true
unfolding triggered
triggered_keeps ch limit w e = shut_keeps ch limit w.m w.closed e

-- A further call of `Wait` closes nothing, and keeps the channels that were given out.
pub wait_keeps_closed : (d : ℕ) (w : WaitTime) → (wait d w).1.closed ≡ w.closed
unfolding wait
wait_keeps_closed d w = elim (Bool-cases (leb d w.last_triggered)) [
  | inl e ↦ rw (e, wait) refl
  | inr e ↦ elim (Option-cases (Maps.get d w.m)) [
    | inl new ↦ rw (e, wait, new) refl
    | inr (c, there) ↦ rw (e, wait, there) refl
  ]
]

pub wait_keeps_get :
    (d j ch : ℕ) (w : WaitTime) → Maps.get j w.m ≡ some ch → Maps.get j (wait d w).1.m ≡ some ch
unfolding wait
wait_keeps_get d j ch w h = elim (Bool-cases (leb d w.last_triggered)) [
  | inl e ↦ rw (e, wait) h
  | inr e ↦ elim (Option-cases (Maps.get d w.m)) [
    | inl new ↦
        let apart : (d == j) ≡ false = elim (Bool-cases (d == j)) [
          | inl same ↦
              let q : d ≡ j = ground arith in
              absurd (let both = sym new ∙ ap (λ x. Maps.get x w.m) q ∙ h in ground (arith, both))
          | inr other ↦ other
        ] in
        rw (e, wait, new) (get-put d j w.next_chan w.m ∙ rw apart h)
    | inr (c, there) ↦ rw (e, wait, there) h
  ]
]

Reach-IsSound : {w w' : WaitTime} → Reach w w' → IsSound w → IsSound w'
Reach-IsSound here h = h
Reach-IsSound (next {v} r (waiting d)) h = (wait-Given d v (Reach-IsSound r h)).sound
Reach-IsSound (next {v} {u} r (triggering limit e)) h =
    let s = Reach-IsSound r h in
    let q : triggered limit v ≡ u = (let back = sym (trigger-triggered limit v s) ∙ e in cc) in
    subst IsSound q (triggered-IsSound limit v s)

-- Along every run of the read waiters no `Trigger` panics, and the channel that `Wait` returns for a
-- deadline is closed after the next trigger exactly if the deadline is at most the last index
-- triggered before, or the one triggered now.
pub trigger_wakes_due :
    (w : WaitTime)
    → Reach new_wait_time w
    → (deadline limit : ℕ)
    → (w' : WaitTime) × (trigger limit (wait deadline w).1 ≡ some w')
      × (is_closed (wait deadline w).0 w'.closed
          ≡ (leb deadline w.last_triggered || leb deadline limit))
unfolding triggered
trigger_wakes_due w run deadline limit =
    let given = wait-Given deadline w (Reach-IsSound run new_wait_time-IsSound) in
    let w1 = (wait deadline w).1 in
    let h : IsSound w1 = given.sound in
    (
      triggered limit w1,
      trigger-triggered limit w1 h,
      (elim (Bool-cases (leb deadline w.last_triggered)) [
        | inl e ↦ rw (e, given.past e) ((triggered-IsSound limit w1 h).closec)
        | inr e ↦ rw e (
            closed_own deadline (wait deadline w).0 limit w1.m w1.closed (given.own e) h.open_chans
              h.distinct)
      ]),
    )
