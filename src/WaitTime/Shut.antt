-- ===== src/WaitTime/Shut.antt =====
-- What the loop of `Trigger` in wait_time.go leaves, on open and distinct channels.
use harmony_db.Base.{
  ℕ, ◌<◌, ◌≡◌, ◌≢◌, refl, ◌∙◌, true, false, some, List, [], ◌∷◌, ◌==◌, leb, arith, if◌then◌else◌,
  Bool-cases, inl, inr, All, ◌>>=◌,
}
use harmony_db.Base.Maps
use harmony_db.Base.Maps.{Map, get-put}
use harmony_db.Wait.{is_closed}
use harmony_db.WaitTime.{close_chan, wake}

abbrev pub OtherThan : ℕ → ℕ × ℕ → Type 0
OtherThan c e = e.1 ≢ c

abbrev pub IsOpen : List ℕ → ℕ × ℕ → Type 0
IsOpen closed e = is_closed e.1 closed ≡ false

abbrev pub IsMade : ℕ → ℕ × ℕ → Type 0
IsMade limit e = e.1 < limit

abbrev pub Distinct : Map ℕ → Type 0
Distinct [] = Unit
Distinct (e ∷ m) = All (OtherThan e.1) m × Distinct m

-- What `Trigger` leaves of the map, and the channels that are closed after it.
unfoldable pub later : ℕ → Map ℕ → Map ℕ
later limit [] = []
later limit (e ∷ m) = let rest = later limit m in if leb e.0 limit then rest else e ∷ rest

unfoldable pub shut : ℕ → Map ℕ → List ℕ → List ℕ
shut limit [] closed = closed
shut limit (e ∷ m) closed = shut limit m (if leb e.0 limit then e.1 ∷ closed else closed)

still-IsOpen :
    (c : ℕ) (closed : List ℕ) (m : Map ℕ)
    → All (IsOpen closed) m
    → All (OtherThan c) m
    → All (IsOpen (c ∷ closed)) m
unfolding is_closed
still-IsOpen c closed [] h k = tt
still-IsOpen c closed (e ∷ m) h k = (ground (arith, h.0, k.0), still-IsOpen c closed m h.1 k.1)

pub wake-shut :
    (limit : ℕ) (m : Map ℕ) (closed : List ℕ)
    → All (IsOpen closed) m
    → Distinct m
    → wake limit m closed ≡ some (later limit m, shut limit m closed)
unfolding wake later shut close_chan
wake-shut limit [] closed h d = refl
wake-shut limit (e ∷ m) closed h d = elim (Bool-cases (leb e.0 limit)) [
  | inl due ↦
      let ih = wake-shut limit m (e.1 ∷ closed) (still-IsOpen e.1 closed m h.1 d.0) d.1 in
      rw (due, wake, h.0, close_chan, ◌>>=◌) ih
  | inr not_due ↦ let ih = wake-shut limit m closed h.1 d.1 in rw (not_due, wake, ih, ◌>>=◌) refl
]

pub is_closed-shut :
    (x limit : ℕ) (m : Map ℕ) (closed : List ℕ)
    → All (OtherThan x) m
    → is_closed x (shut limit m closed) ≡ is_closed x closed
unfolding is_closed shut
is_closed-shut x limit [] closed h = refl
is_closed-shut x limit (e ∷ m) closed h =
    is_closed-shut x limit m (if leb e.0 limit then e.1 ∷ closed else closed) h.1
    ∙ ground (arith, h.0)

pub closed_own :
    (d c limit : ℕ) (m : Map ℕ) (closed : List ℕ)
    → Maps.get d m ≡ some c
    → All (IsOpen closed) m
    → Distinct m
    → is_closed c (shut limit m closed) ≡ leb d limit
unfolding is_closed shut Maps.get
closed_own d c limit [] closed e h k = absurd (ground arith)
closed_own d c limit ((j, ch) ∷ m) closed e h k = elim (Bool-cases (j == d)) [
  | inl same ↦
      let p : ch ≡ c = ground (arith, same, e) in
      let rest = is_closed-shut ch limit m (if leb j limit then ch ∷ closed else closed) k.0 in
      ground (arith, p, rest, h.0, same)
  | inr other ↦
      let there : Maps.get d m ≡ some c = ground (arith, other, e) in
      elim (Bool-cases (leb j limit)) [
        | inl due ↦
            rw (due, shut)
              (closed_own d c limit m (ch ∷ closed) there (still-IsOpen ch closed m h.1 k.0) k.1)
        | inr not_due ↦ rw (not_due, shut) (closed_own d c limit m closed there h.1 k.1)
      ]
]

pub later-All : (P : ℕ × ℕ → Type 0) (limit : ℕ) (m : Map ℕ) → All P m → All P (later limit m)
unfolding later
later-All P limit [] h = tt
later-All P limit (e ∷ m) h = elim (Bool-cases (leb e.0 limit)) [
  | inl due ↦ rw (due, later) (later-All P limit m h.1)
  | inr not_due ↦ rw (not_due, later) (h.0, later-All P limit m h.1)
]

pub later-Distinct : (limit : ℕ) (m : Map ℕ) → Distinct m → Distinct (later limit m)
unfolding later
later-Distinct limit [] h = tt
later-Distinct limit (e ∷ m) h = elim (Bool-cases (leb e.0 limit)) [
  | inl due ↦ rw (due, later) (later-Distinct limit m h.1)
  | inr not_due ↦
      rw (not_due, later) (later-All (OtherThan e.1) limit m h.0, later-Distinct limit m h.1)
]

pub later-IsOpen :
    (limit : ℕ) (m : Map ℕ) (closed : List ℕ)
    → All (IsOpen closed) m
    → Distinct m
    → All (IsOpen (shut limit m closed)) (later limit m)
unfolding later shut
later-IsOpen limit [] closed h d = tt
later-IsOpen limit (e ∷ m) closed h d = elim (Bool-cases (leb e.0 limit)) [
  | inl due ↦
      rw (due, later, shut)
        (later-IsOpen limit m (e.1 ∷ closed) (still-IsOpen e.1 closed m h.1 d.0) d.1)
  | inr not_due ↦
      rw (not_due, later, shut)
        (is_closed-shut e.1 limit m closed d.0 ∙ h.0, later-IsOpen limit m closed h.1 d.1)
]

pub shut_made :
    (x limit bound : ℕ) (m : Map ℕ) (closed : List ℕ)
    → All (IsMade bound) m
    → (is_closed x closed ≡ true → x < bound)
    → is_closed x (shut limit m closed) ≡ true
    → x < bound
unfolding is_closed shut
shut_made x limit bound [] closed h k e = k e
shut_made x limit bound (p ∷ m) closed h k e =
    shut_made x limit bound m (if leb p.0 limit then p.1 ∷ closed else closed) h.1
      (λ q. ground (arith, h.0, k)) e

pub shut_keeps :
    (x limit : ℕ) (m : Map ℕ) (closed : List ℕ)
    → is_closed x closed ≡ true
    → is_closed x (shut limit m closed) ≡ true
unfolding is_closed shut
shut_keeps x limit [] closed e = e
shut_keeps x limit (p ∷ m) closed e =
    shut_keeps x limit m (if leb p.0 limit then p.1 ∷ closed else closed) (ground (arith, e))
