-- ===== src/Cluster/Quorum.antt =====
-- Two quorums of a cluster have a node in common.
use harmony_db.Base.{
  ℕ, suc, ◌≤◌, ◌≡◌, ◌≢◌, refl, ◌⊎◌, inl, inr, Bool, true, false, List, [], ◌∷◌, ◌++◌, arith, All,
  All-append, length, length-append, ◌==◌, if◌then◌else◌, Bool-cases, subst,
}
use harmony_db.Base.Maps.{Map}
use harmony_db.Node.{is_member}
use harmony_db.Raft.Vote.{count_granted}
use harmony_db.Raft.Tally.{Votes, DistinctKeys, Won}

abbrev pub Distinct : List ℕ → Type 0
Distinct [] = Unit
Distinct (x ∷ xs) = (is_member x xs ≡ false) × Distinct xs

without : ℕ → List ℕ → List ℕ
without x [] = []
without x (y ∷ ys) = if y == x then ys else y ∷ without x ys

length-without :
    (x : ℕ) (ys : List ℕ) → is_member x ys ≡ true → length ys ≡ suc (length (without x ys))
unfolding without is_member
length-without x [] h = absurd (ground (arith, h))
length-without x (y ∷ ys) h = ground (arith, length-without x ys, h)

is_member-without :
    (x z : ℕ) (ys : List ℕ)
    → is_member z ys ≡ true
    → (z == x) ≡ false
    → is_member z (without x ys) ≡ true
unfolding without is_member
is_member-without x z [] h n = absurd (ground (arith, h))
is_member-without x z (y ∷ ys) h n = ground (arith, is_member-without x z ys, h, n)

abbrev Within : List ℕ → List ℕ → Type 0
Within ys xs = All (λ x. is_member x ys ≡ true) xs

Within-without :
    (x : ℕ) (xs ys : List ℕ) → is_member x xs ≡ false → Within ys xs → Within (without x ys) xs
unfolding is_member
Within-without x [] ys n h = tt
Within-without x (z ∷ xs) ys n h = (
  is_member-without x z ys h.0 (ground (arith, n)),
  Within-without x xs ys (ground (arith, n)) h.1,
)

-- Distinct members are at most as many as the list has places.
length-Distinct : (xs ys : List ℕ) → Distinct xs → Within ys xs → length xs ≤ length ys
length-Distinct [] ys d h = omega arith
length-Distinct (x ∷ xs) ys d h = omega (
  arith,
  length-without x ys h.0,
  length-Distinct xs (without x ys) d.1 (Within-without x xs ys d.0 h.1),
)

is_member-append :
    (x : ℕ) (xs ys : List ℕ)
    → is_member x xs ≡ false
    → is_member x ys ≡ false
    → is_member x (xs ++ ys) ≡ false
unfolding is_member
is_member-append x [] ys h k = k
is_member-append x (z ∷ xs) ys h k = ground (arith, is_member-append x xs ys, h, k)

-- Two lists without repetition share a member, or are one list without repetition.
shared :
    (xs ys : List ℕ)
    → Distinct xs
    → Distinct ys
    → ((p : ℕ) × (is_member p xs ≡ true) × (is_member p ys ≡ true)) ⊎ Distinct (xs ++ ys)
unfolding is_member
shared [] ys d e = inr e
shared (x ∷ xs) ys d e = elim (Bool-cases (is_member x ys)) [
  | inl both ↦ inl (x, ground arith, both)
  | inr apart ↦ elim (shared xs ys d.1 e) [
    | inl (p, a, b) ↦ inl (p, ground (arith, a), b)
    | inr rest ↦ inr (is_member-append x xs ys d.0 apart, rest)
  ]
]

-- The nodes with a granted vote.
granted : Map Bool → List ℕ
granted [] = []
granted ((p, true) ∷ m) = p ∷ granted m
granted ((p, false) ∷ m) = granted m

length-granted : (m : Map Bool) → length (granted m) ≡ count_granted m
unfolding granted count_granted
length-granted [] = refl
length-granted ((p, true) ∷ m) = omega (arith, length-granted m)
length-granted ((p, false) ∷ m) = length-granted m

not_granted : (x : ℕ) (m : Map Bool) → All (λ e. e.0 ≢ x) m → is_member x (granted m) ≡ false
unfolding granted is_member
not_granted x [] h = refl
not_granted x ((p, true) ∷ m) h = ground (arith, not_granted x m h.1, h.0)
not_granted x ((p, false) ∷ m) h = not_granted x m h.1

granted-Distinct : (m : Map Bool) → DistinctKeys m → Distinct (granted m)
unfolding granted
granted-Distinct [] h = tt
granted-Distinct ((p, true) ∷ m) h = (not_granted p m h.0, granted-Distinct m h.1)
granted-Distinct ((p, false) ∷ m) h = granted-Distinct m h.1

granted-cast : (P : ℕ → Type 0) (m : Map Bool) → All (λ e. e.1 ≡ true → P e.0) m → All P (granted m)
unfolding granted
granted-cast P [] h = tt
granted-cast P ((p, true) ∷ m) h = (h.0 refl, granted-cast P m h.1)
granted-cast P ((p, false) ∷ m) h = granted-cast P m h.1

All-is_member : (P : ℕ → Type 0) (p : ℕ) (xs : List ℕ) → All P xs → is_member p xs ≡ true → P p
unfolding is_member
All-is_member P p [] h e = absurd (ground (arith, e))
All-is_member P p (x ∷ xs) h e = elim (Bool-cases (x == p)) [
  | inl same ↦ let q : x ≡ p = ground arith in subst P q h.0
  | inr other ↦ All-is_member P p xs h.1 (ground (arith, e, other))
]

module _ (V : Votes) (members : List ℕ)
    (inside : (p t c : ℕ) → V p t c → is_member p members ≡ true) where
  -- Two candidates that have won a term with more than half of the members each have one voter in
  -- common.
  pub Won-shared :
      (i j t : ℕ)
      → Won V i (length members) t
      → Won V j (length members) t
      → (p : ℕ) × V p t i × V p t j
  Won-shared i j t a b =
      elim (shared xs ys (granted-Distinct a.votes a.tally.distinct)
        (granted-Distinct b.votes b.tally.distinct)) [
          | inl (p, u, v) ↦ (p, All-is_member _ p xs first u, All-is_member _ p ys second v)
          | inr apart ↦ absurd (too_many apart)
        ]
    where
      xs : List ℕ
      xs = granted a.votes

      ys : List ℕ
      ys = granted b.votes

      first : All (λ p. V p t i) xs
      first = granted-cast _ a.votes a.tally.cast

      second : All (λ p. V p t j) ys
      second = granted-cast _ b.votes b.tally.cast

      within : (c : ℕ) (zs : List ℕ) → All (λ p. V p t c) zs → Within members zs
      within c [] h = tt
      within c (z ∷ zs) h = (inside z t c h.0, within c zs h.1)

      too_many : Distinct (xs ++ ys) → ⊥
      too_many apart = omega (
        arith,
        a.enough,
        b.enough,
        length-granted a.votes,
        length-granted b.votes,
        length-append xs ys,
        length-Distinct (xs ++ ys) members apart
            (All-append _ xs ys (within i xs first) (within j ys second)),
      )
