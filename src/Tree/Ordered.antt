-- ===== src/Tree/Ordered.antt =====
-- Pairs in the ascending order of their keys, as a leaf holds them (node.go).
use Prim.Native.Nat.{Ordering}
use harmony_db.Base.{
  ℕ, zero, suc, ◌≡◌, ◌≢◌, refl, sym, subst, false, some, List, [], ◌∷◌, ◌++◌, arith, All, map,
  get_elem?, take, drop, Bool-cases, inl, inr, ◌⊎◌, if◌then◌else◌,
}
use harmony_db.Tree.Page.{Key, compare_bytes, bytes_equal}
use harmony_db.Tree.Order.{
  IsSorted, Less, lower_bound, compare_trans, lt_of_gt, eq_of_compare, bytes_equal_iff,
}
use harmony_db.Tree.Pairs.{Pair}
use harmony_db.Tree.Search.{Ordering-cases}
use harmony_db.Tree.Store.{Found, value, key_not_found}
use harmony_db.Tree.Lookup.{unequal, not_both, if_swap}

abbrev pub keys : List Pair → List Key
keys ps = map (λ p. p.0) ps

-- What a key is bound to.
abbrev pub lookup : Key → List Pair → Found
lookup k [] = key_not_found
lookup k (p ∷ ps) = let rest = lookup k ps in if bytes_equal p.0 k then value p.1 else rest

-- A new pair at its place.
abbrev pub place : Pair → List Pair → List Pair
place p ps = take (lower_bound p.0 (keys ps)) ps ++ (p ∷ drop (lower_bound p.0 (keys ps)) ps)

missing-head :
    (k : Key) (p : Pair) (ps : List Pair)
    → lookup k (p ∷ ps) ≡ key_not_found
    → (bytes_equal p.0 k ≡ false) × (lookup k ps ≡ key_not_found)
missing-head k p ps h = elim (Bool-cases (bytes_equal p.0 k)) [
  | inl e ↦ absurd (ground (arith, e, h))
  | inr e ↦ (e, ground (arith, e, h))
]

place-nil : (p : Pair) → place p [] ≡ p ∷ []
unfolding lower_bound
place-nil p = refl

-- Where a new key stands relative to the first one.
place_cases :
    (p q : Pair) (ps : List Pair)
    → bytes_equal q.0 p.0 ≡ false
    → ((Less q.0 p.0) × (place p (q ∷ ps) ≡ q ∷ place p ps))
      ⊎ ((Less p.0 q.0) × (place p (q ∷ ps) ≡ p ∷ q ∷ ps))
unfolding lower_bound
place_cases p q ps h = elim (Ordering-cases (compare_bytes p.0 q.0)) [
  | inl e ↦ let z : lower_bound p.0 (keys (q ∷ ps)) ≡ 0 = ground (arith, e) in inr (e, rw z refl)
  | inr (inl e) ↦
      let same = (bytes_equal_iff q.0 p.0).1 (sym (eq_of_compare p.0 q.0 e)) in
      absurd (ground (arith, h, same))
  | inr (inr e) ↦
      let z : lower_bound p.0 (keys (q ∷ ps)) ≡ suc (lower_bound p.0 (keys ps)) =
        ground (arith, e) in
      inl (lt_of_gt p.0 q.0 e, rw z refl)
]

pub place-All :
    (P : Key → Type 0) (p : Pair) (ps : List Pair)
    → lookup p.0 ps ≡ key_not_found
    → P p.0
    → All P (keys ps)
    → All P (keys (place p ps))
place-All P p [] n h a = rw (place-nil p) (h, tt)
place-All P p (q ∷ ps) n h a =
    let (apart, absent) = missing-head p.0 q ps n in
    elim (place_cases p q ps apart) [
      | inl (below, e) ↦ rw e (a.0, place-All P p ps absent h a.1)
      | inr (above, e) ↦ rw e (h, a)
    ]

Less-All : (a b : Key) (ks : List Key) → Less a b → All (Less b) ks → All (Less a) ks
Less-All a b [] h k = tt
Less-All a b (c ∷ ks) h k = (compare_trans a b c h k.0, Less-All a b ks h k.1)

pub place-IsSorted :
    (p : Pair) (ps : List Pair)
    → lookup p.0 ps ≡ key_not_found
    → IsSorted (keys ps)
    → IsSorted (keys (place p ps))
place-IsSorted p [] n s = rw (place-nil p) (tt, tt)
place-IsSorted p (q ∷ ps) n s =
    let (apart, absent) = missing-head p.0 q ps n in
    elim (place_cases p q ps apart) [
      | inl (below, e) ↦
          rw e (place-All (Less q.0) p ps absent below s.0, place-IsSorted p ps absent s.1)
      | inr (above, e) ↦ rw e ((above, Less-All p.0 q.0 (keys ps) above s.0), s)
    ]

pub lookup-place :
    (p : Pair) (ps : List Pair) (k : Key)
    → lookup p.0 ps ≡ key_not_found
    → lookup k (place p ps) ≡ (if bytes_equal p.0 k then value p.1 else lookup k ps)
lookup-place p [] k n = rw (place-nil p) refl
lookup-place p (q ∷ ps) k n =
    let (apart, absent) = missing-head p.0 q ps n in
    elim (place_cases p q ps apart) [
      | inl (below, e) ↦
          rw (e, lookup-place p ps k absent)
            (if_swap (bytes_equal q.0 k) (bytes_equal p.0 k) _ _ _ (not_both q.0 p.0 k apart))
      | inr (above, e) ↦ rw e refl
    ]

-- A key that is not below the one at place `i` is not bound in front of it.
pub lookup-drop :
    (ps : List Pair) (i : ℕ) (p : Pair) (k : Key)
    → IsSorted (keys ps)
    → get_elem? ps i ≡ some p
    → compare_bytes k p.0 ≢ Ordering.lt
    → lookup k (drop i ps) ≡ lookup k ps
lookup-drop [] i p k s e n = absurd (ground (arith, e))
lookup-drop (q ∷ ps) zero p k s e n = refl
lookup-drop (q ∷ ps) (suc i) p k s e n =
    rw
      (unequal q.0 k
        (λ same. n (subst (λ x. compare_bytes x p.0 ≡ Ordering.lt) same (below ps i s.0 e))))
      (lookup-drop ps i p k s.1 e n)
  where
    below :
        (rs : List Pair) (j : ℕ)
        → All (Less q.0) (keys rs)
        → get_elem? rs j ≡ some p
        → compare_bytes q.0 p.0 ≡ Ordering.lt
    below [] j a f = absurd (ground (arith, f))
    below (r ∷ rs) zero a f =
        let same : r ≡ p = cc in subst (λ x. compare_bytes q.0 x.0 ≡ Ordering.lt) same a.0
    below (r ∷ rs) (suc j) a f = below rs j a.1 f
