-- ===== src/Tree/Order.antt =====
-- `bytes.Compare` orders the keys of node.go linearly.
use Prim.Native.Nat.{Ordering}
use harmony_db.Base.{
  ℕ, zero, suc, ◌≡◌, ◌≢◌, ◌↔◌, refl, true, List, [], ◌∷◌, arith, some, All, length, get_elem?, ◌≤◌,
  ◌<◌, subst,
}
use harmony_db.Tree.Page.{Key, compare_bytes, bytes_equal}

pub compare_bytes_refl : (a : Key) → compare_bytes a a ≡ Ordering.eq
unfolding compare_bytes
compare_bytes_refl [] = refl
compare_bytes_refl (x ∷ a) = ground (arith, compare_bytes_refl a)

pub eq_of_compare : (a b : Key) → compare_bytes a b ≡ Ordering.eq → a ≡ b
unfolding compare_bytes
eq_of_compare [] [] h = refl
eq_of_compare [] (y ∷ b) h = cc
eq_of_compare (x ∷ a) [] h = cc
eq_of_compare (x ∷ a) (y ∷ b) h = ground (arith, eq_of_compare a b)

pub lt_of_gt : (a b : Key) → compare_bytes a b ≡ Ordering.gt → compare_bytes b a ≡ Ordering.lt
unfolding compare_bytes
lt_of_gt [] [] h = cc
lt_of_gt [] (y ∷ b) h = cc
lt_of_gt (x ∷ a) [] h = refl
lt_of_gt (x ∷ a) (y ∷ b) h = ground (arith, lt_of_gt a b)

pub gt_of_lt : (a b : Key) → compare_bytes a b ≡ Ordering.lt → compare_bytes b a ≡ Ordering.gt
unfolding compare_bytes
gt_of_lt [] [] h = cc
gt_of_lt (y ∷ b) [] h = cc
gt_of_lt [] (x ∷ a) h = refl
gt_of_lt (x ∷ a) (y ∷ b) h = ground (arith, gt_of_lt a b)

pub compare_trans :
    (a b c : Key)
    → compare_bytes a b ≡ Ordering.lt
    → compare_bytes b c ≡ Ordering.lt
    → compare_bytes a c ≡ Ordering.lt
unfolding compare_bytes
compare_trans a [] c h k = absurd (below a h)
  where
    below : (a : Key) → compare_bytes a [] ≡ Ordering.lt → ⊥
    below [] e = cc
    below (x ∷ a) e = cc
compare_trans a (y ∷ b) [] h k = cc
compare_trans [] (y ∷ b) (z ∷ c) h k = refl
compare_trans (x ∷ a) (y ∷ b) (z ∷ c) h k = ground (arith, compare_trans a b c)

pub bytes_equal_iff : (a b : Key) → (bytes_equal a b ≡ true) ↔ (a ≡ b)
unfolding bytes_equal
bytes_equal_iff a b = (fwd, bwd)
  where
    fwd : bytes_equal a b ≡ true → a ≡ b
    fwd h = eq_of_compare a b (ground arith)

    bwd : a ≡ b → bytes_equal a b ≡ true
    bwd h = rw h (rw (compare_bytes_refl b, bytes_equal) refl)

-- Strictly ascending keys.
abbrev pub Less : Key → Key → Type 0
Less a b = compare_bytes a b ≡ Ordering.lt

abbrev pub IsSorted : List Key → Type 0
IsSorted [] = Unit
IsSorted (k ∷ ks) = All (Less k) ks × IsSorted ks

-- The number of keys in front of the first that is not below `key`.
unfoldable pub lower_bound : Key → List Key → ℕ
lower_bound key [] = 0
lower_bound key (k ∷ ks) = elim (compare_bytes key k) [
  | Ordering.gt ↦ suc (lower_bound key ks)
  | _ ↦ 0
]

pub All-get_elem? :
    (P : Key → Type 0) (ks : List Key) (i : ℕ) {k : Key} → All P ks → get_elem? ks i ≡ some k → P k
All-get_elem? P [] i h e = absurd (ground arith)
All-get_elem? P (x ∷ ks) zero {k} h e = let q : x ≡ k = cc in subst P q h.0
All-get_elem? P (x ∷ ks) (suc i) h e = All-get_elem? P ks i h.1 e

pub lower_bound-le-length : (key : Key) (ks : List Key) → lower_bound key ks ≤ length ks
unfolding lower_bound
lower_bound-le-length key [] = omega arith
lower_bound-le-length key (k ∷ ks) = ground (arith, lower_bound-le-length key ks)

-- A key that is not above the one at place `i` has its place at or before `i`.
pub lower_bound-le :
    (key : Key) (ks : List Key) (i : ℕ) (k : Key)
    → get_elem? ks i ≡ some k
    → compare_bytes key k ≢ Ordering.gt
    → lower_bound key ks ≤ i
unfolding lower_bound
lower_bound-le key [] i k e h = absurd (ground arith)
lower_bound-le key (x ∷ ks) zero k e h = ground arith
lower_bound-le key (x ∷ ks) (suc i) k e h = ground (arith, lower_bound-le key ks i k e h)

-- In sorted keys, one that is above the key at place `i` has its place behind `i`.
pub lt-lower_bound :
    (key : Key) (ks : List Key) (i : ℕ) (k : Key)
    → IsSorted ks
    → get_elem? ks i ≡ some k
    → compare_bytes key k ≡ Ordering.gt
    → i < lower_bound key ks
unfolding lower_bound
lt-lower_bound key [] i k s e h = absurd (ground arith)
lt-lower_bound key (x ∷ ks) zero k s e h = ground arith
lt-lower_bound key (x ∷ ks) (suc i) k s e h =
    let above = All-get_elem? (Less x) ks i s.0 e in
    let low = compare_trans x k key above (lt_of_gt key k h) in
    ground (arith, gt_of_lt x key low, lt-lower_bound key ks i k s.1 e h)

-- A key that stands at place `i` has its place there.
pub lower_bound_at :
    (key : Key) (ks : List Key) (i : ℕ)
    → IsSorted ks
    → get_elem? ks i ≡ some key
    → lower_bound key ks ≡ i
unfolding lower_bound
lower_bound_at key [] i s e = absurd (ground arith)
lower_bound_at key (x ∷ ks) zero s e =
    let q : x ≡ key = cc in rw q (rw (compare_bytes_refl key, lower_bound) refl)
lower_bound_at key (x ∷ ks) (suc i) s e =
    let above = All-get_elem? (Less x) ks i s.0 e in
    ground (arith, gt_of_lt x key above, lower_bound_at key ks i s.1 e)
