-- ===== src/Tree/Search.antt =====
-- The binary search of node.go against a linear one.
use Prim.Native.Nat.{Ordering}
use harmony_db.Base.{
  ℕ, zero, suc, ◌+◌, ◌-◌, ◌/◌, ◌^◌, ◌≤◌, ◌<◌, ◌≡◌, ◌≢◌, refl, sym, ◌∙◌, ap, true, false, some, List,
  [], ◌∷◌, arith, length, get_elem?, ltb, ltb→lt, Bool-cases, ◌⊎◌, subst, inl, inr, ◌>>=◌,
}
use harmony_db.Tree.Page.{Key, Node, compare_bytes, key_at, bisect, find_ins_point_for_key, u16}
use harmony_db.Tree.Order.{
  IsSorted, lower_bound, lower_bound-le-length, lower_bound-le, lt-lower_bound, lower_bound_at,
  eq_of_compare,
}

-- `ks` are the keys of the page in the order of its offsets; there are few enough for a uint16.
pub record HasKeys (n : Node) (ks : List Key) : Type 0 where
  pub count : length n.offsets ≡ length ks
  pub fits : length ks < 2 ^ 16
  pub keys : (i : ℕ) (k : Key) → get_elem? ks i ≡ some k → key_at n i ≡ some k

get_elem?-total : (ks : List Key) (i : ℕ) → i < length ks → (k : Key) × (get_elem? ks i ≡ some k)
get_elem?-total [] i h = absurd (omega arith)
get_elem?-total (x ∷ ks) zero h = (x, refl)
get_elem?-total (x ∷ ks) (suc i) h = get_elem?-total ks i (omega arith)

pub Ordering-cases : (o : Ordering) → (o ≡ Ordering.lt) ⊎ ((o ≡ Ordering.eq) ⊎ (o ≡ Ordering.gt))
Ordering-cases Ordering.lt = inl refl
Ordering-cases Ordering.eq = inr (inl refl)
Ordering-cases Ordering.gt = inr (inr refl)

Ordering-lt-ne-gt : Ordering.lt ≢ Ordering.gt
Ordering-lt-ne-gt e = cc

bisect-below :
    (fuel : ℕ) (n : Node) (key : Key) (low high : ℕ) (k : Key)
    → ltb low high ≡ true
    → key_at n (low + (high - 1 - low) / 2) ≡ some k
    → compare_bytes key k ≡ Ordering.lt
    → bisect (suc fuel) n key low high ≡ bisect fuel n key low (low + (high - 1 - low) / 2)
unfolding bisect
bisect-below fuel n key low high k go read o = rw (go, bisect, read, ◌>>=◌, o) refl

bisect-same :
    (fuel : ℕ) (n : Node) (key : Key) (low high : ℕ) (k : Key)
    → ltb low high ≡ true
    → key_at n (low + (high - 1 - low) / 2) ≡ some k
    → compare_bytes key k ≡ Ordering.eq
    → bisect (suc fuel) n key low high ≡ some (u16 (low + (high - 1 - low) / 2))
unfolding bisect
bisect-same fuel n key low high k go read o = rw (go, bisect, read, ◌>>=◌, o) refl

bisect-above :
    (fuel : ℕ) (n : Node) (key : Key) (low high : ℕ) (k : Key)
    → ltb low high ≡ true
    → key_at n (low + (high - 1 - low) / 2) ≡ some k
    → compare_bytes key k ≡ Ordering.gt
    → bisect (suc fuel) n key low high ≡ bisect fuel n key (low + (high - 1 - low) / 2 + 1) high
unfolding bisect
bisect-above fuel n key low high k go read o = rw (go, bisect, read, ◌>>=◌, o) refl

u16_small : (i : ℕ) → i < 2 ^ 16 → u16 i ≡ i
u16_small i h = omega arith

bisect-done :
    (fuel : ℕ) (n : Node) (key : Key) (low high : ℕ)
    → ltb low high ≡ false
    → bisect (suc fuel) n key low high ≡ some (u16 low)
unfolding bisect
bisect-done fuel n key low high done = rw (done, bisect) refl

bisect-lower_bound :
    (n : Node) (ks : List Key) (key : Key)
    → HasKeys n ks
    → IsSorted ks
    → (fuel low high : ℕ) → low ≤ lower_bound key ks
    → lower_bound key ks ≤ high
    → high ≤ length ks
    → high - low < fuel
    → bisect fuel n key low high ≡ some (lower_bound key ks)
bisect-lower_bound n ks key h s zero low high p q r f = absurd (omega arith)
bisect-lower_bound n ks key h s (suc fuel) low high p q r f = elim (Bool-cases (ltb low high)) [
  | inr done ↦
      let e : low ≡ lower_bound key ks = ground arith in
      let len = h.fits in
      let small : low < 2 ^ 16 = omega arith in
      bisect-done fuel n key low high done ∙ ap some (u16_small low small ∙ e)
  | inl go ↦
      let lt = ltb→lt low high go in
      let mid = low + (high - 1 - low) / 2 in
      let (k, at) = get_elem?-total ks mid (omega arith) in
      let read = h.keys mid k at in
      elim (Ordering-cases (compare_bytes key k)) [
        | inl o ↦
            bisect-below fuel n key low high k go read o
            ∙ bisect-lower_bound n ks key h s fuel low mid p
                (lower_bound-le key ks mid k at (λ g. Ordering-lt-ne-gt (sym o ∙ g))) (omega arith)
                (omega arith)
        | inr (inl o) ↦
            let there : get_elem? ks mid ≡ some key =
              subst (λ x. get_elem? ks mid ≡ some x) (sym (eq_of_compare key k o)) at in
            let e = lower_bound_at key ks mid s there in
            let len = h.fits in
            let small : mid < 2 ^ 16 = omega arith in
            bisect-same fuel n key low high k go read o ∙ ap some (u16_small mid small ∙ sym e)
        | inr (inr o) ↦
            let x = lt-lower_bound key ks mid k s at o in
            bisect-above fuel n key low high k go read o
            ∙ bisect-lower_bound n ks key h s fuel (mid + 1) high (omega arith) q r (omega arith)
      ]
]

-- On a page of fewer than 2^16 offsets with strictly ascending keys the binary search returns, and
-- with the place that a search from the left finds: the number of keys below `key`. In particular
-- no index is out of range.
pub find_ins_point-lower_bound :
    (n : Node) (ks : List Key) (key : Key)
    → HasKeys n ks
    → IsSorted ks
    → find_ins_point_for_key key n ≡ some (lower_bound key ks)
unfolding find_ins_point_for_key
find_ins_point-lower_bound n ks key h s = rw h.count (
    bisect-lower_bound n ks key h s (suc (length ks)) 0 (length ks) (omega arith)
      (lower_bound-le-length key ks) (omega arith) (omega arith))
