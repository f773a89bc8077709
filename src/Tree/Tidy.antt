-- ===== src/Tree/Tidy.antt =====
-- Leaves of node.go whose cells are all named by an offset, in the ascending order of their keys: an
-- insertion keeps them so.
use harmony_db.Base.{
  ℕ, zero, suc, ◌^◌, ◌≤◌, ◌<◌, ◌≡◌, refl, sym, ◌∙◌, ap, subst, true, none, some, List, [], ◌∷◌,
  ◌++◌, arith, length, length-append, get_elem?, take, drop, take_of_length-le, drop_of_length-le,
  Bool-cases, Option-cases, inl, inr, if◌then◌else◌, ◌==◌, ◌>>=◌,
}
use harmony_db.Tree.Page.{
  Key, Node, LeafCell, u16, make_cell, insert_at, insert_leaf_cell, key_at, cell_key, find_cell,
  find_ins_point_for_key,
}
use harmony_db.Tree.Order.{IsSorted, lower_bound, lower_bound-le-length}
use harmony_db.Tree.Search.{HasKeys, find_ins_point-lower_bound}
use harmony_db.Tree.Pairs.{
  Pair, pairs_of, first_pair, get_elem?-end, pairs_of-cons, pairs_of-grow, pairs_of-append,
  pairs_of-take, length-pairs_of,
}
use harmony_db.Tree.Store.{value, key_not_found, found_in}
use harmony_db.Tree.Lookup.{found_in-append}
use harmony_db.Tree.Ordered.{keys, lookup, place, place-IsSorted, lookup-place}

pub record IsTidy (pg : Node) (ps : List Pair) : Type 0 where
  pub leaf : pg.is_leaf ≡ true
  pub holds : pairs_of pg.leaf_cell pg.offsets ≡ some ps
  pub counts : length pg.offsets ≡ length pg.leaf_cell
  pub sorted : IsSorted (keys ps)
  pub finds : (k : Key) → found_in k pg.leaf_cell ≡ lookup k ps

length-keys : (ps : List Pair) → length (keys ps) ≡ length ps
length-keys [] = refl
length-keys (p ∷ ps) = ap suc (length-keys ps)

pub key_at_place :
    (pg : Node) (o : ℕ) (i : ℕ) (c : LeafCell)
    → pg.is_leaf ≡ true
    → get_elem? pg.offsets i ≡ some o
    → get_elem? pg.leaf_cell o ≡ some c
    → key_at pg i ≡ some c.key
unfolding key_at
key_at_place pg o i c leaf e found = rw (key_at, e, ◌>>=◌, cell_key, leaf, found) refl

-- The offset and the cell of a key.
pub named :
    (cs : List LeafCell) (os : List ℕ) (ps : List Pair) (i : ℕ) (k : Key)
    → pairs_of cs os ≡ some ps
    → get_elem? (keys ps) i ≡ some k
    → (o : ℕ) × (c : LeafCell) × (get_elem? os i ≡ some o) × (get_elem? cs o ≡ some c) × (c.key ≡ k)
named cs [] ps i k h e =
    let q : ps ≡ [] = unfold pairs_of in cc in
    let r : get_elem? (keys []) i ≡ some k = subst (λ x. get_elem? (keys x) i ≡ some k) q e in
    absurd (ground (arith, r))
named cs (o ∷ os) ps zero k h e =
    let f = first_pair cs o os ps h in
    let r : some f.cell.key ≡ some k = subst (λ x. get_elem? (keys x) 0 ≡ some k) f.all e in
    (o, f.cell, refl, f.found, cc)
named cs (o ∷ os) ps (suc i) k h e =
    let f = first_pair cs o os ps h in
    named cs os f.others i k f.rest (subst (λ x. get_elem? (keys x) (suc i) ≡ some k) f.all e)

IsTidy-HasKeys :
    (pg : Node) (ps : List Pair) → length ps < 2 ^ 16 → IsTidy pg ps → HasKeys pg (keys ps)
IsTidy-HasKeys pg ps few h = record {
  count = sym (length-keys ps ∙ length-pairs_of pg.leaf_cell pg.offsets ps h.holds);
  fits = omega (arith, length-keys ps);
  keys = λ i k e.
      let (o, c, at_i, found, same) = named pg.leaf_cell pg.offsets ps i k h.holds e in
      key_at_place pg o i c h.leaf at_i found ∙ ap some same;
}

pub find_ins_point-IsTidy :
    (pg : Node) (ps : List Pair) (k : Key)
    → length ps < 2 ^ 16
    → IsTidy pg ps
    → find_ins_point_for_key k pg ≡ some (lower_bound k (keys ps))
find_ins_point-IsTidy pg ps k few h =
    find_ins_point-lower_bound pg (keys ps) k (IsTidy-HasKeys pg ps few h) h.sorted

pub find_cell-IsTidy :
    (pg : Node) (ps : List Pair) (k : Key)
    → IsTidy pg ps
    → lookup k ps ≡ key_not_found
    → find_cell k pg.leaf_cell ≡ none
unfolding found_in
find_cell-IsTidy pg ps k h absent = elim (Option-cases (find_cell k pg.leaf_cell)) [
  | inl e ↦ e
  | inr (c, e) ↦
      let q : found_in k pg.leaf_cell ≡ value c.val = rw (found_in, e) refl in
      absurd (ground (arith, sym q ∙ h.finds k ∙ absent))
]

pub length-inserted {ℓ} :
    {A : Type ℓ}
    → (o : ℕ) (x : A) (os : List A) → length (take o os ++ (x ∷ drop o os)) ≡ suc (length os)
length-inserted zero x os = refl
length-inserted (suc o) x [] = refl
length-inserted (suc o) x (y ∷ os) = ap suc (length-inserted o x os)

-- Where the new offset stands, also if it is appended.
inserted_offsets :
    (o n : ℕ) (os : List ℕ)
    → length os ≡ n
    → o ≤ n
    → n < 2 ^ 16
    → (if o == u16 n then os ++ (o ∷ []) else insert_at o (u16 n) os) ≡ take o os ++ (n ∷ drop o os)
unfolding insert_at
inserted_offsets o n os len le few =
    let small : u16 n ≡ n = omega arith in
    rw small (elim (Bool-cases (o == n)) [
      | inl e ↦
          let same : o ≡ n = ground arith in
          rw (e, same, take_of_length-le n os (omega arith), drop_of_length-le n os (omega arith))
            refl
      | inr e ↦ rw e refl
    ])

pub insert-IsTidy :
    (pg : Node) (ps : List Pair) (k : Key) (v : List ℕ)
    → length ps < 2 ^ 16
    → lookup k ps ≡ key_not_found
    → IsTidy pg ps
    → IsTidy (insert_leaf_cell (lower_bound k (keys ps)) k v pg) (place (k, v) ps)
unfolding insert_leaf_cell
insert-IsTidy pg ps k v few absent h = record {
  leaf = h.leaf;
  holds = rw offsets (
      pairs_of-append more (take o pg.offsets) (n ∷ drop o pg.offsets) (take o ps)
        ((k, v) ∷ drop o ps)
        (pairs_of-grow pg.leaf_cell (c ∷ []) (take o pg.offsets) (take o ps) parts.0)
        (pairs_of-cons more n (drop o pg.offsets) c (drop o ps) (get_elem?-end pg.leaf_cell c)
          (pairs_of-grow pg.leaf_cell (c ∷ []) (drop o pg.offsets) (drop o ps) parts.1)));
  counts = rw offsets (
      length-inserted o n pg.offsets
      ∙ rw h.counts (omega (arith, length-append pg.leaf_cell (c ∷ []))));
  sorted = place-IsSorted (k, v) ps absent h.sorted;
  finds = λ k'.
      found_in-append k k' v pg.leaf_cell (find_cell-IsTidy pg ps k h absent)
      ∙ rw (h.finds k') (sym (lookup-place (k, v) ps k' absent));
}
  where
    n : ℕ
    n = length pg.leaf_cell

    o : ℕ
    o = lower_bound k (keys ps)

    c : LeafCell
    c = make_cell k v

    more : List LeafCell
    more = pg.leaf_cell ++ (c ∷ [])

    parts :
        (pairs_of pg.leaf_cell (take o pg.offsets) ≡ some (take o ps))
        × (pairs_of pg.leaf_cell (drop o pg.offsets) ≡ some (drop o ps))
    parts = pairs_of-take pg.leaf_cell pg.offsets ps o h.holds

    count : length ps ≡ length pg.offsets
    count = length-pairs_of pg.leaf_cell pg.offsets ps h.holds

    offsets :
        (if o == u16 n then pg.offsets ++ (o ∷ []) else insert_at o (u16 n) pg.offsets)
        ≡ take o pg.offsets ++ (n ∷ drop o pg.offsets)
    offsets =
        inserted_offsets o n pg.offsets h.counts
          (omega (arith, lower_bound-le-length k (keys ps), length-keys ps, count, h.counts))
          (omega (arith, count, h.counts))
