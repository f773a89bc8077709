-- ===== src/Tree/Split.antt =====
-- What a split of a leaf keeps (node.go).
use mathlib.Core.List.{append-nil, append_assoc}
use harmony_db.Base.{
  ℕ, zero, suc, ◌+◌, ◌/◌, ◌^◌, ◌<◌, ◌≡◌, refl, sym, ◌∙◌, ap, subst, true, some, List, [], ◌∷◌, ◌++◌,
  arith, length, length-append, get_elem?, take, drop, length-drop, ◌>>=◌,
}
use harmony_db.Tree.Page.{
  Key, Node, new_node, LeafCell, Split, make_cell, append_leaf_cell, move_leaf, split, key_at,
  cell_key, u16,
}
use harmony_db.Tree.Pairs.{
  Pair, pairs_of, first_pair, get_elem?-end, pairs_of-cons, pairs_of-grow, pairs_of-append,
  pairs_of-take, length-pairs_of,
}

-- A leaf that was filled by appending only holds the pairs `qs`.
record IsFilled (pg : Node) (qs : List Pair) : Type 0 where
  leaf : pg.is_leaf ≡ true
  holds : pairs_of pg.leaf_cell pg.offsets ≡ some qs
  counts : length pg.offsets ≡ length pg.leaf_cell

append-IsFilled :
    (pg : Node) (qs : List Pair) (key : Key) (val : List ℕ)
    → length pg.offsets < 2 ^ 16
    → IsFilled pg qs
    → IsFilled (append_leaf_cell key val pg) (qs ++ ((key, val) ∷ []))
unfolding append_leaf_cell make_cell
append-IsFilled pg qs key val small h =
    let at_end : u16 (length pg.offsets) ≡ length pg.leaf_cell = omega (arith, h.counts) in
    let c = make_cell key val in
    record {
      leaf = h.leaf;
      holds =
          pairs_of-append (pg.leaf_cell ++ (c ∷ [])) pg.offsets _ qs ((key, val) ∷ [])
            (pairs_of-grow pg.leaf_cell (c ∷ []) pg.offsets qs h.holds)
            (pairs_of-cons _ _ [] c [] (rw at_end (get_elem?-end pg.leaf_cell c))
              (unfold pairs_of in refl));
      counts = length-append pg.offsets _ ∙ rw h.counts (sym (length-append pg.leaf_cell (c ∷ [])));
    }

move_leaf-IsFilled :
    (cs : List LeafCell) (os : List ℕ) (pg : Node) (ps qs : List Pair)
    → pairs_of cs os ≡ some ps
    → length pg.offsets + length os < 2 ^ 16
    → IsFilled pg qs
    → (pg' : Node) × (move_leaf cs os pg ≡ some pg') × IsFilled pg' (qs ++ ps)
unfolding move_leaf
move_leaf-IsFilled cs [] pg ps qs h small f =
    let e : ps ≡ [] = unfold pairs_of in cc in (pg, refl, rw e (rw (append-nil qs) f))
move_leaf-IsFilled cs (o ∷ os) pg ps qs h small f =
    let first = first_pair cs o os ps h in
    let c = first.cell in
    let pg1 = append_leaf_cell c.key c.val pg in
    let longer : length pg1.offsets ≡ length pg.offsets + 1 =
      unfold append_leaf_cell in length-append pg.offsets _ in
    let (pg', run, filled) =
      move_leaf-IsFilled cs os pg1 first.others (qs ++ ((c.key, c.val) ∷ [])) first.rest
        (omega (arith, longer)) (append-IsFilled pg qs c.key c.val (omega arith) f) in
    (
      pg',
      rw first.found run,
      rw first.all
          (subst (IsFilled pg') (append_assoc qs ((c.key, c.val) ∷ []) first.others) filled),
    )

pub key_at-first :
    (pg : Node) (o : ℕ) (os : List ℕ) (c : LeafCell)
    → pg.is_leaf ≡ true
    → pg.offsets ≡ o ∷ os
    → get_elem? pg.leaf_cell o ≡ some c
    → key_at pg 0 ≡ some c.key
unfolding key_at
key_at-first pg o os c leaf e found = rw (key_at, e, ◌>>=◌, cell_key, leaf, found) refl

IsFilled-key_at :
    (pg : Node) (p : Pair) (ps : List Pair) → IsFilled pg (p ∷ ps) → key_at pg 0 ≡ some p.0
IsFilled-key_at pg p ps h = go pg.offsets refl
  where
    go : (os : List ℕ) → pg.offsets ≡ os → key_at pg 0 ≡ some p.0
    go [] e =
        let q : pairs_of pg.leaf_cell [] ≡ some (p ∷ ps) =
          subst (λ os. pairs_of pg.leaf_cell os ≡ some (p ∷ ps)) e h.holds in
        absurd (unfold pairs_of in ground (arith, q))
    go (o ∷ os) e =
        let q : pairs_of pg.leaf_cell (o ∷ os) ≡ some (p ∷ ps) =
          subst (λ os. pairs_of pg.leaf_cell os ≡ some (p ∷ ps)) e h.holds in
        let f = first_pair pg.leaf_cell o os (p ∷ ps) q in
        let first : f.cell.key ≡ p.0 = ground (arith, f.all) in
        key_at-first pg o os f.cell h.leaf e f.found ∙ ap some first

drop-nonempty :
    (k : ℕ) (ps : List Pair)
    → k < length ps
    → (p : Pair) × (rest : List Pair) × (drop k ps ≡ p ∷ rest) × (get_elem? ps k ≡ some p)
drop-nonempty k [] h = absurd (omega arith)
drop-nonempty zero (p ∷ ps) h = (p, ps, refl, refl)
drop-nonempty (suc k) (p ∷ ps) h = drop-nonempty k ps (omega arith)

-- The split of a leaf succeeds if it has at least one offset, fewer than 2^16, and each of them
-- names a cell. The old page keeps the first half of its pairs, the new one gets the others, both
-- in their order, and the separator is the first key of the second half.
pub split-pairs :
    (n : Node) (ps : List Pair)
    → n.is_leaf ≡ true
    → pairs_of n.leaf_cell n.offsets ≡ some ps
    → 0 < length n.offsets
    → length n.offsets < 2 ^ 16
    → (s : Split) × (split n new_node ≡ some s)
      × (pairs_of s.old.leaf_cell s.old.offsets ≡ some (take (length n.offsets / 2) ps))
      × (pairs_of s.new.leaf_cell s.new.offsets ≡ some (drop (length n.offsets / 2) ps))
      × ((p : Pair) × (get_elem? ps (length n.offsets / 2) ≡ some p) × (s.separator ≡ p.0))
unfolding split
split-pairs n ps leaf h some_offset few =
    let half = length n.offsets / 2 in
    let parts = pairs_of-take n.leaf_cell n.offsets ps half h in
    let count = length-pairs_of n.leaf_cell n.offsets ps h in
    let (p, rest, cut, first) = drop-nonempty half ps (omega (arith, count)) in
    let empty : Node = record new_node { is_leaf = true } in
    let (pg, run, filled) =
      move_leaf-IsFilled n.leaf_cell (drop half n.offsets) empty (drop half ps) [] parts.1
        (omega (arith, length-drop half n.offsets))
        (record { leaf = refl; holds = unfold pairs_of in refl; counts = refl }) in
    let sep : key_at pg 0 ≡ some p.0 = IsFilled-key_at pg p rest (subst (IsFilled pg) cut filled) in
    let s : Split = record {
      old = record n { offsets = take half n.offsets };
      new = pg;
      separator = p.0;
    } in
    (s, rw (split, leaf, run, ◌>>=◌, sep) refl, parts.0, filled.holds, (p, first, refl))
