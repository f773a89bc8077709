-- ===== src/Tree/Halves.antt =====
-- The two halves of a full leaf (node.go), and the root that btree.go puts over them.
use harmony_db.Base.{
  ℕ, ◌/◌, ◌^◌, ◌<◌, ◌≡◌, refl, sym, ◌∙◌, ap, true, false, Option, Bool, Bool-cases, some,
  some-injective, List, [], ◌∷◌, ◌++◌, arith, map, length, get_elem?, take, drop, inl, inr,
  if◌then◌else◌, bind_some, ◌>>=◌,
}
use mathlib.Core.List.{append-nil, append_assoc}
use harmony_db.Tree.Page.{
  Key, Node, LeafCell, InternalCell, find_cell, Split, new_node, is_at_least, make_cell,
  append_leaf_cell, append_internal_cell, move_leaf, move_internal, split, key_at, find_child_page,
  scan_child,
}
use harmony_db.Tree.Pairs.{Pair, pairs_of, first_pair, pairs_of-take, length-pairs_of}
use harmony_db.Tree.Split.{split-pairs}
use harmony_db.Tree.Store.{found_in}
use harmony_db.Tree.Lookup.{found_in-cons}
use harmony_db.Tree.Ordered.{lookup}
use harmony_db.Tree.Tidy.{IsTidy}

abbrev pub cells_from : List Pair → List LeafCell
cells_from ps = map (λ p. make_cell p.0 p.1) ps

pub found_in-cells_from : (k : Key) (ps : List Pair) → found_in k (cells_from ps) ≡ lookup k ps
unfolding make_cell found_in find_cell
found_in-cells_from k [] = refl
found_in-cells_from k (p ∷ ps) =
    found_in-cons k (make_cell p.0 p.1) (cells_from ps) ∙ rw (found_in-cells_from k ps) refl

move_leaf-cells :
    (cs : List LeafCell) (os : List ℕ) (pg pg' : Node) (ps : List Pair)
    → pairs_of cs os ≡ some ps
    → move_leaf cs os pg ≡ some pg'
    → (pg'.leaf_cell ≡ pg.leaf_cell ++ cells_from ps) × (pg'.is_leaf ≡ pg.is_leaf)
unfolding move_leaf append_leaf_cell
move_leaf-cells cs [] pg pg' ps h e =
    let q : ps ≡ [] = unfold pairs_of in cc in
    let r : pg ≡ pg' = cc in rw (q, ← r) (sym (append-nil pg.leaf_cell), refl)
move_leaf-cells cs (o ∷ os) pg pg' ps h e =
    let f = first_pair cs o os ps h in
    let pg1 = append_leaf_cell f.cell.key f.cell.val pg in
    let run : move_leaf cs os pg1 ≡ some pg' = rw f.found at e in
    let (a, b) = move_leaf-cells cs os pg1 pg' f.others f.rest run in
    (a ∙ append_assoc pg.leaf_cell _ (cells_from f.others) ∙ rw f.all refl, b)

-- What a split makes of a tidy leaf.
pub record Halves (n : Node) (ps : List Pair) (s : Split) : Type 0 where
  pub half : ℕ
  pub old : s.old ≡ record n { offsets = take half n.offsets }
  pub new_leaf : s.new.is_leaf ≡ true
  pub new_finds : (k : Key) → found_in k s.new.leaf_cell ≡ lookup k (drop half ps)
  pub some_half : 0 < half
  pub first : Pair
  pub at_half : get_elem? ps half ≡ some first
  pub separates : s.separator ≡ first.0

-- A split that succeeds, taken apart.
split_parts :
    (n : Node) (s : Split)
    → n.is_leaf ≡ true
    → split n new_node ≡ some s
    → (s.old ≡ record n { offsets = take (length n.offsets / 2) n.offsets })
      × (move_leaf n.leaf_cell
            (drop (length n.offsets / 2) n.offsets)
            (record new_node { is_leaf = true })
          ≡ some s.new)
unfolding split
split_parts n s leaf e =
    let made : Option Node =
      if n.is_leaf
      then move_leaf n.leaf_cell (drop (length n.offsets / 2) n.offsets)
          (record new_node { is_leaf = n.is_leaf })
      else move_internal n.internal_cell (drop (length n.offsets / 2) n.offsets)
          (record new_node { is_leaf = n.is_leaf }) in
    let (new1, moved, e1) = bind_some made _ s e in
    let (sep, at, e2) = bind_some (key_at new1 0) _ s e1 in
    let run : move_leaf n.leaf_cell (drop (length n.offsets / 2) n.offsets)
          (record new_node { is_leaf = true })
        ≡ some new1 =
      rw leaf at moved in
    let new : new1 ≡ s.new = ap (λ x. x.new) (some-injective _ _ e2) in
    (sym (ap (λ x. x.old) (some-injective _ _ e2)), run ∙ ap some new)

pub split-Halves :
    (n : Node) (ps : List Pair)
    → IsTidy n ps
    → 1 < length ps
    → length ps < 2 ^ 16
    → (s : Split) × (split n new_node ≡ some s) × Halves n ps s
split-Halves n ps h two few =
    let count = length-pairs_of n.leaf_cell n.offsets ps h.holds in
    let half = length n.offsets / 2 in
    let (s, run, kept, moved, (p, at, sep)) =
      split-pairs n ps h.leaf h.holds (omega (arith, count)) (omega (arith, count)) in
    let (old, made) = split_parts n s h.leaf run in
    let rest = (pairs_of-take n.leaf_cell n.offsets ps half h.holds).1 in
    let (cells, leaf) =
      move_leaf-cells n.leaf_cell (drop half n.offsets) _ s.new (drop half ps) rest made in
    (
      s,
      run,
      record {
        half = half;
        old = old;
        new_leaf = leaf;
        new_finds = λ k. rw cells (found_in-cells_from k (drop half ps));
        some_half = omega (arith, count);
        first = p;
        at_half = at;
        separates = sep;
      },
    )

-- The root over two pages, the second from a separator on.
abbrev pub root_over : ℕ → Key → ℕ → Key → Node
root_over left first right separator =
    append_internal_cell right separator (append_internal_cell left first new_node)

pub scan_child-found :
    (cells : List InternalCell) (k : Key) (o : ℕ) (os : List ℕ) (found : ℕ) (c : InternalCell)
    → get_elem? cells o ≡ some c
    → scan_child cells k (o ∷ os) found
      ≡ (if is_at_least k c.key then scan_child cells k os o else some found)
unfolding scan_child
scan_child-found cells k o os found c e =
    rw (scan_child, e, ◌>>=◌)
      (elim (Bool-cases (is_at_least k c.key)) [ inl t ↦ rw t refl | inr t ↦ rw t refl ])

two_tests :
    (a b : Bool) (x y z : ℕ)
    → (if a then (if b then some x else some y) else some z)
      ≡ some (if a then (if b then x else y) else z)
two_tests true true x y z = refl
two_tests true false x y z = refl
two_tests false b x y z = refl

-- A search of that root goes to the second page from the separator on.
pub root_scan :
    (left right : ℕ) (first separator k : Key)
    → find_child_page k (root_over left first right separator)
      ≡ some (if is_at_least k first then (if is_at_least k separator then 1 else 0) else 0)
unfolding find_child_page append_internal_cell
root_scan left right first separator k =
    let a : InternalCell = record { key = first; file_offset = left } in
    let b : InternalCell = record { key = separator; file_offset = right } in
    let cells = a ∷ b ∷ [] in
    let one : scan_child cells k (1 ∷ []) 0
        ≡ (if is_at_least k separator then scan_child cells k [] 1 else some 0) =
      scan_child-found cells k 1 [] 0 b refl in
    scan_child-found cells k 0 (1 ∷ []) 0 a refl
    ∙ ap (λ x. if is_at_least k first then x else some 0) one
    ∙ two_tests (is_at_least k first) (is_at_least k separator) 1 0 0
