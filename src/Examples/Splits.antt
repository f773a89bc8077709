-- ===== src/Examples/Splits.antt =====
-- A put that splits the right one of two leaves (btree.go).
use harmony_db.Base.{
  ℕ, ◌≡◌, refl, sym, ◌∙◌, subst, Bool, true, false, some, some-injective, List, [], ◌∷◌, ◌⊎◌, inl,
  inr, arith, if◌then◌else◌,
}
use harmony_db.Base.Maps
use harmony_db.Tree.Page.{
  Key, Node, compare_bytes, bytes_equal, is_at_least, find_child_page, make_cell, cells_of,
}
use harmony_db.Tree.Pairs.{Pair, pairs_of}
use harmony_db.Tree.Store.{BTree, value, put, get}
use harmony_db.Tree.Layout.{IsLaid}
use harmony_db.Tree.Tidy.{IsTidy}
use harmony_db.Tree.Halves.{cells_from, found_in-cells_from}
use harmony_db.Tree.Routing.{child_page, child_page-route, route}
use harmony_db.Tree.SplitPut.{IsRoot, IsLeafOf, split_put-get}
use harmony_db.Examples.Trees.{leaf_at, cell_of, top, tree_with, top-IsRouter}

abbrev right_pairs : List Pair
right_pairs =
    (5 ∷ [], 50 ∷ [])
    ∷ (6 ∷ [], 60 ∷ [])
    ∷ (7 ∷ [], 70 ∷ [])
    ∷ (8 ∷ [], 80 ∷ [])
    ∷ (9 ∷ [], 90 ∷ [])
    ∷ (10 ∷ [], 100 ∷ [])
    ∷ (11 ∷ [], 110 ∷ [])
    ∷ (12 ∷ [], 120 ∷ [])
    ∷ []

abbrev right_leaf : Node
right_leaf = leaf_at 4096 false (0 ∷ 1 ∷ 2 ∷ 3 ∷ 4 ∷ 5 ∷ 6 ∷ 7 ∷ []) (cells_from right_pairs)

abbrev nearly_full : BTree
nearly_full = tree_with right_leaf

nearly_full-IsLaid : IsLaid nearly_full
nearly_full-IsLaid = record {
  spread = (
    refl,
    (inl (omega arith), (inl (omega arith), tt)),
    (refl, (inl (omega arith), tt), (refl, tt, tt)),
  );
  places = ((0, refl, omega arith), ((1, refl, omega arith), ((2, refl, omega arith), tt)));
  free = (3, refl);
}

either :
    (a b : Bool) (x y : ℕ)
    → ((if a then (if b then y else x) else x) ≡ x) ⊎ ((if a then (if b then y else x) else x) ≡ y)
either true true x y = inr refl
either true false x y = inl refl
either false b x y = inl refl

top_goes : (k : Key) (at : ℕ) → child_page k top ≡ some at → (at ≡ 0) ⊎ (at ≡ 4096)
unfolding route cells_of
top_goes k at goes =
    let e : some
          (if is_at_least k (1 ∷ []) then (if is_at_least k (5 ∷ []) then 4096 else 0) else 0)
        ≡ some at =
      sym (child_page-route top top.internal_cell _ k refl refl) ∙ goes in
    subst (λ x. (x ≡ 0) ⊎ (x ≡ 4096)) (some-injective _ _ e)
      (either (is_at_least k (1 ∷ [])) (is_at_least k (5 ∷ [])) 0 4096)

nearly_full-IsRoot : IsRoot nearly_full top top.internal_cell
unfolding Maps.get
nearly_full-IsRoot = record {
  there = refl;
  router = top-IsRouter;
  room = omega arith;
  leaves = λ k at goes. elim (top_goes k at goes) [
    | inl e ↦ (
      leaf_at 0 false (0 ∷ []) (cell_of 1 10 ∷ []),
      subst
          (λ x. Maps.get x nearly_full.pages ≡ some (leaf_at 0 false (0 ∷ []) (cell_of 1 10 ∷ [])))
          (sym e) refl,
      refl,
    )
    | inr e ↦
        (right_leaf, subst (λ x. Maps.get x nearly_full.pages ≡ some right_leaf) (sym e) refl, refl)
  ];
}

right_leaf-IsTidy : IsTidy right_leaf right_pairs
unfolding pairs_of make_cell compare_bytes
right_leaf-IsTidy = record {
  leaf = refl;
  holds = refl;
  counts = refl;
  sorted = (
    (refl, (refl, (refl, (refl, (refl, (refl, (refl, tt))))))),
    (
      (refl, (refl, (refl, (refl, (refl, (refl, tt)))))),
      (
        (refl, (refl, (refl, (refl, (refl, tt))))),
        (
          (refl, (refl, (refl, (refl, tt)))),
          ((refl, (refl, (refl, tt))), ((refl, (refl, tt)), ((refl, tt), (tt, tt)))),
        ),
      ),
    ),
  );
  finds = λ k. found_in-cells_from k right_pairs;
}

right_leaf-IsLeafOf : IsLeafOf nearly_full top (13 ∷ []) 4096 right_leaf right_pairs
unfolding find_child_page compare_bytes Maps.get
right_leaf-IsLeafOf = record {
  goes = refl;
  there = refl;
  tidy = right_leaf-IsTidy;
  inside = (refl, (refl, (refl, (refl, (refl, (refl, (refl, (refl, tt))))))));
}

split_put-get_example :
    (b : BTree) × (put 1 (13 ∷ []) (130 ∷ []) nearly_full ≡ some b)
    × ((k : Key)
        → get 1 k b
          ≡ (if bytes_equal (13 ∷ []) k then some (value (130 ∷ [])) else get 1 k nearly_full))
unfolding bytes_equal compare_bytes
split_put-get_example =
    split_put-get (13 ∷ []) (130 ∷ []) nearly_full top right_leaf top.internal_cell 4096 right_pairs
      nearly_full-IsLaid nearly_full-IsRoot right_leaf-IsLeafOf refl (omega arith)
