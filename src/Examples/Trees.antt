-- ===== src/Examples/Trees.antt =====
-- The B+ tree (btree.go) at concrete contents: two leaves below a root.
use harmony_db.Base.{
  length, ℕ, ◌≡◌, refl, inl, Bool, if◌then◌else◌, true, false, some, List, [], ◌∷◌, arith,
}
use harmony_db.Base.Maps
use harmony_db.Tree.Page.{
  Key, Node, LeafCell, make_cell, compare_bytes, bytes_equal, find_cell, find_child_page,
  find_ins_point_for_key, is_full, mark_dirty, insert_leaf_cell,
}
use harmony_db.Tree.Store.{BTree, value, insert_internal, put, get}
use harmony_db.Tree.Layout.{IsLaid}
use harmony_db.Tree.Laid.{put-IsLaid}
use harmony_db.Tree.PutGet.{put-get}
use harmony_db.Tree.Order.{IsSorted}
use harmony_db.Tree.Pairs.{Pair, pairs_of}
use harmony_db.Tree.Ordered.{keys, lookup}
use harmony_db.Tree.Tidy.{IsTidy}
use harmony_db.Tree.Halves.{cells_from, found_in-cells_from}
use harmony_db.Tree.RootPut.{root_put-get}
use harmony_db.Tree.Linking.{link_leaf-routes}
use harmony_db.Tree.Routing.{IsRouter, child_page, is_below, cell_keys}
use harmony_db.Base.{◌&&◌, drop}
use harmony_db.Tree.Page.{cells_of, is_at_least, Split}
use harmony_db.Tree.Store.{link_leaf, write_back}
use harmony_db.Tree.Order.{lower_bound}

abbrev pub leaf_at : ℕ → Bool → List ℕ → List LeafCell → Node
leaf_at at dirty offsets cells = record {
  is_dirty = dirty;
  is_leaf = true;
  file_offset = at;
  offsets = offsets;
  internal_cell = [];
  leaf_cell = cells;
}

abbrev pub cell_of : ℕ → ℕ → LeafCell
cell_of k v = record { key_size = 1; val_size = 1; key = k ∷ []; val = v ∷ [] }

abbrev pub top : Node
top = record {
  is_dirty = false;
  is_leaf = false;
  file_offset = 8192;
  offsets = 0 ∷ 1 ∷ [];
  internal_cell =
      record { key = 1 ∷ []; file_offset = 0 } ∷ record { key = 5 ∷ []; file_offset = 4096 } ∷ [];
  leaf_cell = [];
}

abbrev pub tree_with : Node → BTree
tree_with right = record {
  pages = (0, leaf_at 0 false (0 ∷ []) (cell_of 1 10 ∷ [])) ∷ (4096, right) ∷ (8192, top) ∷ [];
  root_offset = 8192;
  next_free_offset = 12288;
}

abbrev two_leaves : BTree
two_leaves = tree_with (leaf_at 4096 false (0 ∷ []) (cell_of 5 50 ∷ []))

abbrev three_keys : BTree
three_keys = tree_with (leaf_at 4096 true (0 ∷ 1 ∷ []) (cell_of 5 50 ∷ cell_of 6 60 ∷ []))

key_put : put 1 (6 ∷ []) (60 ∷ []) two_leaves ≡ some three_keys
unfolding put insert_internal Maps.get Maps.put find_child_page find_cell find_ins_point_for_key
    is_full mark_dirty insert_leaf_cell compare_bytes
key_put = refl

two_leaves-IsLaid : IsLaid two_leaves
two_leaves-IsLaid = record {
  spread = (
    refl,
    (inl (omega arith), (inl (omega arith), tt)),
    (refl, (inl (omega arith), tt), (refl, tt, tt)),
  );
  places = ((0, refl, omega arith), ((1, refl, omega arith), ((2, refl, omega arith), tt)));
  free = (3, refl);
}

put-IsLaid_example : IsLaid three_keys
put-IsLaid_example = put-IsLaid 1 (6 ∷ []) (60 ∷ []) two_leaves three_keys two_leaves-IsLaid key_put

put-get_example :
    (get 1 (6 ∷ []) three_keys ≡ some (value (60 ∷ [])))
    × ((k : Key) → bytes_equal (6 ∷ []) k ≡ false → get 1 k three_keys ≡ get 1 k two_leaves)
put-get_example = put-get 1 (6 ∷ []) (60 ∷ []) two_leaves three_keys two_leaves-IsLaid key_put refl

-- A tree of one leaf with eight keys, which the next new key splits.
abbrev eight_pairs : List Pair
eight_pairs =
    (1 ∷ [], 10 ∷ [])
    ∷ (2 ∷ [], 20 ∷ [])
    ∷ (3 ∷ [], 30 ∷ [])
    ∷ (4 ∷ [], 40 ∷ [])
    ∷ (5 ∷ [], 50 ∷ [])
    ∷ (6 ∷ [], 60 ∷ [])
    ∷ (7 ∷ [], 70 ∷ [])
    ∷ (8 ∷ [], 80 ∷ [])
    ∷ []

abbrev eight_keys : Node
eight_keys = leaf_at 0 false (0 ∷ 1 ∷ 2 ∷ 3 ∷ 4 ∷ 5 ∷ 6 ∷ 7 ∷ []) (cells_from eight_pairs)

abbrev one_leaf : BTree
one_leaf = record { pages = (0, eight_keys) ∷ []; root_offset = 0; next_free_offset = 4096 }

one_leaf-IsLaid : IsLaid one_leaf
one_leaf-IsLaid = record {
  spread = (refl, tt, tt);
  places = ((0, refl, omega arith), tt);
  free = (1, refl);
}

eight_keys-IsSorted : IsSorted (keys eight_pairs)
unfolding compare_bytes
eight_keys-IsSorted = (
  (refl, (refl, (refl, (refl, (refl, (refl, (refl, tt))))))),
  (
    (refl, (refl, (refl, (refl, (refl, (refl, tt)))))),
    (
      (refl, (refl, (refl, (refl, (refl, tt))))),
      (
        (refl, (refl, (refl, (refl, tt)))),
        ((refl, (refl, (refl, tt))), ((refl, (refl, tt)), ((refl, tt), (tt, tt)))),
      ),
    ),
  ),
)

eight_keys-IsTidy : IsTidy eight_keys eight_pairs
unfolding pairs_of make_cell
eight_keys-IsTidy = record {
  leaf = refl;
  holds = refl;
  counts = refl;
  sorted = eight_keys-IsSorted;
  finds = λ k. found_in-cells_from k eight_pairs;
}

root_put-get_example :
    (b : BTree) × (put 0 (9 ∷ []) (90 ∷ []) one_leaf ≡ some b)
    × ((k : Key)
        → get 1 k b
          ≡ some (if bytes_equal (9 ∷ []) k then value (90 ∷ []) else lookup k eight_pairs))
unfolding Maps.get bytes_equal compare_bytes
root_put-get_example =
    root_put-get 0 (9 ∷ []) (90 ∷ []) one_leaf eight_keys eight_pairs one_leaf-IsLaid refl
      eight_keys-IsTidy (omega arith) refl

-- A new page with the keys from 3 on, below `top`.
abbrev from_three : Split
from_three = record {
  old = leaf_at 0 true (0 ∷ []) (cell_of 1 10 ∷ []);
  new = leaf_at 12288 false (0 ∷ []) (cell_of 3 30 ∷ []);
  separator = 3 ∷ [];
}

pub top-IsRouter : IsRouter top top.internal_cell
unfolding cells_of compare_bytes
top-IsRouter = record {
  internal = refl;
  names = refl;
  counts = refl;
  few = omega arith;
  sorted = ((refl, tt), (tt, tt));
  first = record { key = 1 ∷ []; file_offset = 0 };
  has_first = refl;
}

link_leaf-routes_example :
    (parent : Node) × (link_leaf top from_three two_leaves ≡ some (write_back parent two_leaves))
    × (parent.file_offset ≡ 8192)
    × (parent.is_leaf ≡ false)
    × (length parent.offsets ≡ 3)
    × ((k : Key)
        → child_page k parent ≡ (
            if is_at_least k (3 ∷ [])
              && is_below k
                  (drop (lower_bound (3 ∷ []) (cell_keys top.internal_cell)) top.internal_cell)
            then some 12288
            else child_page k top))
link_leaf-routes_example = link_leaf-routes top top.internal_cell from_three two_leaves top-IsRouter
