-- ===== src/Examples/LostKeys.antt =====
-- A run of puts into a fresh tree (btree.go) with keys below the first one.
use harmony_db.Base.{◌≡◌, refl, Option, some, List, [], ◌∷◌, ◌>>=◌}
use harmony_db.Base.Maps
use harmony_db.Tree.Page.{
  Key, is_full, mark_dirty, insert_leaf_cell, insert_internal_cell, find_child_page, find_cell,
  find_ins_point_for_key, split, compare_bytes, bytes_equal,
}
use harmony_db.Tree.Store.{BTree, new_btree, put, insert_internal, get, value, key_not_found}

-- Every key is put with itself as its value.
abbrev put_keys : List Key → BTree → Option BTree
put_keys [] b = some b
put_keys (k ∷ ks) b = put 1 k k b >>= λ b1. put_keys ks b1

abbrev first_keys : List Key
first_keys =
    (10 ∷ [])
    ∷ (11 ∷ [])
    ∷ (12 ∷ [])
    ∷ (13 ∷ [])
    ∷ (14 ∷ [])
    ∷ (15 ∷ [])
    ∷ (16 ∷ [])
    ∷ (17 ∷ [])
    ∷ (18 ∷ [])
    ∷ (9 ∷ [])
    ∷ (8 ∷ [])
    ∷ (7 ∷ [])
    ∷ (6 ∷ [])
    ∷ (5 ∷ [])
    ∷ []

abbrev more_keys : List Key
more_keys = (10 ∷ 1 ∷ []) ∷ (10 ∷ 2 ∷ []) ∷ (10 ∷ 3 ∷ []) ∷ (10 ∷ 4 ∷ []) ∷ (10 ∷ 5 ∷ []) ∷ []

still_there : (put_keys first_keys new_btree >>= λ b. get 1 (11 ∷ []) b) ≡ some (value (11 ∷ []))
unfolding put insert_internal get new_btree Maps.get Maps.put find_child_page find_cell
    find_ins_point_for_key is_full mark_dirty insert_leaf_cell insert_internal_cell split
    compare_bytes bytes_equal
still_there = refl

-- Every put succeeds, and the second key is gone: the leaf of the smallest keys is split below the
-- first separator, so the root gets the new page in front of it, and a later split sends a search past
-- the leaf that still has the key.
gone :
    (put_keys first_keys new_btree >>= λ b. put_keys more_keys b >>= λ c. get 1 (11 ∷ []) c)
    ≡ some key_not_found
unfolding put insert_internal get new_btree Maps.get Maps.put find_child_page find_cell
    find_ins_point_for_key is_full mark_dirty insert_leaf_cell insert_internal_cell split
    compare_bytes bytes_equal
gone = refl
