-- ===== src/Examples/Pages.antt =====
-- Pages as bytes (node.go) and the page file (storage.go, btree.go) at concrete contents.
use harmony_db.Base.{
  ℕ, ◌+◌, ◌≤◌, ◌<◌, ◌≡◌, refl, ◌∙◌, ◌⊎◌, true, false, Option, none, some, List, [], ◌∷◌, arith,
  length, Bool, get_elem?, ◌>>=◌,
}
use harmony_db.Base.Maps
use harmony_db.Tree.Page.{
  Key, Node, new_node, LeafCell, cells_of, find_child_page, insert_leaf_cell, find_cell,
  find_ins_point_for_key, mark_dirty, is_full, compare_bytes,
}
use harmony_db.Tree.Store
use harmony_db.Tree.Store.{
  page_size, key_not_found, set_root_page, add, write_back, insert_leaf, insert_new,
}
use harmony_db.Tree.Codec.{page, too_large, pad, encode, decode, leaf_buffer}
use harmony_db.Tree.Codec.Pages.{
  page_bytes, total, leaf_cell_bytes, encode-leaf, finish-page, length-leaf_buffer, encode-exact,
}
use harmony_db.Tree.Codec.Buffers.{LeafFits}
use harmony_db.Tree.Codec.RoundTrip.{IsWritable, reloaded, loaded, decode-encode}
use harmony_db.PageFile.{
  FileStore, flushed, write_at, new_file_store, clean_in, write_encoded, update, and_then,
  flush_loop, save, flush_pages,
}
use harmony_db.PageFile.Stored
use harmony_db.PageFile.Stored.{
  StoredTree, tree_of, with_tree, put, load_page, open_btree, get, indices, read_meta, update_meta,
}
use harmony_db.PageFile.Meta.{read_meta-update_meta}
use harmony_db.PageFile.Flush.{flush_pages-load_page}
use harmony_db.PageFile.Restart.{created, putting, restart_forgets}

-- Two pairs, the second inserted before the first.
abbrev cell_5 : LeafCell
cell_5 = record { key_size = 1; val_size = 2; key = 5 ∷ []; val = 50 ∷ 51 ∷ [] }

abbrev cell_3 : LeafCell
cell_3 = record { key_size = 1; val_size = 1; key = 3 ∷ []; val = 30 ∷ [] }

abbrev leaf : Node
leaf = record {
  is_dirty = true;
  is_leaf = true;
  file_offset = 4096;
  offsets = 1 ∷ 0 ∷ [];
  internal_cell = [];
  leaf_cell = cell_5 ∷ cell_3 ∷ [];
}

leaf_cells : cells_of leaf.leaf_cell leaf.offsets ≡ some (cell_3 ∷ cell_5 ∷ [])
unfolding cells_of
leaf_cells = refl

encode-exact_example :
    ((28 + 2 ≤ page_size) × ((bs : List ℕ) × (encode leaf ≡ page bs) × (length bs ≡ page_size)))
    ⊎ ((page_size < 28 + 2) × (encode leaf ≡ too_large 28))
unfolding page_bytes total leaf_cell_bytes cells_of
encode-exact_example = encode-exact leaf 28 refl

abbrev leaf_bytes : List ℕ
leaf_bytes = pad (leaf_buffer leaf.offsets (cell_3 ∷ cell_5 ∷ []))

leaf_encoded : encode leaf ≡ page leaf_bytes
unfolding total leaf_cell_bytes
leaf_encoded =
    encode-leaf leaf (cell_3 ∷ cell_5 ∷ []) refl leaf_cells
    ∙ finish-page (leaf_buffer leaf.offsets (cell_3 ∷ cell_5 ∷ []))
        (omega (arith, length-leaf_buffer leaf.offsets (cell_3 ∷ cell_5 ∷ [])))

cell_5-LeafFits : LeafFits cell_5
cell_5-LeafFits = record {
  key_size = refl;
  val_size = refl;
  key_word = omega arith;
  val_word = omega arith;
}

cell_3-LeafFits : LeafFits cell_3
cell_3-LeafFits = record {
  key_size = refl;
  val_size = refl;
  key_word = omega arith;
  val_word = omega arith;
}

leaf-IsWritable : IsWritable leaf
leaf-IsWritable = record {
  at = omega arith;
  offsets = (omega arith, (omega arith, tt));
  leaf = (cell_5-LeafFits, (cell_3-LeafFits, tt));
  internal = tt;
}

decode-encode_example :
    (l : Node) × (reloaded leaf new_node ≡ some l) × (loaded (decode leaf_bytes new_node) ≡ some l)
decode-encode_example = decode-encode leaf new_node leaf_bytes leaf-IsWritable leaf_encoded

-- The second cell comes first now, and the offsets still say that the first key is in it.
reloaded_out_of_order :
    reloaded leaf new_node
    ≡ some
        (record new_node { is_leaf = true; offsets = 1 ∷ 0 ∷ []; leaf_cell = cell_3 ∷ cell_5 ∷ [] })
unfolding reloaded cells_of
reloaded_out_of_order = refl

abbrev store : FileStore
store = record {
  file = [];
  page_cache = (4096, leaf) ∷ [];
  next_free_offset = 8192;
  root_offset = 0;
}

-- What a flush of `f` leaves when `pg` at `at` is its only dirty page, with these bytes.
abbrev after_flush : ℕ → Node → List ℕ → FileStore → FileStore
after_flush at pg bs f = save (
    clean_in at pg (record f {
      file = write_at pg.file_offset bs f.file;
      page_cache = Maps.put pg.file_offset pg f.page_cache;
    }))

store_flushed : flush_pages store ≡ flushed (after_flush 4096 leaf leaf_bytes store)
unfolding flush_pages flush_loop update write_encoded and_then
store_flushed = rw (leaf_encoded) refl

flush_pages-load_page_example :
    (l : Node) × (reloaded leaf (record new_node { file_offset = 4096 }) ≡ some l)
    × (load_page 4096 (after_flush 4096 leaf leaf_bytes store)
        ≡ Stored.page l (record (after_flush 4096 leaf leaf_bytes store) {
          page_cache = Maps.put 4096 l (after_flush 4096 leaf leaf_bytes store).page_cache;
        }))
unfolding Maps.get
flush_pages-load_page_example =
    flush_pages-load_page store (after_flush 4096 leaf leaf_bytes store) 4096 leaf (refl, tt, tt)
      (omega arith) refl refl leaf-IsWritable store_flushed

read_meta-update_meta_example : read_meta (update_meta 3 4 (1 ∷ 2 ∷ 3 ∷ [])) ≡ indices 4 3
read_meta-update_meta_example =
    read_meta-update_meta 3 4 (1 ∷ 2 ∷ 3 ∷ []) (omega arith) (omega arith)

-- An internal page: the separator 20 was inserted between 10 and 30.
abbrev branch : Node
branch = record {
  is_dirty = true;
  is_leaf = false;
  file_offset = 0;
  offsets = 0 ∷ 2 ∷ 1 ∷ [];
  internal_cell =
      record { key = 10 ∷ []; file_offset = 4096 }
      ∷ record { key = 30 ∷ []; file_offset = 8192 }
      ∷ record { key = 20 ∷ []; file_offset = 12288 }
      ∷ [];
  leaf_cell = [];
}

child_of : Key → Option Node → Option ℕ
child_of key none = none
child_of key (some n) = do
  i ← find_child_page key n
  c ← get_elem? n.internal_cell i
  some c.file_offset

-- After a reload the search for 25 goes to the page of 10, and not to that of 20 as before.
child_lost :
    (child_of (25 ∷ []) (some branch) ≡ some 12288)
    × (child_of (25 ∷ []) (reloaded branch new_node) ≡ some 4096)
unfolding child_of reloaded cells_of find_child_page compare_bytes
child_lost = (refl, refl)

-- The tree of an empty file, and with one pair in it.
abbrev root : Bool → List ℕ → List LeafCell → Node
root dirty offsets cells = record {
  is_dirty = dirty;
  is_leaf = true;
  file_offset = 0;
  offsets = offsets;
  internal_cell = [];
  leaf_cell = cells;
}

abbrev with_root : Node → StoredTree
with_root pg = record {
  store = record { file = []; page_cache = (0, pg) ∷ []; next_free_offset = 4096; root_offset = 0 };
  root_offset = 0;
}

abbrev one_pair : Node
one_pair = root true (0 ∷ []) (cell_3 ∷ [])

empty_opened : open_btree [] ≡ some (with_root (root false [] []))
unfolding open_btree new_file_store set_root_page Maps.put tree_of
empty_opened = refl

pair_put : put 1 (3 ∷ []) (30 ∷ []) (with_root (root false [] [])) ≡ some (with_root one_pair)
unfolding put Store.put Maps.get Maps.put find_cell find_ins_point_for_key is_full mark_dirty
    insert_leaf_cell
pair_put = refl

abbrev pair_bytes : List ℕ
pair_bytes = pad (leaf_buffer one_pair.offsets (cell_3 ∷ []))

pair_encoded : encode one_pair ≡ page pair_bytes
unfolding total leaf_cell_bytes
pair_encoded =
    encode-leaf one_pair (cell_3 ∷ []) refl (unfold cells_of in refl)
    ∙ finish-page (leaf_buffer one_pair.offsets (cell_3 ∷ []))
        (omega (arith, length-leaf_buffer one_pair.offsets (cell_3 ∷ [])))

pair_flushed :
    flush_pages (with_root one_pair).store
    ≡ flushed (after_flush 0 one_pair pair_bytes (with_root one_pair).store)
unfolding flush_pages flush_loop update write_encoded and_then
pair_flushed = rw pair_encoded refl

restart_forgets_example :
    (t : StoredTree) × (open_btree
        (after_flush 0 one_pair pair_bytes (with_root one_pair).store).file
      ≡ some t)
    × (get 1 (3 ∷ []) t ≡ some (key_not_found, t))
restart_forgets_example =
    restart_forgets (with_root one_pair)
      (after_flush 0 one_pair pair_bytes (with_root one_pair).store) 1 (3 ∷ [])
      (putting 1 (3 ∷ []) (30 ∷ []) (created empty_opened) pair_put) pair_flushed

-- Before the restart the key is found.
pair_found : get 1 (3 ∷ []) (with_root one_pair) ≡ some (Store.value (30 ∷ []), with_root one_pair)
unfolding get Maps.get find_cell compare_bytes
pair_found = refl
