-- ===== src/Tree/Store.antt =====
-- btree.go: the tree over its page cache. Pages are shared pointers, so a changed page is written
-- back to the cache under its offset; the root pointer is the cached page at the root's offset.
use harmony_db.Base.{
  ℕ, zero, suc, ◌+◌, true, false, Option, none, some, List, [], length, get_elem?, ◌==◌,
  if◌then◌else◌, ◌>>=◌,
}
use harmony_db.Base.Maps
use harmony_db.Base.Maps.{Map}
use harmony_db.Tree.Page.{
  Key, LeafCell, Node, new_node, Split, u16, is_full, mark_dirty, append_internal_cell,
  insert_internal_cell, insert_leaf_cell, key_at, find_ins_point_for_key, find_child_page,
  find_cell, update_cell, split,
}

abbrev pub page_size : ℕ
page_size = 4096

pub record BTree : Type 0 where
  pub pages : Map Node
  pub root_offset : ℕ
  pub next_free_offset : ℕ

-- A change to a page that is in the cache.
unfoldable pub write_back : Node → BTree → BTree
write_back pg b = record b { pages = Maps.put pg.file_offset pg b.pages }

-- `add`: the page with its new offset, and the tree.
unfoldable pub add : Node → BTree → Node × BTree
unfolding write_back
add pg b =
    let pg1 : Node = record pg { file_offset = b.next_free_offset } in
    (pg1, record (write_back pg1 b) { next_free_offset = b.next_free_offset + page_size })

unfoldable pub set_root_page : Node → BTree → BTree
unfolding add
set_root_page pg b = let (pg1, b1) = add pg b in record b1 { root_offset = pg1.file_offset }

-- `NewBTreeWithPath` on a fresh file.
unfoldable pub new_btree : BTree
unfolding set_root_page
new_btree =
    set_root_page (record new_node { is_leaf = true })
      (record { pages = []; root_offset = 0; next_free_offset = 0 })

-- The branch of a full leaf with no parent: a new root over the two halves.
unfoldable pub grow_root : Split → BTree → Option BTree
unfolding set_root_page
grow_root s b = key_at s.old 0 >>= λ first. some (
    set_root_page
      (append_internal_cell s.new.file_offset s.separator
        (append_internal_cell s.old.file_offset first new_node))
      b)

-- The branch of a full leaf below `parent`: the separator goes to its place there.
unfoldable pub link_leaf : Node → Split → BTree → Option BTree
unfolding write_back
link_leaf parent s b = find_ins_point_for_key s.separator parent >>= λ o. some (
    write_back
      (if o == u16 (length parent.offsets)
        then append_internal_cell s.new.file_offset s.separator parent
        else insert_internal_cell o s.new.file_offset s.separator parent)
      b)

unfoldable pub link : Option Node → Split → BTree → Option BTree
unfolding grow_root link_leaf
link none s b = grow_root s b
link (some parent) s b = link_leaf parent s b

unfoldable pub split_leaf : Option Node → Node → BTree → Option BTree
unfolding link add
split_leaf parent curr b = split curr new_node >>= λ s.
    let b1 : BTree = write_back s.old b in
    let (new, b2) = add s.new b1 in link parent (record s { new = new }) b2

unfoldable pub insert_new : Option Node → Node → Key → List ℕ → BTree → Option BTree
unfolding split_leaf write_back
insert_new parent curr key value b = find_ins_point_for_key key curr >>= λ o.
    let curr1 : Node = mark_dirty (insert_leaf_cell o key value curr) in
    if is_full curr1 then split_leaf parent curr1 b else some (write_back curr1 b)

unfoldable pub insert_leaf : Option Node → Node → Key → List ℕ → BTree → Option BTree
unfolding insert_new write_back
insert_leaf parent curr key value b = elim (find_cell key curr.leaf_cell) [
  | some c ↦
      some (
        write_back (mark_dirty (record curr { leaf_cell = update_cell key value curr.leaf_cell }))
          b)
  | none ↦ insert_new parent curr key value b
]

-- The end of `insertInternal` for a page that became too full. The insertion point is looked up in
-- the new page and compared with the parent's length, as the source has it; a nil parent panics.
unfoldable pub link_internal : Option Node → Split → BTree → Option BTree
unfolding write_back
link_internal none s b = none
link_internal (some parent) s b = find_ins_point_for_key s.separator s.new >>= λ o. some (
    write_back
      (if o == u16 (length parent.offsets)
        then append_internal_cell s.new.file_offset s.separator parent
        else insert_internal_cell o s.new.file_offset s.separator parent)
      b)

unfoldable pub split_internal : Option Node → Node → BTree → Option BTree
unfolding link_internal add
split_internal parent curr b =
    if is_full curr
    then (split curr new_node >>= λ s.
        let b1 : BTree = write_back s.old b in
        let (new, b2) = add s.new b1 in link_internal parent (record s { new = new }) b2)
    else some b

-- The two kinds of child; `deeper` is the recursive call.
unfoldable pub into_child : Option BTree → Node → Node → Key → List ℕ → BTree → Option BTree
unfolding insert_leaf
into_child deeper curr child key value b = elim child.is_leaf [
  | true ↦ insert_leaf (some curr) child key value b
  | false ↦ deeper
]

-- `insertInternal` by the depth of the tree below the page; a child that is not in the cache is a
-- nil pointer. The page and its parent are read again after the call, which may have changed them.
unfoldable pub insert_internal : ℕ → Option ℕ → ℕ → Key → List ℕ → BTree → Option BTree
unfolding into_child split_internal
insert_internal zero parent curr key value b = none
insert_internal (suc depth) parent curr key value b = Maps.get curr b.pages >>= λ pg.
    find_child_page key pg >>= λ i. get_elem? pg.internal_cell i >>= λ c.
    Maps.get c.file_offset b.pages >>= λ child.
    into_child (insert_internal depth (some curr) c.file_offset key value b) pg child key value b
    >>= λ b1. Maps.get curr b1.pages >>= λ pg1.
        split_internal (parent >>= λ p. Maps.get p b1.pages) pg1 b1

-- `put`, on a tree of at most `depth` levels of internal pages.
unfoldable pub put : ℕ → Key → List ℕ → BTree → Option BTree
unfolding insert_internal insert_leaf
put depth key value b = Maps.get b.root_offset b.pages >>= λ pg.
    if pg.is_leaf
    then insert_leaf none pg key value b
    else insert_internal depth none b.root_offset key value b

pub data Found : Type 0 where
  value : List ℕ → Found
  key_not_found : Found

-- What `get` makes of the cells of a leaf.
unfoldable pub found_in : Key → List LeafCell → Found
found_in key cells = elim (find_cell key cells) [ none ↦ key_not_found | some c ↦ value c.val ]

-- `get` from a page, by the depth of the tree; every page is in the cache.
unfoldable pub get_from : ℕ → ℕ → Key → BTree → Option Found
unfolding found_in
get_from zero at key b = none
get_from (suc depth) at key b = Maps.get at b.pages >>= λ pg. elim pg.is_leaf [
  | true ↦ some (found_in key pg.leaf_cell)
  | false ↦ find_child_page key pg >>= λ i.
      get_elem? pg.internal_cell i >>= λ c. get_from depth c.file_offset key b
]

unfoldable pub get : ℕ → Key → BTree → Option Found
unfolding get_from
get depth key b = get_from (suc depth) b.root_offset key b
