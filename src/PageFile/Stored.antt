-- ===== src/PageFile/Stored.antt =====
-- btree.go: the tree over its page file, and the file of the metadata.
use harmony_db.Base.{
  ℕ, zero, suc, true, false, Option, none, some, List, get_elem?, ltb, if◌then◌else◌, ◌>>=◌,
}
use harmony_db.Base.Maps
use harmony_db.Bytes.{ReadError, eof, unexpected_eof, Read, ok, fail, le, read_word}
use harmony_db.Tree.Page.{Key, Node, new_node, find_child_page, find_cell}
use harmony_db.Tree.Store
use harmony_db.Tree.Store.{BTree, Found, value, key_not_found, page_size, set_root_page}
use harmony_db.Tree.Codec.{decode}
use harmony_db.PageFile.{FileStore, write_at, read_at, new_file_store, cache_fetch, cache_add}

-- `BTree` with its `fileStore`; the two have a root offset each, and `root` is the cached page at
-- the tree's.
pub record StoredTree : Type 0 where
  pub store : FileStore
  pub root_offset : ℕ

-- The tree in memory.
unfoldable pub tree_of : StoredTree → BTree
tree_of t = record {
  pages = t.store.page_cache;
  root_offset = t.root_offset;
  next_free_offset = t.store.next_free_offset;
}

unfoldable pub with_tree : BTree → StoredTree → StoredTree
with_tree b t = record {
  store = record t.store { page_cache = b.pages; next_free_offset = b.next_free_offset };
  root_offset = b.root_offset;
}

-- `put` changes the tree in memory only.
unfoldable pub put : ℕ → Key → List ℕ → StoredTree → Option StoredTree
unfolding tree_of with_tree
put depth key val t = Store.put depth key val (tree_of t) >>= λ b. some (with_tree b t)

pub data Loaded : Type 0 where
  page : Node → FileStore → Loaded
  read_error : Loaded
  decode_error : ReadError → Loaded

unfoldable pub keep_page : ℕ → Read Node → FileStore → Loaded
keep_page offset (ok node rest) f =
    page node (record f { page_cache = Maps.put offset node f.page_cache })
keep_page offset (fail e) f = decode_error e

unfoldable pub load_page : ℕ → FileStore → Loaded
unfolding keep_page
load_page offset f = elim (read_at offset page_size f.file) [
  | none ↦ read_error
  | some buf ↦ keep_page offset (decode buf (record new_node { file_offset = offset })) f
]

-- The page, placed at its offset whatever the bytes say, and the store.
unfoldable pub place : ℕ → Read Node → FileStore → Option (Node × FileStore)
unfolding cache_add
place fo (ok node rest) f =
    let node1 : Node = record node { file_offset = fo } in
    some (node1, record f { page_cache = cache_add node1 f.page_cache })
place fo (fail e) f = none

-- `fetch`; its panics are `none`.
unfoldable pub fetch : ℕ → FileStore → Option (Node × FileStore)
unfolding place cache_fetch
fetch fo f = elim (cache_fetch fo f.page_cache) [
  | some n ↦ some (n, f)
  | none ↦ read_at fo page_size f.file >>= λ paged. place fo (decode paged new_node) f
]

-- `get` from the page `next`, by a bound on the depth of the tree below it.
unfoldable pub get_from : ℕ → Node → Key → FileStore → Option (Found × FileStore)
unfolding fetch
get_from zero next key f = none
get_from (suc depth) next key f = elim next.is_leaf [
  | true ↦ elim (find_cell key next.leaf_cell) [
    | none ↦ some (key_not_found, f)
    | some c ↦ some (value c.val, f)
  ]
  | false ↦ find_child_page key next >>= λ ofs. get_elem? next.internal_cell ofs >>= λ c.
      fetch c.file_offset f >>= λ fetched. get_from depth fetched.0 key fetched.1
]

-- `Get`: the root page is in memory.
unfoldable pub get : ℕ → Key → StoredTree → Option (Found × StoredTree)
unfolding get_from
get depth key t = cache_fetch t.root_offset t.store.page_cache >>= λ root.
    get_from (suc depth) root key t.store >>= λ found. some (found.0, record t { store = found.1 })

-- `NewBTreeWithPath` on a file with these bytes; a root page that cannot be loaded panics.
unfoldable pub root_of : Loaded → ℕ → Option StoredTree
root_of (page node f) at = some (record { store = f; root_offset = at })
root_of read_error at = none
root_of (decode_error e) at = none

unfoldable pub open_btree : List ℕ → Option StoredTree
unfolding root_of load_page with_tree
open_btree bytes =
    let f = new_file_store bytes in
    if ltb 0 f.root_offset
    then root_of (load_page f.root_offset f) f.root_offset
    else (let t : StoredTree = record { store = f; root_offset = 0 } in
        some (with_tree (set_root_page (record new_node { is_leaf = true }) (tree_of t)) t))

pub data MetaRead : Type 0 where
  indices : ℕ → ℕ → MetaRead
  -- A number that is cut off.
  meta_panic : MetaRead

unfoldable pub read_applied : ℕ → Read ℕ → MetaRead
read_applied last_commit (ok last_applied rest) = indices last_commit last_applied
read_applied last_commit (fail eof) = indices last_commit 0
read_applied last_commit (fail unexpected_eof) = meta_panic

unfoldable pub read_commit : Read ℕ → MetaRead
unfolding read_applied
read_commit (ok last_commit rest) = read_applied last_commit (read_word 8 rest)
read_commit (fail eof) = indices 0 0
read_commit (fail unexpected_eof) = meta_panic

-- `readMeta` on the bytes of the metadata file.
unfoldable pub read_meta : List ℕ → MetaRead
unfolding read_commit
read_meta meta = read_commit (read_word 8 meta)

-- `updateMeta`: the commit index, and the applied one behind it.
unfoldable pub update_meta : ℕ → ℕ → List ℕ → List ℕ
unfolding write_at
update_meta last_applied last_commit_index meta =
    write_at 8 (le 8 last_applied) (write_at 0 (le 8 last_commit_index) meta)
