-- ===== src/PageFile/Restart.antt =====
-- A restart on a flushed page file (storage.go, `NewBTreeWithPath` of btree.go).
use harmony_db.Base.{
  ℕ, ◌≡◌, refl, sym, ap, ◌∙◌, subst, true, none, some, List, [], ◌++◌, arith, length, length-append,
  Option-cases, inl, inr,
}
use harmony_db.Base.Maps
use harmony_db.Bytes.{le, from_le}
use harmony_db.Bytes.Laws.{length-le}
use harmony_db.Tree.Page.{Key, new_node, find_cell}
use harmony_db.Tree.Store
use harmony_db.Tree.Store.{value, key_not_found, page_size, set_root_page, add}
use harmony_db.PageFile.{FileStore, flushed, new_file_store, save, flush_pages, cache_fetch}
use harmony_db.PageFile.Stored.{StoredTree, tree_of, with_tree, put, open_btree, get_from, get}
use harmony_db.PageFile.Contents.{Holds, read_at-Holds, write_at-Holds}
use harmony_db.PageFile.Flush.{flush_pages-Saved}

-- What a program does to its tree, from an empty file: puts, flushes, reads, and restarts on a file
-- that was flushed.
pub data Uses : StoredTree → Type 0 where
  created : {t : StoredTree} → open_btree [] ≡ some t → Uses t
  putting :
      {t t' : StoredTree} (depth : ℕ) (key : Key) (val : List ℕ)
      → Uses t
      → put depth key val t ≡ some t'
      → Uses t'
  flushing :
      {t : StoredTree} {f : FileStore}
      → Uses t
      → flush_pages t.store ≡ flushed f
      → Uses (record t { store = f })
  restarting :
      {t t' : StoredTree} {f : FileStore}
      → Uses t
      → flush_pages t.store ≡ flushed f
      → open_btree f.file ≡ some t'
      → Uses t'

-- The tree that is created when the file names no root.
fresh : List ℕ → FileStore → StoredTree
fresh file f =
    let t : StoredTree = record { store = f; root_offset = 0 } in
    with_tree (set_root_page (record new_node { is_leaf = true }) (tree_of t)) t

open_btree-fresh :
    (file : List ℕ)
    → (new_file_store file).root_offset ≡ 0
    → open_btree file ≡ some (fresh file (new_file_store file))
unfolding open_btree fresh
open_btree-fresh file h = rw h refl

-- A saved file names the root that the store had.
new_file_store-save :
    (f : FileStore) → f.root_offset ≡ 0 → (new_file_store (save f).file).root_offset ≡ 0
unfolding new_file_store
new_file_store-save f h =
    let buf = le 8 f.root_offset ++ le 8 f.next_free_offset in
    let size : length buf ≡ 16 = omega (
      arith,
      length-append (le 8 f.root_offset) (le 8 f.next_free_offset),
      length-le 8 f.root_offset,
      length-le 8 f.next_free_offset,
    ) in
    let held : Holds (save f).file 0 16 buf =
      unfold save in subst (λ n. Holds (save f).file 0 n buf) size (write_at-Holds 0 buf f.file) in
    rw (read_at-Holds (save f).file 0 16 buf held, new_file_store)
      (rw h (unfold le from_le in refl))

get-fresh :
    (depth : ℕ) (key : Key) (file : List ℕ) (f : FileStore)
    → get depth key (fresh file f) ≡ some (key_not_found, fresh file f)
unfolding get fresh with_tree tree_of set_root_page add cache_fetch get_from find_cell
get-fresh depth key file f = rw (Maps.get-put_self f.next_free_offset _ f.page_cache) refl

put_keeps_root :
    (depth : ℕ) (key : Key) (val : List ℕ) (t t' : StoredTree)
    → put depth key val t ≡ some t'
    → t'.store.root_offset ≡ t.store.root_offset
unfolding with_tree
put_keeps_root depth key val t t' h = elim (Option-cases (Store.put depth key val (tree_of t))) [
  | inl e ↦ absurd (
      let refused : put depth key val t ≡ none = unfold put in rw e refl in
      let back = sym refused ∙ h in ground (arith, back))
  | inr (b, e) ↦
      let done : put depth key val t ≡ some (with_tree b t) = unfold put in rw e refl in
      let back = sym done ∙ h in
      let q : with_tree b t ≡ t' = cc in ap (λ x. x.store.root_offset) (sym q)
]

flushed_root :
    (t : StoredTree) (f : FileStore)
    → t.store.root_offset ≡ 0
    → flush_pages t.store ≡ flushed f
    → (new_file_store f.file).root_offset ≡ 0
flushed_root t f h e =
    let v = flush_pages-Saved t.store f e in
    subst (λ g. (new_file_store g.file).root_offset ≡ 0) (sym v.after)
      (new_file_store-save v.before (v.root ∙ h))

save_keeps_root : (f f' : FileStore) → flush_pages f ≡ flushed f' → f'.root_offset ≡ f.root_offset
unfolding save
save_keeps_root f f' h =
    let v = flush_pages-Saved f f' h in ap (λ g. g.root_offset) v.after ∙ v.root

opened :
    (file : List ℕ) (t : StoredTree)
    → (new_file_store file).root_offset ≡ 0
    → open_btree file ≡ some t
    → t.store.root_offset ≡ 0
opened file t h e =
    let back = sym (open_btree-fresh file h) ∙ e in
    let q : fresh file (new_file_store file) ≡ t = cc in
    subst (λ x. x.store.root_offset ≡ 0) q (unfold fresh with_tree in h)

-- The root that the file names stays the one of an empty file: only the tree's own field moves.
root_stays : (t : StoredTree) → Uses t → t.store.root_offset ≡ 0
root_stays t (created h) = opened [] t (unfold new_file_store in refl) h
root_stays t (putting {t = t0} depth key val u h) =
    put_keeps_root depth key val t0 t h ∙ root_stays t0 u
root_stays t (flushing {t = t0} {f = f} u h) = save_keeps_root t0.store f h ∙ root_stays t0 u
root_stays t (restarting {t = t0} {f = f} u h o) =
    opened f.file t (flushed_root t0 f (root_stays t0 u) h) o

-- Along every run from an empty file, a restart on the file that a flush has left succeeds, and
-- then no key is found, whatever was put before.
pub restart_forgets :
    (t : StoredTree) (f : FileStore) (depth : ℕ) (key : Key)
    → Uses t
    → flush_pages t.store ≡ flushed f
    → (t' : StoredTree) × (open_btree f.file ≡ some t')
      × (get depth key t' ≡ some (key_not_found, t'))
restart_forgets t f depth key u h =
    let t' = fresh f.file (new_file_store f.file) in
    (
      t',
      open_btree-fresh f.file (flushed_root t f (root_stays t u) h),
      get-fresh depth key f.file (new_file_store f.file),
    )
