-- ===== src/Tree/Through.antt =====
-- A put that goes through the root into a leaf (btree.go).
use harmony_db.Base.{
  ℕ, ◌≡◌, refl, ◌∙◌, ap, true, false, Option, none, some, some-injective, List, get_elem?,
  if◌then◌else◌, bind_some, ◌>>=◌,
}
use harmony_db.Base.Maps
use harmony_db.Tree.Page.{Key, Node, is_full, find_child_page}
use harmony_db.Tree.Store.{BTree, insert_leaf, split_internal, insert_internal, put}
use harmony_db.Tree.PutGet.{into_leaf}
use harmony_db.Tree.Routing.{child_page}

put-internal :
    (k : Key) (v : List ℕ) (b : BTree) (root : Node)
    → Maps.get b.root_offset b.pages ≡ some root
    → root.is_leaf ≡ false
    → put 1 k v b ≡ insert_internal 1 none b.root_offset k v b
unfolding put
put-internal k v b root top inner =
    let deeper = insert_internal 1 none b.root_offset k v b in
    ap (λ (x : Option Node). x >>= λ pg. if pg.is_leaf then insert_leaf none pg k v b else deeper)
      top
    ∙ ap (λ x. if x then insert_leaf none root k v b else deeper) inner

-- A put through the root into a leaf after which the root is not too full.
pub put_below :
    (k : Key) (v : List ℕ) (b b1 : BTree) (root root1 pg : Node) (at : ℕ)
    → Maps.get b.root_offset b.pages ≡ some root
    → root.is_leaf ≡ false
    → child_page k root ≡ some at
    → Maps.get at b.pages ≡ some pg
    → pg.is_leaf ≡ true
    → insert_leaf (some root) pg k v b ≡ some b1
    → Maps.get b.root_offset b1.pages ≡ some root1
    → is_full root1 ≡ false
    → put 1 k v b ≡ some b1
unfolding insert_internal split_internal
put_below k v b b1 root root1 pg at top inner goes there t inserts again room =
    let (i, index, rest) = bind_some (find_child_page k root) _ at goes in
    let (c, cell, last) = bind_some (get_elem? root.internal_cell i) _ at rest in
    let own : c.file_offset ≡ at = some-injective _ _ last in
    let deeper = insert_internal 0 (some b.root_offset) at k v b in
    put-internal k v b root top inner
    ∙ rw (insert_internal, top, ◌>>=◌, index, cell, own, there)
        (rw (into_leaf root pg k v b deeper t ∙ inserts)
          (rw again (rw (split_internal, room) refl)))
