-- ===== src/Tree/Grown.antt =====
-- The first split of a tree: the root leaf becomes two leaves below a new root (btree.go).
use Prim.Native.Nat.{Ordering}
use harmony_db.Base.{
  ℕ, ◌+◌, ◌<◌, ◌≡◌, refl, ◌∙◌, ap, true, false, none, some, List, arith, get_elem?, drop, inl, inr,
  Bool-cases, ◌==◌, ◌>>=◌,
}
use harmony_db.Base.Maps
use harmony_db.Base.Maps.{get-put, get-put_self}
use harmony_db.Tree.Page.{
  Key, Node, Split, new_node, InternalCell, append_internal_cell, compare_bytes, is_at_least,
  find_child_page, key_at, split,
}
use harmony_db.Tree.Order.{IsSorted}
use harmony_db.Tree.Pairs.{Pair}
use harmony_db.Tree.Store.{
  BTree, write_back, add, set_root_page, grow_root, link, split_leaf, get, found_in, page_size,
}
use harmony_db.Tree.Lookup.{get_from-leaf, get_from-internal}
use harmony_db.Tree.Ordered.{keys, lookup, lookup-drop}
use harmony_db.Tree.Halves.{Halves, root_over, root_scan}

-- The tree with a new root over the two halves of its old one.
unfoldable pub grown : Split → Key → BTree → BTree
unfolding add set_root_page
grown s first b =
    let (new, b2) = add s.new (write_back s.old b) in
    set_root_page (root_over s.old.file_offset first new.file_offset s.separator) b2

pub split_leaf-grown :
    (n : Node) (s : Split) (first : Key) (b : BTree)
    → split n new_node ≡ some s
    → key_at s.old 0 ≡ some first
    → split_leaf none n b ≡ some (grown s first b)
unfolding split_leaf link grow_root grown
split_leaf-grown n s first b run at = rw (split_leaf, run, ◌>>=◌, at) refl

-- A search that goes from the root to a leaf.
get_below :
    (b : BTree) (k : Key) (i : ℕ) (c : InternalCell) (root leaf : Node)
    → Maps.get b.root_offset b.pages ≡ some root
    → root.is_leaf ≡ false
    → find_child_page k root ≡ some i
    → get_elem? root.internal_cell i ≡ some c
    → Maps.get c.file_offset b.pages ≡ some leaf
    → leaf.is_leaf ≡ true
    → get 1 k b ≡ some (found_in k leaf.leaf_cell)
unfolding get
get_below b k i c root leaf top inner index cell there t =
    get_from-internal 1 b.root_offset k b root top inner
    ∙ rw (index, ◌>>=◌, cell) (get_from-leaf 0 c.file_offset k b leaf there t)

-- A root over two leaves, of which the second has every key from the separator on.
record IsForked (b : BTree) (ps : List Pair) (left right : ℕ) (first separator : Key) : Type 0 where
  root : Node
  lo : Node
  hi : Node
  top : Maps.get b.root_offset b.pages ≡ some root
  over : root ≡ record (root_over left first right separator) { file_offset = b.root_offset }
  at_left : Maps.get left b.pages ≡ some lo
  lo_leaf : lo.is_leaf ≡ true
  lo_finds : (k : Key) → found_in k lo.leaf_cell ≡ lookup k ps
  at_right : Maps.get right b.pages ≡ some hi
  hi_leaf : hi.is_leaf ≡ true
  hi_finds : (k : Key) → is_at_least k separator ≡ true → found_in k hi.leaf_cell ≡ lookup k ps

get-IsForked :
    (b : BTree) (ps : List Pair) (left right : ℕ) (first separator k : Key)
    → IsForked b ps left right first separator
    → get 1 k b ≡ some (lookup k ps)
unfolding append_internal_cell
get-IsForked b ps left right first separator k f =
    let inner : f.root.is_leaf ≡ false = ap (λ x. x.is_leaf) f.over in
    let cells : f.root.internal_cell ≡ (root_over left first right separator).internal_cell =
      ap (λ x. x.internal_cell) f.over in
    let scan =
      ap (λ x. find_child_page k x) f.over ∙ same ∙ root_scan left right first separator k in
    let to_lo = λ (e : find_child_page k f.root ≡ some 0).
      get_below b k 0 (record { key = first; file_offset = left }) f.root f.lo f.top inner e
        (ap (λ x. get_elem? x 0) cells) f.at_left f.lo_leaf
      ∙ ap some (f.lo_finds k) in
    elim (Bool-cases (is_at_least k first)) [
      | inr e ↦ to_lo (scan ∙ rw e refl)
      | inl e ↦ elim (Bool-cases (is_at_least k separator)) [
        | inr e2 ↦ to_lo (scan ∙ rw (e, e2) refl)
        | inl e2 ↦
            get_below b k 1 (record { key = separator; file_offset = right }) f.root f.hi f.top
              inner (scan ∙ rw (e, e2) refl) (ap (λ x. get_elem? x 1) cells) f.at_right f.hi_leaf
            ∙ ap some (f.hi_finds k e2)
      ]
    ]
  where
    same :
        find_child_page k
          (record (root_over left first right separator) { file_offset = b.root_offset })
        ≡ find_child_page k (root_over left first right separator)
    same = unfold find_child_page in refl

pub get-put_other :
    (j k : ℕ) (pg : Node) (m : Maps.Map Node)
    → (j == k) ≡ false
    → Maps.get k (Maps.put j pg m) ≡ Maps.get k m
get-put_other j k pg m apart = get-put j k pg m ∙ rw apart refl

pub above_separator :
    (k separator first : Key) (ps : List Pair) (half : ℕ) (p : Pair)
    → IsSorted (keys ps)
    → get_elem? ps half ≡ some p
    → separator ≡ p.0
    → is_at_least k separator ≡ true
    → lookup k (drop half ps) ≡ lookup k ps
unfolding is_at_least
above_separator k separator first ps half p sorted at same e =
    lookup-drop ps half p k sorted at (λ lt.
      let below : compare_bytes k separator ≡ Ordering.lt = rw same lt in
      absurd (ground (arith, e, below)))

pub grown-get :
    (n : Node) (ps : List Pair) (s : Split) (first k : Key) (b : BTree)
    → Halves n ps s
    → n.is_leaf ≡ true
    → IsSorted (keys ps)
    → ((k' : Key) → found_in k' n.leaf_cell ≡ lookup k' ps)
    → n.file_offset < b.next_free_offset
    → get 1 k (grown s first b) ≡ some (lookup k ps)
unfolding grown write_back
grown-get n ps s first k b h leaf sorted finds below =
    let root_at = b.next_free_offset + page_size in
    let place : s.old.file_offset ≡ n.file_offset = ap (λ x. x.file_offset) h.old in
    get-IsForked (grown s first b) ps s.old.file_offset b.next_free_offset first s.separator k
      (record {
        root = record (root_over s.old.file_offset first b.next_free_offset s.separator) {
          file_offset = b.next_free_offset + page_size;
        };
        lo = s.old;
        hi = record s.new { file_offset = b.next_free_offset };
        top = get-put_self root_at _ _;
        over = refl;
        at_left =
            get-put_other root_at s.old.file_offset _ _ (ground (arith, below, place))
            ∙ get-put_other b.next_free_offset s.old.file_offset _ _ (ground (arith, below, place))
            ∙ get-put_self s.old.file_offset _ _;
        lo_leaf = ap (λ x. x.is_leaf) h.old ∙ leaf;
        lo_finds = λ k'. ap (λ x. found_in k' x.leaf_cell) h.old ∙ finds k';
        at_right =
            get-put_other root_at b.next_free_offset _ _ (ground arith)
            ∙ get-put_self b.next_free_offset _ _;
        hi_leaf = h.new_leaf;
        hi_finds = λ k' e.
            h.new_finds k'
            ∙ above_separator k' s.separator first ps h.half h.first sorted h.at_half h.separates e;
      })
