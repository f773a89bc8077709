-- ===== src/Tree/RootPut.antt =====
-- `put` into a tree that is one leaf (btree.go), also where it splits the leaf.
use harmony_db.Base.{
  Option, ℕ, zero, suc, ◌<◌, ◌^◌, ◌≡◌, refl, sym, ◌∙◌, ap, subst, true, some, none, List, arith,
  length, leb, if◌then◌else◌, take, Bool-cases, inl, inr, ◌>>=◌, get_elem?, [], ◌∷◌,
}
use harmony_db.Base.Maps
use harmony_db.Base.Maps.{get-put_self}
use harmony_db.Tree.Page.{
  Key, Node, Split, max_leaf_node_cells, bytes_equal, mark_dirty, insert_leaf_cell, is_full, key_at,
}
use harmony_db.Tree.Order.{lower_bound}
use harmony_db.Tree.Pairs.{Pair, length-pairs_of}
use harmony_db.Tree.Store.{
  BTree, value, key_not_found, write_back, split_leaf, insert_new, insert_leaf, put, get,
}
use harmony_db.Tree.Lookup.{get_from-leaf}
use harmony_db.Tree.Layout.{IsLaid, places-get, Spread-get}
use harmony_db.Tree.Ordered.{keys, lookup, place, lookup-place}
use harmony_db.Tree.Tidy.{
  IsTidy, length-inserted, insert-IsTidy, find_ins_point-IsTidy, find_cell-IsTidy, named,
  key_at_place,
}
use harmony_db.Tree.Halves.{Halves, split-Halves}
use harmony_db.Tree.Grown.{grown, split_leaf-grown, grown-get}

-- The leaf after the put, before it is split.
abbrev pub filled : Node → List Pair → Key → List ℕ → Node
filled pg ps k v = mark_dirty (insert_leaf_cell (lower_bound k (keys ps)) k v pg)

pub filled-IsTidy :
    (pg : Node) (ps : List Pair) (k : Key) (v : List ℕ)
    → length ps < 2 ^ 16
    → lookup k ps ≡ key_not_found
    → IsTidy pg ps
    → IsTidy (filled pg ps k v) (place (k, v) ps)
unfolding mark_dirty
filled-IsTidy pg ps k v few absent h =
    let t = insert-IsTidy pg ps k v few absent h in
    record { leaf = t.leaf; holds = t.holds; counts = t.counts; sorted = t.sorted; finds = t.finds }

pub is_full-leaf : (pg : Node) → pg.is_leaf ≡ true → is_full pg ≡ leb 9 (length pg.offsets)
unfolding is_full
is_full-leaf pg t = rw t refl

-- What `insertLeaf` does with a new key, by whether the leaf is full then.
pub insert_leaf-new :
    (parent : Option Node) (pg : Node) (ps : List Pair) (k : Key) (v : List ℕ) (b : BTree)
    → length ps < 2 ^ 16
    → lookup k ps ≡ key_not_found
    → IsTidy pg ps
    → insert_leaf parent pg k v b ≡ (
        if is_full (filled pg ps k v)
        then split_leaf parent (filled pg ps k v) b
        else some (write_back (filled pg ps k v) b))
unfolding insert_leaf insert_new
insert_leaf-new parent pg ps k v b few absent h =
    rw
      (
        insert_leaf,
        find_cell-IsTidy pg ps k h absent,
        insert_new,
        find_ins_point-IsTidy pg ps k few h,
      )
      refl

put-root_leaf :
    (depth : ℕ) (k : Key) (v : List ℕ) (b : BTree) (pg : Node)
    → Maps.get b.root_offset b.pages ≡ some pg
    → pg.is_leaf ≡ true
    → put depth k v b ≡ insert_leaf none pg k v b
unfolding put
put-root_leaf depth k v b pg there t = rw (put, there, ◌>>=◌, t) refl

get_elem?-take-first : (i : ℕ) (os : List ℕ) → 0 < i → get_elem? (take i os) 0 ≡ get_elem? os 0
get_elem?-take-first zero os h = absurd (omega arith)
get_elem?-take-first (suc i) [] h = refl
get_elem?-take-first (suc i) (o ∷ os) h = refl

-- The old half still has the first key.
old_first :
    (n : Node) (ps : List Pair) (s : Split)
    → IsTidy n ps
    → Halves n ps s
    → 1 < length ps
    → (first : Key) × (key_at s.old 0 ≡ some first)
old_first n [] s h t two = absurd (omega arith)
old_first n (p ∷ ps) s h t two =
    let (o, c, at, found, same) = named n.leaf_cell n.offsets (p ∷ ps) 0 p.0 h.holds refl in
    (
      c.key,
      ap (λ x. key_at x 0) t.old
          ∙ key_at_place (record n { offsets = take t.half n.offsets }) o 0 c h.leaf
              (get_elem?-take-first t.half n.offsets t.some_half ∙ at) found,
    )

-- The tree after the put if the leaf is not full then.
stays-get :
    (n : Node) (k : Key) (ps : List Pair) (b : BTree)
    → n.file_offset ≡ b.root_offset
    → IsTidy n ps
    → get 1 k (write_back n b) ≡ some (lookup k ps)
unfolding get write_back
stays-get n k ps b place h =
    get_from-leaf 1 b.root_offset k (write_back n b) n
      (subst (λ x. Maps.get x (Maps.put n.file_offset n b.pages) ≡ some n) place
        (get-put_self n.file_offset n b.pages))
      h.leaf
    ∙ ap some (h.finds k)

-- The tree after the put if it splits the leaf.
splits-get :
    (n : Node) (ps : List Pair) (b : BTree)
    → n.file_offset < b.next_free_offset
    → 1 < length ps
    → length ps < 2 ^ 16
    → IsTidy n ps
    → (b' : BTree) × (split_leaf none n b ≡ some b') × ((k : Key) → get 1 k b' ≡ some (lookup k ps))
splits-get n ps b below two few h =
    let (s, run, halves) = split-Halves n ps h two few in
    let (first, at) = old_first n ps s h halves two in
    (
      grown s first b,
      split_leaf-grown n s first b run at,
      λ k. grown-get n ps s first k b halves h.leaf h.sorted h.finds below,
    )

-- A put of a new key into a tree that is one leaf of fewer than nine cells, named by its offsets in
-- the ascending order of their keys, returns, also where it splits the leaf and puts a new root over
-- the halves. Afterwards the key is found with its value, and every other key as before: with its
-- value if the leaf had it, and not at all otherwise.
pub root_put-get :
    (depth : ℕ) (k : Key) (v : List ℕ) (b : BTree) (pg : Node) (ps : List Pair)
    → IsLaid b
    → Maps.get b.root_offset b.pages ≡ some pg
    → IsTidy pg ps
    → length ps < max_leaf_node_cells
    → lookup k ps ≡ key_not_found
    → (b' : BTree) × (put depth k v b ≡ some b')
      × ((k' : Key) → get 1 k' b' ≡ some (if bytes_equal k k' then value v else lookup k' ps))
unfolding mark_dirty insert_leaf_cell
root_put-get depth k v b pg ps laid there h small absent =
    let n = filled pg ps k v in
    let qs = place (k, v) ps in
    let tidy : IsTidy n qs = filled-IsTidy pg ps k v (omega (arith, small)) absent h in
    let longer : length qs ≡ suc (length ps) =
      length-inserted (lower_bound k (keys ps)) (k, v) ps in
    let own : pg.file_offset ≡ b.root_offset =
      Spread-get b.pages b.root_offset pg laid.spread there in
    let (j, e, below) = places-get b.next_free_offset b.pages b.root_offset pg laid.places there in
    let run =
      put-root_leaf depth k v b pg there h.leaf
      ∙ insert_leaf-new none pg ps k v b (omega (arith, small)) absent h in
    let count = length-pairs_of n.leaf_cell n.offsets qs tidy.holds in
    elim (Bool-cases (is_full n)) [
      | inr part ↦ (
        write_back n b,
        run ∙ rw part refl,
        λ k'. stays-get n k' qs b own tidy ∙ ap some (lookup-place (k, v) ps k' absent),
      )
      | inl full ↦
          let nine : leb 9 (length n.offsets) ≡ true = sym (is_full-leaf n tidy.leaf) ∙ full in
          let (b', made, finds) =
            splits-get n qs b (omega (arith, own, below)) (ground (arith, nine, count))
              (omega (arith, small, longer)) tidy in
          (b', run ∙ rw full made, λ k'. finds k' ∙ ap some (lookup-place (k, v) ps k' absent))
    ]
