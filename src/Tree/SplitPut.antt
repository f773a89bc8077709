-- ===== src/Tree/SplitPut.antt =====
-- `put` into a tree of a root over leaves (btree.go), also where it splits a leaf.
use harmony_db.Base.{
  ℕ, zero, suc, ◌<◌, ◌≡◌, ◌≢◌, refl, sym, ◌∙◌, ap, subst, Bool, true, false, some, some-injective,
  List, [], ◌∷◌, arith, All, length, get_elem?, leb, ltb, if◌then◌else◌, Bool-cases, inl, inr,
  ==_iff, ◌==◌,
}
use harmony_db.Base.Maps
use harmony_db.Tree.Page.{
  Key, Node, Split, bytes_equal, is_full, mark_dirty, insert_leaf_cell, max_internal_node_cells,
  max_leaf_node_cells, InternalCell,
}
use harmony_db.Tree.Order.{bytes_equal_iff, lower_bound, All-get_elem?}
use harmony_db.Tree.Pairs.{Pair, length-pairs_of}
use harmony_db.Tree.Store.{
  BTree, Found, value, key_not_found, write_back, add, split_leaf, put, get,
}
use harmony_db.Tree.PutGet.{put-get}
use harmony_db.Tree.Lookup.{unequal}
use harmony_db.Tree.Ordered.{keys, lookup, place, lookup-place, place-All}
use harmony_db.Tree.Tidy.{IsTidy, length-inserted}
use harmony_db.Tree.Halves.{split-Halves}
use harmony_db.Tree.RootPut.{filled, filled-IsTidy, insert_leaf-new, is_full-leaf}
use harmony_db.Tree.Routing.{IsRouter, child_page, child_page-route, route}
use harmony_db.Tree.Grown.{get-put_other}
use harmony_db.Tree.Linking.{link_leaf-routes}
use harmony_db.Tree.Through.{put_below}
use harmony_db.Tree.Below.{get_via}
use harmony_db.Tree.Halved.{
  Scene, halved, split_leaf-halved, root_at, own-get, other-get, leaf_not_root, differs,
}
use harmony_db.Tree.Layout.{IsLaid, places-get, Spread-get}

is_full-internal : (pg : Node) → pg.is_leaf ≡ false → is_full pg ≡ ltb 290 (length pg.offsets)
unfolding is_full
is_full-internal pg t = rw t refl

get_elem?-keys :
    (ps : List Pair) (i : ℕ) (p : Pair) → get_elem? ps i ≡ some p → get_elem? (keys ps) i ≡ some p.0
get_elem?-keys [] i p h = absurd (ground (arith, h))
get_elem?-keys (q ∷ ps) zero p h = ap (λ x. some x.0) (some-injective _ _ h)
get_elem?-keys (q ∷ ps) (suc i) p h = get_elem?-keys ps i p h

-- A root over leaves: its offsets name its cells in the ascending order of their keys, there is room
-- for one more, and every search through it goes to a leaf.
pub record IsRoot (b : BTree) (root : Node) (es : List InternalCell) : Type 0 where
  pub there : Maps.get b.root_offset b.pages ≡ some root
  pub router : IsRouter root es
  pub room : length root.offsets < max_internal_node_cells
  pub leaves :
      (k : Key) (at : ℕ)
      → child_page k root ≡ some at
      → (leaf : Node) × (Maps.get at b.pages ≡ some leaf) × (leaf.is_leaf ≡ true)

-- The leaf of a key, whose own keys are all searched in it.
pub record IsLeafOf (b : BTree) (root : Node) (k : Key) (at : ℕ) (pg : Node) (ps : List Pair)
    : Type 0 where
  pub goes : child_page k root ≡ some at
  pub there : Maps.get at b.pages ≡ some pg
  pub tidy : IsTidy pg ps
  pub inside : All (λ j. child_page j root ≡ some at) (keys ps)

-- What the put does to the tree if the leaf is full after it.
splits :
    (k : Key) (v : List ℕ) (b : BTree) (root pg : Node) (es : List InternalCell) (at : ℕ)
    (ps : List Pair)
    → IsLaid b
    → IsRoot b root es
    → IsLeafOf b root k at pg ps
    → lookup k ps ≡ key_not_found
    → 0 < length ps
    → length ps < max_leaf_node_cells
    → (root' : Node) × (s : Split) × (split_leaf (some root) (filled pg ps k v) b
        ≡ some (halved root' s b))
      × (is_full root' ≡ false)
      × Scene b root root' (filled pg ps k v) es (place (k, v) ps) s
unfolding mark_dirty insert_leaf_cell
splits k v b root pg es at ps laid r l absent some_key small =
    let n = filled pg ps k v in
    let qs = place (k, v) ps in
    let tidy : IsTidy n qs = filled-IsTidy pg ps k v (omega (arith, small)) absent l.tidy in
    let longer : length qs ≡ suc (length ps) =
      length-inserted (lower_bound k (keys ps)) (k, v) ps in
    let own : pg.file_offset ≡ at = Spread-get b.pages at pg laid.spread l.there in
    let (s, run, halves) =
      split-Halves n qs tidy (omega (arith, some_key, longer)) (omega (arith, small, longer)) in
    let s1 : Split = record s { new = record s.new { file_offset = b.next_free_offset } } in
    let (root', linked, same_place, internal, more, routes) =
      link_leaf-routes root es s1 (add s.new (write_back s.old b)).1 r.router in
    let inside = place-All (λ j. child_page j root ≡ some at) (k, v) ps absent l.goes l.inside in
    let sep =
      All-get_elem? (λ j. child_page j root ≡ some at) (keys qs) halves.half inside
        (get_elem?-keys qs halves.half halves.first halves.at_half) in
    let (i, e, below) =
      places-get b.next_free_offset b.pages b.root_offset root laid.places r.there in
    let (j, f, n_below) = places-get b.next_free_offset b.pages at pg laid.places l.there in
    (
      root',
      s,
      split_leaf-halved root root' n s b run linked,
      is_full-internal root' internal ∙ (let room = r.room in ground (arith, more, room)),
      record {
        router = r.router;
        top = r.there;
        same_place = same_place ∙ Spread-get b.pages b.root_offset root laid.spread r.there;
        internal = internal;
        routes = routes;
        halves = halves;
        tidy = tidy;
        separates =
            subst (λ x. child_page x root ≡ some pg.file_offset) (sym halves.separates)
              (sep ∙ ap some (sym own));
        root_below = below;
        n_below = omega (arith, own, n_below);
        apart = λ e.
            leaf_not_root b root pg at r.there r.router.internal l.there l.tidy.leaf (sym own ∙ e);
      },
    )

some_if : (t : Bool) (x y : Found) → some (if t then x else y) ≡ (if t then some x else some y)
some_if true x y = refl
some_if false x y = refl

-- What a key finds afterwards if the leaf was split.
splits-get :
    (k : Key) (v : List ℕ) (b : BTree) (root root' pg : Node) (es : List InternalCell) (at : ℕ)
    (ps : List Pair) (s : Split) (k' : Key)
    → IsLaid b
    → IsRoot b root es
    → IsLeafOf b root k at pg ps
    → lookup k ps ≡ key_not_found
    → Scene b root root' (filled pg ps k v) es (place (k, v) ps) s
    → get 1 k' (halved root' s b) ≡ (if bytes_equal k k' then some (value v) else get 1 k' b)
unfolding mark_dirty insert_leaf_cell
splits-get k v b root root' pg es at ps s k' laid r l absent h =
    let n = filled pg ps k v in
    let qs = place (k, v) ps in
    let own : pg.file_offset ≡ at = Spread-get b.pages at pg laid.spread l.there in
    let q = r.router in
    let x = route k' es q.first.file_offset in
    let goes : child_page k' root ≡ some x =
      child_page-route root es q.first k' q.names q.has_first in
    elim (Bool-cases (x == at)) [
      | inl e ↦
          let here : child_page k' root ≡ some at = goes ∙ ap some ((==_iff x at).0 e) in
          own-get b root root' n es qs s h k' (here ∙ ap some (sym own))
          ∙ ap some (lookup-place (k, v) ps k' absent)
          ∙ some_if (bytes_equal k k') (value v) (lookup k' ps)
          ∙ ap (λ y. if bytes_equal k k' then some (value v) else y)
              (sym (
                get_via b k' root pg at r.there q.internal here l.there l.tidy.leaf
                ∙ ap some (l.tidy.finds k')))
      | inr e ↦
          let apart : x ≢ at =
            λ same. let yes1 = (==_iff x at).1 same in absurd (ground (arith, e, yes1)) in
          let other : bytes_equal k k' ≡ false = unequal k k' (λ same. apart (
            some-injective _ _
              (sym goes ∙ subst (λ y. child_page y root ≡ some at) same l.goes))) in
          let (leaf, there, t) = r.leaves k' x goes in
          let (j, f, below) = places-get b.next_free_offset b.pages x leaf laid.places there in
          other-get b root root' n es qs s h k' x leaf goes (λ same. apart (same ∙ own)) there t
            below
          ∙ rw other refl
    ]

-- What a key finds afterwards if no page was added.
stays-get :
    (k : Key) (v : List ℕ) (b b' : BTree) (k' : Key)
    → IsLaid b
    → put 1 k v b ≡ some b'
    → b'.next_free_offset ≡ b.next_free_offset
    → get 1 k' b' ≡ (if bytes_equal k k' then some (value v) else get 1 k' b)
stays-get k v b b' k' laid run same =
    let (got, others) = put-get 1 k v b b' laid run same in
    elim (Bool-cases (bytes_equal k k')) [
      | inl e ↦ rw e (subst (λ x. get 1 x b' ≡ some (value v)) ((bytes_equal_iff k k').0 e) got)
      | inr e ↦ others k' e ∙ rw e refl
    ]

-- On a tree of a root over leaves, of which the root has room for one more cell, a put of a new key
-- into a leaf of fewer than nine cells, in the ascending order of their keys and all searched in that
-- leaf, returns, also where it splits the leaf. Afterwards the key is found with its value, and every
-- other key is found, or not, as before.
pub split_put-get :
    (k : Key) (v : List ℕ) (b : BTree) (root pg : Node) (es : List InternalCell) (at : ℕ)
    (ps : List Pair)
    → IsLaid b
    → IsRoot b root es
    → IsLeafOf b root k at pg ps
    → lookup k ps ≡ key_not_found
    → length ps < max_leaf_node_cells
    → (b' : BTree) × (put 1 k v b ≡ some b')
      × ((k' : Key) → get 1 k' b' ≡ (if bytes_equal k k' then some (value v) else get 1 k' b))
unfolding mark_dirty insert_leaf_cell
split_put-get k v b root pg es at ps laid r l absent small =
    let n = filled pg ps k v in
    let q = r.router in
    let own : pg.file_offset ≡ at = Spread-get b.pages at pg laid.spread l.there in
    let inserts = insert_leaf-new (some root) pg ps k v b (omega (arith, small)) absent l.tidy in
    let tidy = filled-IsTidy pg ps k v (omega (arith, small)) absent l.tidy in
    let longer : length (place (k, v) ps) ≡ suc (length ps) =
      length-inserted (lower_bound k (keys ps)) (k, v) ps in
    let count = length-pairs_of n.leaf_cell n.offsets (place (k, v) ps) tidy.holds in
    elim (Bool-cases (is_full n)) [
      | inl full ↦
          let nine : leb 9 (length n.offsets) ≡ true = sym (is_full-leaf n tidy.leaf) ∙ full in
          let (root', s, run, room, scene) =
            splits k v b root pg es at ps laid r l absent (ground (arith, nine, count, longer))
              small in
          (
            halved root' s b,
            put_below k v b (halved root' s b) root root' pg at r.there q.internal l.goes l.there
                l.tidy.leaf (inserts ∙ rw full run)
                (root_at b root root' n es (place (k, v) ps) s scene) room,
            λ k'. splits-get k v b root root' pg es at ps s k' laid r l absent scene,
          )
      | inr part ↦
          let run : put 1 k v b ≡ some (write_back n b) =
            put_below k v b (write_back n b) root root pg at r.there q.internal l.goes l.there
              l.tidy.leaf (inserts ∙ rw part refl)
              (unfold write_back in
                get-put_other n.file_offset b.root_offset n b.pages (
                  differs n.file_offset b.root_offset (λ e.
                    leaf_not_root b root pg at r.there q.internal l.there l.tidy.leaf
                      (sym own ∙ e)))
                ∙ r.there)
              (is_full-internal root q.internal ∙ (let room = r.room in ground (arith, room))) in
          (
            write_back n b,
            run,
            λ k'. stays-get k v b (write_back n b) k' laid run (unfold write_back in refl),
          )
    ]
