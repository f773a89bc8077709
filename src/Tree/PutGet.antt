-- ===== src/Tree/PutGet.antt =====
-- `get` after a `put` that adds no page (btree.go).
use harmony_db.Base.{
  ℕ, zero, suc, ◌<◌, ◌≡◌, sym, ◌∙◌, ap, subst, ◌⊎◌, true, false, Option, none, some, some-injective,
  List, arith, get_elem?, Bool-cases, inl, inr, bind_some, if_cases, ◌>>=◌,
}
use harmony_db.Base.Maps
use harmony_db.Tree.Page.{Key, Node, InternalCell, find_child_page, bytes_equal}
use harmony_db.Tree.Store.{
  BTree, value, write_back, insert_leaf, into_child, split_internal, insert_internal, put, get,
}
use harmony_db.Tree.Lookup.{LeafPut, Route, at_leaf, below, replaced, get_from-other, get_from-put}
use harmony_db.Tree.Layout.{IsLaid, Spread-get}
use harmony_db.Tree.Placed.{insert_leaf-cases, split_internal-cases}

-- The leaf that a put changed, and the way to it.
pub record PutAt (depth : ℕ) (k : Key) (v : List ℕ) (at : ℕ) (b b' : BTree) : Type 0 where
  pub place : ℕ
  pub old : Node
  pub new : Node
  pub there : Maps.get place b.pages ≡ some old
  pub leaf : old.is_leaf ≡ true
  pub put : LeafPut k v place old new
  pub route : Route b k place old depth at
  pub tree : b' ≡ replaced b k v place old new

-- Every page of the cache stands under its own offset.
IsPlaced : BTree → Type 0
IsPlaced b = (at : ℕ) (pg : Node) → Maps.get at b.pages ≡ some pg → pg.file_offset ≡ at

-- Either no page was added, and one leaf has changed, or there are more pages.
PutCases : ℕ → Key → List ℕ → ℕ → BTree → BTree → Type 0
PutCases depth k v at b b' = PutAt depth k v at b b' ⊎ (b.next_free_offset < b'.next_free_offset)

leaf-PutCases :
    (depth : ℕ) (parent : Option Node) (at : ℕ) (k : Key) (v : List ℕ) (b b' : BTree) (pg : Node)
    → IsPlaced b
    → Maps.get at b.pages ≡ some pg
    → pg.is_leaf ≡ true
    → insert_leaf parent pg k v b ≡ some b'
    → PutCases (suc depth) k v at b b'
unfolding PutCases IsPlaced replaced write_back
leaf-PutCases depth parent at k v b b' pg w g t h =
    elim (insert_leaf-cases parent pg k v b b' t h) [
      | inr more ↦ inr more
      | inl r ↦
          let own : pg.file_offset ≡ at = w at pg g in
          let place : r.new.file_offset ≡ at = r.put.place ∙ own in
          inl (record {
            place = at;
            old = pg;
            new = r.new;
            there = g;
            leaf = t;
            put = subst (λ x. LeafPut k v x pg r.new) own r.put;
            route = at_leaf g t;
            tree = r.tree ∙ ap (λ x. record b { pages = Maps.put x r.new b.pages }) place;
          })
    ]

-- The puts below an internal page, and the page itself afterwards.
step-PutCases :
    (depth at : ℕ) (k : Key) (v : List ℕ) (b b1 b' : BTree) (parent : Option Node) (pg pg1 : Node)
    (i : ℕ) (c : InternalCell)
    → Maps.get at b.pages ≡ some pg
    → pg.is_leaf ≡ false
    → find_child_page k pg ≡ some i
    → get_elem? pg.internal_cell i ≡ some c
    → PutCases depth k v c.file_offset b b1
    → split_internal parent pg1 b1 ≡ some b'
    → PutCases (suc depth) k v at b b'
unfolding PutCases replaced
step-PutCases depth at k v b b1 b' parent pg pg1 i c g l p q (inl r) s =
    elim (split_internal-cases parent pg1 b1 b' s) [
      | inl same ↦ inl (record {
        place = r.place;
        old = r.old;
        new = r.new;
        there = r.there;
        leaf = r.leaf;
        put = r.put;
        route = below g l p q r.route;
        tree = sym same ∙ r.tree;
      })
      | inr more ↦
          inr (let stays = ap (λ x. x.next_free_offset) r.tree in omega (arith, more, stays))
    ]
step-PutCases depth at k v b b1 b' parent pg pg1 i c g l p q (inr more) s =
    elim (split_internal-cases parent pg1 b1 b' s) [
      | inl same ↦ inr (let stays = ap (λ x. x.next_free_offset) same in omega (arith, more, stays))
      | inr further ↦ inr (omega (arith, more, further))
    ]

pub into_leaf :
    (curr child : Node) (k : Key) (v : List ℕ) (b : BTree) (deeper : Option BTree)
    → child.is_leaf ≡ true
    → into_child deeper curr child k v b ≡ insert_leaf (some curr) child k v b
unfolding into_child
into_leaf curr child k v b deeper t =
    ap (λ x. elim x [ true ↦ insert_leaf (some curr) child k v b | false ↦ deeper ]) t

pub into_internal :
    (curr child : Node) (k : Key) (v : List ℕ) (b : BTree) (deeper : Option BTree)
    → child.is_leaf ≡ false
    → into_child deeper curr child k v b ≡ deeper
unfolding into_child
into_internal curr child k v b deeper l =
    ap (λ x. elim x [ true ↦ insert_leaf (some curr) child k v b | false ↦ deeper ]) l

child-PutCases :
    (depth : ℕ) (curr child : Node) (at : ℕ) (k : Key) (v : List ℕ) (b b1 : BTree)
    (deeper : Option BTree)
    → IsPlaced b
    → Maps.get at b.pages ≡ some child
    → (child.is_leaf ≡ false → deeper ≡ some b1 → PutCases (suc depth) k v at b b1)
    → into_child deeper curr child k v b ≡ some b1
    → PutCases (suc depth) k v at b b1
child-PutCases depth curr child at k v b b1 deeper w g ih h = elim (Bool-cases child.is_leaf) [
  | inl t ↦
      leaf-PutCases depth (some curr) at k v b b1 child w g t
        (sym (into_leaf curr child k v b deeper t) ∙ h)
  | inr l ↦ ih l (sym (into_internal curr child k v b deeper l) ∙ h)
]

-- The statements that an insertion below an internal page went through.
pub record Descent (depth : ℕ) (parent : Option ℕ) (at : ℕ) (k : Key) (v : List ℕ) (b b' : BTree)
    : Type 0 where
  pub pg : Node
  pub i : ℕ
  pub c : InternalCell
  pub child : Node
  pub b1 : BTree
  pub pg1 : Node
  pub found : Maps.get at b.pages ≡ some pg
  pub index : find_child_page k pg ≡ some i
  pub cell : get_elem? pg.internal_cell i ≡ some c
  pub below : Maps.get c.file_offset b.pages ≡ some child
  pub into :
      into_child (insert_internal depth (some at) c.file_offset k v b) pg child k v b ≡ some b1
  pub again : Maps.get at b1.pages ≡ some pg1
  pub splits : split_internal (parent >>= λ p. Maps.get p b1.pages) pg1 b1 ≡ some b'

pub descent :
    (depth : ℕ) (parent : Option ℕ) (at : ℕ) (k : Key) (v : List ℕ) (b b' : BTree)
    → insert_internal (suc depth) parent at k v b ≡ some b'
    → Descent depth parent at k v b b'
unfolding insert_internal
descent depth parent at k v b b' h =
    let (pg, g, h1) = bind_some (Maps.get at b.pages) _ b' h in
    let (i, p, h2) = bind_some (find_child_page k pg) _ b' h1 in
    let (c, q, h3) = bind_some (get_elem? pg.internal_cell i) _ b' h2 in
    let (child, ch, h4) = bind_some (Maps.get c.file_offset b.pages) _ b' h3 in
    let (b1, r, h5) =
      bind_some (into_child (insert_internal depth (some at) c.file_offset k v b) pg child k v b) _
        b' h4 in
    let (pg1, g1, h6) = bind_some (Maps.get at b1.pages) _ b' h5 in
    record {
      pg = pg;
      i = i;
      c = c;
      child = child;
      b1 = b1;
      pg1 = pg1;
      found = g;
      index = p;
      cell = q;
      below = ch;
      into = r;
      again = g1;
      splits = h6;
    }

insert_internal-PutCases :
    (depth : ℕ) (parent : Option ℕ) (at : ℕ) (k : Key) (v : List ℕ) (b b' : BTree) (pg : Node)
    → IsPlaced b
    → Maps.get at b.pages ≡ some pg
    → pg.is_leaf ≡ false
    → insert_internal depth parent at k v b ≡ some b'
    → PutCases (suc depth) k v at b b'
insert_internal-PutCases zero parent at k v b b' pg w g l h =
    absurd (unfold insert_internal in ground (arith, h))
insert_internal-PutCases (suc depth) parent at k v b b' pg w g l h =
    let d = descent depth parent at k v b b' h in
    let l0 : d.pg.is_leaf ≡ false =
      ap (λ x. x.is_leaf) (some-injective _ _ (sym d.found ∙ g)) ∙ l in
    step-PutCases (suc depth) at k v b d.b1 b' _ d.pg d.pg1 d.i d.c d.found l0 d.index d.cell
      (child-PutCases depth d.pg d.child d.c.file_offset k v b d.b1 _ w d.below
        (λ m r.
          insert_internal-PutCases depth (some at) d.c.file_offset k v b d.b1 d.child w d.below m r)
        d.into)
      d.splits

put-PutCases :
    (depth : ℕ) (k : Key) (v : List ℕ) (b b' : BTree)
    → IsPlaced b
    → put depth k v b ≡ some b'
    → PutCases (suc depth) k v b.root_offset b b'
unfolding put
put-PutCases depth k v b b' w h =
    let (pg, g, h1) = bind_some (Maps.get b.root_offset b.pages) _ b' h in
    elim (if_cases pg.is_leaf _ _ _ h1) [
      | inl (t, q) ↦ leaf-PutCases depth none b.root_offset k v b b' pg w g t q
      | inr (l, q) ↦ insert_internal-PutCases depth none b.root_offset k v b b' pg w g l q
    ]

IsLaid-IsPlaced : (b : BTree) → IsLaid b → IsPlaced b
unfolding IsPlaced
IsLaid-IsPlaced b laid = λ at pg g. Spread-get b.pages at pg laid.spread g

-- On a tree of any depth whose pages are in their places, after a put that adds no page the
-- key is found with the value, and every other key is found, or not, as it was before.
pub put-get :
    (depth : ℕ) (k : Key) (v : List ℕ) (b b' : BTree)
    → IsLaid b
    → put depth k v b ≡ some b'
    → b'.next_free_offset ≡ b.next_free_offset
    → (get depth k b' ≡ some (value v))
      × ((k' : Key) → bytes_equal k k' ≡ false → get depth k' b' ≡ get depth k' b)
unfolding PutCases get replaced
put-get depth k v b b' laid h same = elim (put-PutCases depth k v b b' (IsLaid-IsPlaced b laid) h) [
  | inr more ↦ absurd (omega (arith, same, more))
  | inl r ↦
      subst
        (λ x.
          (get depth k x ≡ some (value v))
          × ((k' : Key) → bytes_equal k k' ≡ false → get depth k' x ≡ get depth k' b))
        (sym r.tree)
        (
          get_from-put b k v r.place r.old r.new r.put r.there r.leaf (suc depth) b.root_offset
              r.route,
          (λ k' n.
              get_from-other b k v r.place r.old r.new r.put r.there r.leaf k' n (suc depth)
                b.root_offset),
        )
]
