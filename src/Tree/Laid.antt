-- ===== src/Tree/Laid.antt =====
-- `put` keeps the pages of a tree in their places (btree.go).
use harmony_db.Base.{
  ℕ, zero, suc, ◌≤◌, ◌≡◌, refl, sym, ◌∙◌, ap, subst, true, Option, none, some, some-injective, List,
  [], arith, ◌==◌, if◌then◌else◌, Bool-cases, Option-cases, inl, inr, bind_some, if_cases, if_intro,
  ◌>>=◌, length, take, drop, ◌/◌,
}
use harmony_db.Base.Maps
use harmony_db.Tree.Page.{
  Key, Node, new_node, Split, u16, find_cell, find_ins_point_for_key, key_at, is_full, mark_dirty,
  append_internal_cell, insert_internal_cell, insert_leaf_cell, move_leaf, move_internal, split,
  update_cell,
}
use harmony_db.Tree.Store.{
  BTree, write_back, add, set_root_page, new_btree, grow_root, link_leaf, link, split_leaf,
  insert_new, insert_leaf, link_internal, split_internal, insert_internal, put,
}
use harmony_db.Tree.PutGet.{descent, into_leaf, into_internal}
use harmony_db.Tree.Layout.{IsPlace, IsLaid, write_back-IsLaid, add-IsLaid, places-get, Spread-get}

-- The page of a pointer that may be nil has a place.
HasPlace : ℕ → Option Node → Type 0
HasPlace free none = Unit
HasPlace free (some pg) = IsPlace free pg.file_offset

HasPlace-wider :
    (free free' : ℕ) (pg : Option Node) → free ≤ free' → HasPlace free pg → HasPlace free' pg
unfolding HasPlace
HasPlace-wider free free' none h k = tt
HasPlace-wider free free' (some pg) h (j, e, lt) = (j, e, omega (arith, h, lt))

moved-place :
    (moved : Option Node) (n : Node) (kept : List ℕ) (s : Split)
    → (moved >>= λ new. key_at new 0 >>= λ sep.
        some (record { old = record n { offsets = kept }; new = new; separator = sep }))
      ≡ some s
    → s.old.file_offset ≡ n.file_offset
moved-place moved n kept s h =
    let (new, p, q) = bind_some moved _ s h in
    let (sep, r, t) = bind_some (key_at new 0) _ s q in
    ap (λ x. x.old.file_offset) (sym (some-injective _ _ t))

split-place : (n pg : Node) (s : Split) → split n pg ≡ some s → s.old.file_offset ≡ n.file_offset
unfolding split
split-place n pg s h =
    let at = length n.offsets / 2 in
    let new : Node = record pg { is_leaf = n.is_leaf } in
    let moved : Option Node =
      if n.is_leaf
      then move_leaf n.leaf_cell (drop at n.offsets) new
      else move_internal n.internal_cell (drop at n.offsets) new in
    moved-place moved n (take at n.offsets) s h

link_cell-IsLaid :
    (parent : Node) (key : Key) (o at : ℕ) (b : BTree)
    → IsLaid b
    → IsPlace b.next_free_offset parent.file_offset
    → IsLaid (
        write_back
          (if o == u16 (length parent.offsets)
            then append_internal_cell at key parent
            else insert_internal_cell o at key parent)
          b)
unfolding append_internal_cell insert_internal_cell
link_cell-IsLaid parent key o at b h p =
    if_intro (λ pg. IsLaid (write_back pg b)) (o == u16 (length parent.offsets)) _ _
      (λ _. write_back-IsLaid _ b h p) (λ _. write_back-IsLaid _ b h p)

set_root_page-IsLaid : (pg : Node) (b : BTree) → IsLaid b → IsLaid (set_root_page pg b)
unfolding set_root_page
set_root_page-IsLaid pg b h =
    let a = add-IsLaid pg b h in record { spread = a.spread; places = a.places; free = a.free }

link-IsLaid :
    (parent : Option Node) (s : Split) (b b' : BTree)
    → IsLaid b
    → HasPlace b.next_free_offset parent
    → link parent s b ≡ some b'
    → IsLaid b'
unfolding link grow_root link_leaf HasPlace
link-IsLaid none s b b' h k e =
    let (first, p, q) = bind_some (key_at s.old 0) _ b' e in
    subst IsLaid (some-injective _ _ q) (
      set_root_page-IsLaid
        (append_internal_cell s.new.file_offset s.separator
          (append_internal_cell s.old.file_offset first new_node))
        b h)
link-IsLaid (some parent) s b b' h k e =
    let (o, p, q) = bind_some (find_ins_point_for_key s.separator parent) _ b' e in
    subst IsLaid (some-injective _ _ q)
      (link_cell-IsLaid parent s.separator o s.new.file_offset b h k)

link_internal-IsLaid :
    (parent : Option Node) (s : Split) (b b' : BTree)
    → IsLaid b
    → HasPlace b.next_free_offset parent
    → link_internal parent s b ≡ some b'
    → IsLaid b'
unfolding link_internal HasPlace
link_internal-IsLaid none s b b' h k e = absurd (ground (arith, e))
link_internal-IsLaid (some parent) s b b' h k e =
    let (o, p, q) = bind_some (find_ins_point_for_key s.separator s.new) _ b' e in
    subst IsLaid (some-injective _ _ q)
      (link_cell-IsLaid parent s.separator o s.new.file_offset b h k)

-- The tree in which both halves of a page stand.
halves-IsLaid :
    (curr : Node) (s : Split) (b : BTree)
    → split curr new_node ≡ some s
    → IsLaid b
    → IsPlace b.next_free_offset curr.file_offset
    → IsLaid (add s.new (write_back s.old b)).1
halves-IsLaid curr s b e h k =
    let own : IsPlace b.next_free_offset s.old.file_offset =
      subst (IsPlace b.next_free_offset) (sym (split-place curr new_node s e)) k in
    add-IsLaid s.new (write_back s.old b) (write_back-IsLaid s.old b h own)

split_leaf-IsLaid :
    (parent : Option Node) (curr : Node) (b b' : BTree)
    → IsLaid b
    → HasPlace b.next_free_offset parent
    → IsPlace b.next_free_offset curr.file_offset
    → split_leaf parent curr b ≡ some b'
    → IsLaid b'
unfolding split_leaf
split_leaf-IsLaid parent curr b b' h k c e =
    let (s, p, q) = bind_some (split curr new_node) _ b' e in
    link-IsLaid parent _ _ b' (halves-IsLaid curr s b p h c)
      (unfold add write_back in HasPlace-wider b.next_free_offset _ parent (omega arith) k) q

insert_new-IsLaid :
    (parent : Option Node) (curr : Node) (k : Key) (v : List ℕ) (b b' : BTree)
    → IsLaid b
    → HasPlace b.next_free_offset parent
    → IsPlace b.next_free_offset curr.file_offset
    → insert_new parent curr k v b ≡ some b'
    → IsLaid b'
unfolding insert_new mark_dirty insert_leaf_cell
insert_new-IsLaid parent curr k v b b' h p c e =
    let (o, q, r) = bind_some (find_ins_point_for_key k curr) _ b' e in
    elim (if_cases (is_full (mark_dirty (insert_leaf_cell o k v curr))) _ _ _ r) [
      | inl (f, t) ↦
          split_leaf-IsLaid parent (mark_dirty (insert_leaf_cell o k v curr)) b b' h p c t
      | inr (f, t) ↦
          subst IsLaid (some-injective _ _ t)
            (write_back-IsLaid (mark_dirty (insert_leaf_cell o k v curr)) b h c)
    ]

insert_leaf-IsLaid :
    (parent : Option Node) (curr : Node) (k : Key) (v : List ℕ) (b b' : BTree)
    → IsLaid b
    → HasPlace b.next_free_offset parent
    → IsPlace b.next_free_offset curr.file_offset
    → insert_leaf parent curr k v b ≡ some b'
    → IsLaid b'
unfolding mark_dirty
insert_leaf-IsLaid parent curr k v b b' h p c e = elim (Option-cases (find_cell k curr.leaf_cell)) [
  | inl n ↦
      let fresh : insert_leaf parent curr k v b ≡ insert_new parent curr k v b =
        unfold insert_leaf in rw (n, insert_leaf) refl in
      insert_new-IsLaid parent curr k v b b' h p c (sym fresh ∙ e)
  | inr (cell, n) ↦
      let new = mark_dirty (record curr { leaf_cell = update_cell k v curr.leaf_cell }) in
      let known : insert_leaf parent curr k v b ≡ some (write_back new b) =
        unfold insert_leaf in rw (n, insert_leaf) refl in
      subst IsLaid (some-injective _ _ (sym known ∙ e)) (write_back-IsLaid new b h c)
]

split_internal-IsLaid :
    (parent : Option Node) (curr : Node) (b b' : BTree)
    → IsLaid b
    → HasPlace b.next_free_offset parent
    → IsPlace b.next_free_offset curr.file_offset
    → split_internal parent curr b ≡ some b'
    → IsLaid b'
unfolding split_internal
split_internal-IsLaid parent curr b b' h p c e = elim (if_cases (is_full curr) _ _ _ e) [
  | inr (f, t) ↦ subst IsLaid (some-injective _ _ t) h
  | inl (f, t) ↦
      let (s, q, r) = bind_some (split curr new_node) _ b' t in
      link_internal-IsLaid parent _ _ b' (halves-IsLaid curr s b q h c)
        (unfold add write_back in HasPlace-wider b.next_free_offset _ parent (omega arith) p) r
]

-- The places of the pages that the cache has.
page-IsPlace :
    (at : ℕ) (pg : Node) (b : BTree)
    → IsLaid b
    → Maps.get at b.pages ≡ some pg
    → IsPlace b.next_free_offset pg.file_offset
page-IsPlace at pg b h g =
    subst (IsPlace b.next_free_offset) (sym (Spread-get b.pages at pg h.spread g))
      (places-get b.next_free_offset b.pages at pg h.places g)

page-HasPlace :
    (parent : Option ℕ) (b : BTree)
    → IsLaid b
    → HasPlace b.next_free_offset (parent >>= λ p. Maps.get p b.pages)
unfolding HasPlace
page-HasPlace none b h = tt
page-HasPlace (some p) b h = elim (Option-cases (Maps.get p b.pages)) [
  | inl e ↦ rw e tt
  | inr (pg, e) ↦ rw e (page-IsPlace p pg b h e)
]

insert_internal-IsLaid :
    (depth : ℕ) (parent : Option ℕ) (at : ℕ) (k : Key) (v : List ℕ) (b b' : BTree)
    → IsLaid b
    → insert_internal depth parent at k v b ≡ some b'
    → IsLaid b'
insert_internal-IsLaid zero parent at k v b b' h e =
    absurd (unfold insert_internal in ground (arith, e))
insert_internal-IsLaid (suc depth) parent at k v b b' h e =
    let d = descent depth parent at k v b b' e in
    let inner : IsLaid d.b1 = elim (Bool-cases d.child.is_leaf) [
      | inl t ↦
          insert_leaf-IsLaid (some d.pg) d.child k v b d.b1 h
            (unfold HasPlace in page-IsPlace at d.pg b h d.found)
            (page-IsPlace d.c.file_offset d.child b h d.below)
            (sym (into_leaf d.pg d.child k v b _ t) ∙ d.into)
      | inr l ↦
          insert_internal-IsLaid depth (some at) d.c.file_offset k v b d.b1 h
            (sym (into_internal d.pg d.child k v b _ l) ∙ d.into)
    ] in
    split_internal-IsLaid _ d.pg1 d.b1 b' inner (page-HasPlace parent d.b1 inner)
      (page-IsPlace at d.pg1 d.b1 inner d.again) d.splits

-- A put that does not panic keeps the pages of the tree in their places, also where it splits pages
-- and grows the tree: every page stands under its own offset, a multiple of the page size below the
-- next free offset, and no two pages overlap.
pub put-IsLaid :
    (depth : ℕ) (k : Key) (v : List ℕ) (b b' : BTree)
    → IsLaid b
    → put depth k v b ≡ some b'
    → IsLaid b'
unfolding put
put-IsLaid depth k v b b' h e =
    let (pg, g, r) = bind_some (Maps.get b.root_offset b.pages) _ b' e in
    elim (if_cases pg.is_leaf _ _ _ r) [
      | inl (t, q) ↦
          insert_leaf-IsLaid none pg k v b b' h (unfold HasPlace in tt)
            (page-IsPlace b.root_offset pg b h g) q
      | inr (l, q) ↦ insert_internal-IsLaid depth none b.root_offset k v b b' h q
    ]

-- The tree of an empty file.
pub new_btree-IsLaid : IsLaid new_btree
unfolding new_btree
new_btree-IsLaid =
    set_root_page-IsLaid (record new_node { is_leaf = true })
      (record { pages = []; root_offset = 0; next_free_offset = 0 })
      (record { spread = tt; places = tt; free = (0, refl) })
