-- ===== src/Tree/Placed.antt =====
-- Which leaf a `put` that adds no page changes (btree.go).
use harmony_db.Base.{
  ℕ, ◌≤◌, ◌<◌, ◌≡◌, refl, sym, ◌∙◌, subst, ◌⊎◌, true, Option, none, some, some-injective, List,
  arith, Option-cases, inl, inr, bind_some, if_cases,
}
use harmony_db.Tree.Page.{
  Key, Node, new_node, Split, find_cell, update_cell, find_ins_point_for_key, key_at, is_full,
  mark_dirty, insert_leaf_cell, split,
}
use harmony_db.Tree.Store.{
  BTree, write_back, add, set_root_page, grow_root, link_leaf, link, split_leaf, insert_new,
  insert_leaf, link_internal, split_internal,
}
use harmony_db.Tree.Lookup.{LeafPut, found_in-update_cell, found_in-append}

-- Pages are added and never removed.
link-le :
    (parent : Option Node) (s : Split) (b b' : BTree)
    → link parent s b ≡ some b'
    → b.next_free_offset ≤ b'.next_free_offset
unfolding link grow_root link_leaf set_root_page add write_back
link-le none s b b' h =
    let (first, p, q) = bind_some (key_at s.old 0) _ b' h in
    subst (λ x. b.next_free_offset ≤ x.next_free_offset) (some-injective _ _ q) (omega arith)
link-le (some parent) s b b' h =
    let (o, p, q) = bind_some (find_ins_point_for_key s.separator parent) _ b' h in
    subst (λ x. b.next_free_offset ≤ x.next_free_offset) (some-injective _ _ q) (omega arith)

split_leaf-lt :
    (parent : Option Node) (curr : Node) (b b' : BTree)
    → split_leaf parent curr b ≡ some b'
    → b.next_free_offset < b'.next_free_offset
unfolding split_leaf add write_back
split_leaf-lt parent curr b b' h =
    let (s, p, q) = bind_some (split curr new_node) _ b' h in
    let more = link-le parent _ _ b' q in omega (arith, more)

link_internal-le :
    (parent : Option Node) (s : Split) (b b' : BTree)
    → link_internal parent s b ≡ some b'
    → b.next_free_offset ≤ b'.next_free_offset
unfolding link_internal write_back
link_internal-le none s b b' h = absurd (ground (arith, h))
link_internal-le (some parent) s b b' h =
    let (o, p, q) = bind_some (find_ins_point_for_key s.separator s.new) _ b' h in
    subst (λ x. b.next_free_offset ≤ x.next_free_offset) (some-injective _ _ q) (omega arith)

pub split_internal-cases :
    (parent : Option Node) (curr : Node) (b b' : BTree)
    → split_internal parent curr b ≡ some b'
    → (b ≡ b') ⊎ (b.next_free_offset < b'.next_free_offset)
unfolding split_internal add write_back
split_internal-cases parent curr b b' h = elim (if_cases (is_full curr) _ _ _ h) [
  | inr (e, q) ↦ inl (some-injective _ _ q)
  | inl (e, q) ↦
      let (s, p, r) = bind_some (split curr new_node) _ b' q in
      let more = link_internal-le parent _ _ b' r in inr (omega (arith, more))
]

-- A put into a leaf that adds no page writes one changed leaf back.
pub record Rewritten (k : Key) (v : List ℕ) (curr : Node) (b b' : BTree) : Type 0 where
  pub new : Node
  pub put : LeafPut k v curr.file_offset curr new
  pub tree : b' ≡ write_back new b

insert_new-cases :
    (parent : Option Node) (curr : Node) (k : Key) (v : List ℕ) (b b' : BTree)
    → find_cell k curr.leaf_cell ≡ none
    → curr.is_leaf ≡ true
    → insert_new parent curr k v b ≡ some b'
    → Rewritten k v curr b b' ⊎ (b.next_free_offset < b'.next_free_offset)
unfolding insert_new mark_dirty insert_leaf_cell
insert_new-cases parent curr k v b b' n t h =
    let (o, p, q) = bind_some (find_ins_point_for_key k curr) _ b' h in
    elim (if_cases (is_full (mark_dirty (insert_leaf_cell o k v curr))) _ _ _ q) [
      | inl (e, r) ↦ inr (split_leaf-lt parent _ b b' r)
      | inr (e, r) ↦ inl (record {
        new = mark_dirty (insert_leaf_cell o k v curr);
        put = record {
          leaf = t;
          place = refl;
          finds = λ k'. found_in-append k k' v curr.leaf_cell n;
        };
        tree = sym (some-injective _ _ r);
      })
    ]

pub insert_leaf-cases :
    (parent : Option Node) (curr : Node) (k : Key) (v : List ℕ) (b b' : BTree)
    → curr.is_leaf ≡ true
    → insert_leaf parent curr k v b ≡ some b'
    → Rewritten k v curr b b' ⊎ (b.next_free_offset < b'.next_free_offset)
unfolding mark_dirty
insert_leaf-cases parent curr k v b b' t h = elim (Option-cases (find_cell k curr.leaf_cell)) [
  | inl n ↦
      let fresh : insert_leaf parent curr k v b ≡ insert_new parent curr k v b =
        unfold insert_leaf in rw (n, insert_leaf) refl in
      insert_new-cases parent curr k v b b' n t (sym fresh ∙ h)
  | inr (c, n) ↦
      let new = mark_dirty (record curr { leaf_cell = update_cell k v curr.leaf_cell }) in
      let known : insert_leaf parent curr k v b ≡ some (write_back new b) =
        unfold insert_leaf in rw (n, insert_leaf) refl in
      inl (record {
        new = new;
        put = record {
          leaf = t;
          place = refl;
          finds = λ k'. found_in-update_cell k k' v curr.leaf_cell c n;
        };
        tree = sym (some-injective _ _ (sym known ∙ h));
      })
]
