-- ===== src/Tree/Linking.antt =====
-- Which child a search goes to after a separator is added to an internal page (btree.go).
use harmony_db.Base.{
  ℕ, suc, ◌^◌, ◌<◌, ◌≡◌, refl, sym, ◌∙◌, ap, Bool, true, false, ◌&&◌, some, List, [], ◌∷◌, ◌++◌,
  arith, length, take, drop, Bool-cases, inl, inr, if◌then◌else◌, ◌>>=◌, ◌==◌, take_of_length-le,
  drop_of_length-le,
}
use harmony_db.Tree.Page.{
  Key, Node, Split, InternalCell, is_at_least, append_internal_cell, insert_internal_cell, u16,
}
use harmony_db.Tree.Order.{lower_bound}
use harmony_db.Tree.Search.{find_ins_point-lower_bound}
use harmony_db.Tree.Store.{BTree, write_back, link_leaf}
use harmony_db.Tree.Tidy.{length-inserted}
use harmony_db.Tree.Cells.{cells_of-insert, get_elem?-kept}
use harmony_db.Tree.Routing.{
  IsRouter, IsRouter-HasKeys, child_page, child_page-route, route, route_insert, inserted, is_below,
  cell_keys,
}

-- The page with a new cell.
linked : Node → ℕ → ℕ → Key → Node
linked parent o right key =
    if o == u16 (length parent.offsets)
    then append_internal_cell right key parent
    else insert_internal_cell o right key parent

-- Both branches put the number of the new cell at place `o` of the offsets.
linked_form :
    (parent : Node) (o right : ℕ) (key : Key)
    → length parent.offsets ≡ length parent.internal_cell
    → length parent.offsets < 2 ^ 16
    → linked parent o right key ≡ record parent {
      offsets = take o parent.offsets ++ (length parent.internal_cell ∷ drop o parent.offsets);
      internal_cell = parent.internal_cell ++ (record { key = key; file_offset = right } ∷ []);
    }
unfolding linked
linked_form parent o right key counts few = elim (Bool-cases (o == u16 (length parent.offsets))) [
  | inl e ↦
      let same : o ≡ length parent.offsets = ground (arith, e, few) in
      let number : u16 (length parent.offsets) ≡ length parent.internal_cell =
        omega (arith, few, counts) in
      rw (linked, e)
        (unfold append_internal_cell in
          ap with_offsets (
            rw
              (
                number,
                take_of_length-le o parent.offsets (omega (arith, same)),
                drop_of_length-le o parent.offsets (omega (arith, same)),
              )
              refl))
  | inr e ↦
      let number : u16 (length parent.internal_cell) ≡ length parent.internal_cell =
        omega (arith, few, counts) in
      rw (linked, e)
        (unfold insert_internal_cell in
          ap (λ x. with_offsets (take o parent.offsets ++ (x ∷ drop o parent.offsets))) number)
]
  where
    with_offsets : List ℕ → Node
    with_offsets os = record parent {
      offsets = os;
      internal_cell = parent.internal_cell ++ (record { key = key; file_offset = right } ∷ []);
    }

some_if : (t : Bool) (x y : ℕ) → some (if t then x else y) ≡ (if t then some x else some y)
some_if true x y = refl
some_if false x y = refl

-- Adding the separator of a split to its parent, an internal page whose offsets name all its cells in
-- the ascending order of their keys, returns with an internal page of one offset more, under the same
-- offset in the file, that sends a search to the new page exactly if its key is not below the
-- separator and below the next key of the parent, if there is one, and to the same page as before
-- otherwise.
pub link_leaf-routes :
    (parent : Node) (es : List InternalCell) (s : Split) (b : BTree)
    → IsRouter parent es
    → (parent' : Node) × (link_leaf parent s b ≡ some (write_back parent' b))
      × (parent'.file_offset ≡ parent.file_offset)
      × (parent'.is_leaf ≡ false)
      × (length parent'.offsets ≡ suc (length parent.offsets))
      × ((k : Key)
          → child_page k parent' ≡ (
              if is_at_least k s.separator
                && is_below k (drop (lower_bound s.separator (cell_keys es)) es)
              then some s.new.file_offset
              else child_page k parent))
unfolding link_leaf
link_leaf-routes parent es s b h =
    let o = lower_bound s.separator (cell_keys es) in
    let new : InternalCell = record { key = s.separator; file_offset = s.new.file_offset } in
    let point =
      find_ins_point-lower_bound parent (cell_keys es) s.separator (IsRouter-HasKeys parent es h)
        h.sorted in
    let n : Node = record parent {
      offsets = take o parent.offsets ++ (length parent.internal_cell ∷ drop o parent.offsets);
      internal_cell = parent.internal_cell ++ (new ∷ []);
    } in
    let form : linked parent o s.new.file_offset s.separator ≡ n =
      linked_form parent o s.new.file_offset s.separator h.counts h.few in
    (
      n,
      rw (link_leaf, point, ◌>>=◌) (ap (λ x. some (write_back x b)) (unfold linked in form)),
      refl,
      h.internal,
      length-inserted o (length parent.internal_cell) parent.offsets,
      λ k.
          child_page-route n (inserted new es) h.first k
            (unfold inserted in
              cells_of-insert parent.internal_cell new parent.offsets es o h.names)
            (get_elem?-kept parent.internal_cell new 0 h.first h.has_first)
          ∙ ap some (route_insert new es k h.first.file_offset)
          ∙ some_if (is_at_least k s.separator && is_below k (drop o es)) s.new.file_offset
              (route k es h.first.file_offset)
          ∙ ap
              (λ x.
                if is_at_least k s.separator && is_below k (drop o es)
                then some s.new.file_offset
                else x)
              (sym (child_page-route parent es h.first k h.names h.has_first)),
    )
