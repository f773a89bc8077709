-- ===== src/Tree/Below.antt =====
-- Searches through a root over leaves (btree.go).
use Prim.Native.Nat.{Ordering}
use harmony_db.Base.{
  ℕ, ◌≡◌, refl, sym, ◌∙◌, subst, Bool, true, false, not, some, some-injective, List, [], ◌∷◌, arith,
  drop, get_elem?, Bool-cases, inl, inr, bind_some, ◌>>=◌,
}
use harmony_db.Base.Maps
use harmony_db.Base.Maps.{get-put, get-put_self}
use harmony_db.Tree.Page.{Key, Node, InternalCell, is_at_least, compare_bytes, find_child_page}
use harmony_db.Tree.Order.{lower_bound, eq_of_compare, lt_of_gt}
use harmony_db.Tree.Search.{Ordering-cases}
use harmony_db.Tree.Store.{BTree, found_in, get}
use harmony_db.Tree.Lookup.{get_from-leaf, get_from-internal}
use harmony_db.Tree.Routing.{
  below_of_lt, lower_bound-front, lower_bound-behind, child_page, route, is_below, cell_keys,
}

-- A search through the root to the leaf at `at`.
pub get_via :
    (b : BTree) (k : Key) (root leaf : Node) (at : ℕ)
    → Maps.get b.root_offset b.pages ≡ some root
    → root.is_leaf ≡ false
    → child_page k root ≡ some at
    → Maps.get at b.pages ≡ some leaf
    → leaf.is_leaf ≡ true
    → get 1 k b ≡ some (found_in k leaf.leaf_cell)
unfolding get
get_via b k root leaf at top inner goes there t =
    let (i, index, rest) = bind_some (find_child_page k root) _ at goes in
    let (c, cell, last) = bind_some (get_elem? root.internal_cell i) _ at rest in
    let own : c.file_offset ≡ at = some-injective _ _ last in
    get_from-internal 1 b.root_offset k b root top inner
    ∙ rw (index, ◌>>=◌, cell, own) (get_from-leaf 0 at k b leaf there t)

false_of_flip : (a : Bool) → not a ≡ true → a ≡ false
false_of_flip true h = absurd cc
false_of_flip false h = refl

below_self : (a b : Key) → compare_bytes a b ≡ Ordering.lt → is_at_least a b ≡ false
unfolding is_at_least
below_self a b h = ground (arith, h)

above_self : (a b : Key) → compare_bytes a b ≡ Ordering.gt → is_at_least a b ≡ true
unfolding is_at_least
above_self a b h = ground (arith, h)

-- A key that goes to the new page of a separator went where the separator went.
pub route_as :
    (sep k : Key) (es : List InternalCell) (at : ℕ)
    → is_at_least k sep ≡ true
    → is_below k (drop (lower_bound sep (cell_keys es)) es) ≡ true
    → route k es at ≡ route sep es at
unfolding route
route_as sep k [] at h n = refl
route_as sep k (x ∷ es) at h n = elim (Ordering-cases (compare_bytes sep x.key)) [
  | inl lt ↦
      let z = lower_bound-front sep x.key (cell_keys es) (λ gt. let both = sym lt ∙ gt in cc) in
      let low : not (is_at_least k x.key) ≡ true =
        subst (λ o. is_below k (drop o (x ∷ es)) ≡ true) z n in
      rw (false_of_flip (is_at_least k x.key) low, below_self sep x.key lt) refl
  | inr (inl eq) ↦
      let z = lower_bound-front sep x.key (cell_keys es) (λ gt. let both = sym eq ∙ gt in cc) in
      let low : not (is_at_least k x.key) ≡ true =
        subst (λ o. is_below k (drop o (x ∷ es)) ≡ true) z n in
      let same : is_at_least k x.key ≡ true =
        subst (λ y. is_at_least k y ≡ true) (eq_of_compare sep x.key eq) h in
      absurd (let no = sym same ∙ false_of_flip (is_at_least k x.key) low in cc)
  | inr (inr gt) ↦
      let z = lower_bound-behind sep x.key (cell_keys es) gt in
      let rest : is_below k (drop (lower_bound sep (cell_keys es)) es) ≡ true =
        subst (λ o. is_below k (drop o (x ∷ es)) ≡ true) z n in
      let up : is_at_least k x.key ≡ true = elim (Bool-cases (is_at_least k x.key)) [
        | inl t ↦ t
        | inr f ↦
            let no = below_of_lt k x.key sep f (lt_of_gt sep x.key gt) in
            absurd (let both = sym h ∙ no in cc)
      ] in
      rw (up, above_self sep x.key gt) (route_as sep k es x.file_offset h rest)
]
