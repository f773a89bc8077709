-- ===== src/Tree/Routing.antt =====
-- Which child of an internal page a search goes to (node.go).
use Prim.Native.Nat.{Ordering}
use harmony_db.Base.{
  ℕ, zero, suc, ◌^◌, ◌<◌, ◌≡◌, ◌≢◌, refl, sym, ◌∙◌, ap, subst, Bool, true, false, not, ◌&&◌, Option,
  some, some-injective, List, [], ◌∷◌, ◌++◌, arith, map, length, get_elem?, take, drop, Bool-cases,
  inl, inr, if◌then◌else◌, ◌>>=◌,
}
use harmony_db.Tree.Page.{
  Key, Node, InternalCell, cells_of, is_at_least, compare_bytes, scan_child, find_child_page,
  key_at, cell_key,
}
use harmony_db.Tree.Order.{IsSorted, lower_bound, compare_trans, eq_of_compare, lt_of_gt}
use harmony_db.Tree.Search.{HasKeys, Ordering-cases}
use harmony_db.Tree.Halves.{scan_child-found}
use harmony_db.Tree.Cells.{first_cell, cells_of-get, length-cells_of}

abbrev pub cell_keys : List InternalCell → List Key
cell_keys es = map (λ e. e.key) es

-- The page of the last cell, from the left, that is not above the key; `at` is the page before.
unfoldable pub route : Key → List InternalCell → ℕ → ℕ
route k [] at = at
route k (e ∷ es) at =
    let rest = route k es e.file_offset in if is_at_least k e.key then rest else at

-- The key is below the first of these cells, if there is one.
abbrev pub is_below : Key → List InternalCell → Bool
is_below k [] = true
is_below k (e ∷ es) = not (is_at_least k e.key)

pub below_of_lt :
    (k a b : Key)
    → is_at_least k a ≡ false
    → compare_bytes a b ≡ Ordering.lt
    → is_at_least k b ≡ false
unfolding is_at_least
below_of_lt k a b h lt =
    let low : compare_bytes k a ≡ Ordering.lt = elim (Ordering-cases (compare_bytes k a)) [
      | inl e ↦ e
      | inr (inl e) ↦ absurd (ground (arith, h, e))
      | inr (inr e) ↦ absurd (ground (arith, h, e))
    ] in
    rw (compare_trans k a b low lt, is_at_least) refl

pub lower_bound-front :
    (k a : Key) (ks : List Key) → compare_bytes k a ≢ Ordering.gt → lower_bound k (a ∷ ks) ≡ 0
unfolding lower_bound
lower_bound-front k a ks h = elim (Ordering-cases (compare_bytes k a)) [
  | inl e ↦ ground (arith, e)
  | inr (inl e) ↦ ground (arith, e)
  | inr (inr e) ↦ absurd (h e)
]

pub lower_bound-behind :
    (k a : Key) (ks : List Key)
    → compare_bytes k a ≡ Ordering.gt
    → lower_bound k (a ∷ ks) ≡ suc (lower_bound k ks)
unfolding lower_bound
lower_bound-behind k a ks h = ground (arith, h)

-- The separator comes first: `a` says that the key is not below it, and `b` that it is not below the
-- cell that was first.
front :
    (a b : Bool) (x y z : ℕ)
    → (a ≡ false → b ≡ false)
    → (if a then (if b then x else y) else z) ≡ (if a && not b then y else (if b then x else z))
front true true x y z h = refl
front true false x y z h = refl
front false true x y z h = absurd (let e = h refl in cc)
front false false x y z h = refl

behind :
    (a b c : Bool) (x y z : ℕ)
    → (b ≡ false → a ≡ false)
    → (if b then (if a && c then y else x) else z) ≡ (if a && c then y else (if b then x else z))
behind a true c x y z h = refl
behind true false c x y z h = absurd (let e = h refl in cc)
behind false false c x y z h = refl

pub below_of_not_gt :
    (k a b : Key)
    → is_at_least k a ≡ false
    → compare_bytes a b ≢ Ordering.gt
    → is_at_least k b ≡ false
below_of_not_gt k a b h n = elim (Ordering-cases (compare_bytes a b)) [
  | inl e ↦ below_of_lt k a b h e
  | inr (inl e) ↦ subst (λ x. is_at_least k x ≡ false) (eq_of_compare a b e) h
  | inr (inr e) ↦ absurd (n e)
]

unfoldable pub inserted : InternalCell → List InternalCell → List InternalCell
inserted e es =
    take (lower_bound e.key (cell_keys es)) es ++ (e ∷ drop (lower_bound e.key (cell_keys es)) es)

pub route_insert :
    (e : InternalCell) (es : List InternalCell) (k : Key) (at : ℕ)
    → route k (inserted e es) at ≡ (
        if is_at_least k e.key && is_below k (drop (lower_bound e.key (cell_keys es)) es)
        then e.file_offset
        else route k es at)
unfolding route inserted
route_insert e [] k at =
    unfold lower_bound in
    elim (Bool-cases (is_at_least k e.key)) [ inl t ↦ rw t refl | inr t ↦ rw t refl ]
route_insert e (x ∷ es) k at = elim (Ordering-cases (compare_bytes e.key x.key)) [
  | inr (inr gt) ↦
      rw (lower_bound-behind e.key x.key (cell_keys es) gt, route_insert e es k x.file_offset)
        (behind (is_at_least k e.key) (is_at_least k x.key) _ _ _ at
          (λ low. below_of_lt k x.key e.key low (lt_of_gt e.key x.key gt)))
  | inr (inl eq) ↦ first (λ gt. let both = sym eq ∙ gt in cc)
  | inl lt ↦ first (λ gt. let both = sym lt ∙ gt in cc)
]
  where
    first :
        compare_bytes e.key x.key ≢ Ordering.gt
        → route k (inserted e (x ∷ es)) at ≡ (
            if is_at_least k e.key
              && is_below k (drop (lower_bound e.key (cell_keys (x ∷ es))) (x ∷ es))
            then e.file_offset
            else route k (x ∷ es) at)
    first n = rw (lower_bound-front e.key x.key (cell_keys es) n) (
        front (is_at_least k e.key) (is_at_least k x.key) _ _ at
          (λ low. below_of_not_gt k e.key x.key low n))

-- The page that a search for `k` goes to from an internal page.
abbrev pub child_page : Key → Node → Option ℕ
child_page k n =
    find_child_page k n >>= λ i. get_elem? n.internal_cell i >>= λ c. some c.file_offset

scan_child-route :
    (cells : List InternalCell) (k : Key) (os : List ℕ) (es : List InternalCell) (found : ℕ)
    (c : InternalCell)
    → cells_of cells os ≡ some es
    → get_elem? cells found ≡ some c
    → (i : ℕ) × (d : InternalCell) × (scan_child cells k os found ≡ some i)
      × (get_elem? cells i ≡ some d)
      × (d.file_offset ≡ route k es c.file_offset)
unfolding route
scan_child-route cells k [] es found c h at =
    let e : es ≡ [] = unfold cells_of in cc in (found, c, unfold scan_child in refl, at, rw e refl)
scan_child-route cells k (o ∷ os) es found c h at =
    let f = first_cell cells o os es h in
    elim (Bool-cases (is_at_least k f.cell.key)) [
      | inl t ↦
          let (i, d, run, there, same) =
            scan_child-route cells k os f.others o f.cell f.rest f.found in
          (
            i,
            d,
            scan_child-found cells k o os found f.cell f.found ∙ rw t run,
            there,
            rw (f.all, t) same,
          )
      | inr t ↦ (
        found,
        c,
        scan_child-found cells k o os found f.cell f.found ∙ rw t refl,
        at,
        rw (f.all, t) refl,
      )
    ]

-- An internal page whose offsets name all its cells, in the ascending order of their keys.
pub record IsRouter (pg : Node) (es : List InternalCell) : Type 0 where
  pub internal : pg.is_leaf ≡ false
  pub names : cells_of pg.internal_cell pg.offsets ≡ some es
  pub counts : length pg.offsets ≡ length pg.internal_cell
  pub few : length pg.offsets < 2 ^ 16
  pub sorted : IsSorted (cell_keys es)
  pub first : InternalCell
  pub has_first : get_elem? pg.internal_cell 0 ≡ some first

pub child_page-route :
    (pg : Node) (es : List InternalCell) (first : InternalCell) (k : Key)
    → cells_of pg.internal_cell pg.offsets ≡ some es
    → get_elem? pg.internal_cell 0 ≡ some first
    → child_page k pg ≡ some (route k es first.file_offset)
unfolding find_child_page
child_page-route pg es first k h at =
    let (i, d, run, there, same) = scan_child-route pg.internal_cell k pg.offsets es 0 first h at in
    rw (run, there) (ap some same)

get_elem?-cell_keys :
    (es : List InternalCell) (i : ℕ) (k : Key)
    → get_elem? (cell_keys es) i ≡ some k
    → (c : InternalCell) × (get_elem? es i ≡ some c) × (c.key ≡ k)
get_elem?-cell_keys [] i k h = absurd (ground (arith, h))
get_elem?-cell_keys (e ∷ es) zero k h = (e, refl, some-injective _ _ h)
get_elem?-cell_keys (e ∷ es) (suc i) k h = get_elem?-cell_keys es i k h

length-cell_keys : (es : List InternalCell) → length (cell_keys es) ≡ length es
length-cell_keys [] = refl
length-cell_keys (e ∷ es) = ap suc (length-cell_keys es)

pub IsRouter-HasKeys :
    (pg : Node) (es : List InternalCell) → IsRouter pg es → HasKeys pg (cell_keys es)
unfolding key_at
IsRouter-HasKeys pg es h =
    let count = length-cells_of pg.internal_cell pg.offsets es h.names in
    let few = h.few in
    record {
      count = sym (length-cell_keys es ∙ count);
      fits = omega (arith, length-cell_keys es, count, few);
      keys = λ i k e.
          let (c, there, same) = get_elem?-cell_keys es i k e in
          let (o, at, found) = cells_of-get pg.internal_cell pg.offsets es i c h.names there in
          rw (key_at, at, ◌>>=◌, cell_key, h.internal, found) (ap some same);
    }
