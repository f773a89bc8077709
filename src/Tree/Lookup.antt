-- ===== src/Tree/Lookup.antt =====
-- What `get` finds after a leaf has changed (btree.go).
use harmony_db.Base.{
  ℕ, zero, suc, ◌≡◌, ◌≢◌, refl, sym, ◌∙◌, ap, subst, Bool, true, false, none, some, some-injective,
  List, [], ◌∷◌, ◌++◌, arith, get_elem?, ◌==◌, if◌then◌else◌, Bool-cases, Option-cases, inl, inr,
  ==_iff, bind_cong, ◌>>=◌,
}
use harmony_db.Base.Maps
use harmony_db.Base.Maps.{get-put}
use harmony_db.Tree.Page.{
  Key, Node, LeafCell, InternalCell, bytes_equal, make_cell, find_cell, update_cell,
  find_child_page,
}
use harmony_db.Tree.Order.{bytes_equal_iff}
use harmony_db.Tree.Store.{BTree, Found, value, found_in, get_from}

pub found_in-cons :
    (k : Key) (c : LeafCell) (cs : List LeafCell)
    → found_in k (c ∷ cs) ≡ (if bytes_equal c.key k then value c.val else found_in k cs)
unfolding found_in find_cell
found_in-cons k c cs = elim (Bool-cases (bytes_equal c.key k)) [
  | inl e ↦ rw (found_in, find_cell, e) refl
  | inr e ↦ rw (found_in, find_cell, e) refl
]

pub unequal : (a b : Key) → a ≢ b → bytes_equal a b ≡ false
unequal a b h = elim (Bool-cases (bytes_equal a b)) [
  | inl e ↦ absurd (h ((bytes_equal_iff a b).0 e))
  | inr e ↦ e
]

if_twice :
    (b : Bool) (x y z : Found) → (if b then x else y) ≡ (if b then x else (if b then z else y))
if_twice true x y z = refl
if_twice false x y z = refl

pub if_swap :
    (a b : Bool) (x y z : Found)
    → (a ≡ true → b ≡ false)
    → (if a then x else (if b then y else z)) ≡ (if b then y else (if a then x else z))
if_swap true true x y z h = absurd (let e = h refl in cc)
if_swap true false x y z h = refl
if_swap false b x y z h = refl

pub not_both :
    (d k k' : Key) → bytes_equal d k ≡ false → bytes_equal d k' ≡ true → bytes_equal k k' ≡ false
not_both d k k' e f = unequal k k' (λ q.
    let same : d ≡ k = (bytes_equal_iff d k').0 f ∙ sym q in
    let yes = (bytes_equal_iff d k).1 same in absurd (ground (arith, e, yes)))

pub found_in-update_cell :
    (k k' : Key) (v : List ℕ) (cells : List LeafCell) (c : LeafCell)
    → find_cell k cells ≡ some c
    → found_in k' (update_cell k v cells)
      ≡ (if bytes_equal k k' then value v else found_in k' cells)
unfolding find_cell update_cell
found_in-update_cell k k' v [] c h = absurd (ground (arith, h))
found_in-update_cell k k' v (d ∷ cells) c h = elim (Bool-cases (bytes_equal d.key k)) [
  | inl e ↦
      let same : d.key ≡ k = (bytes_equal_iff d.key k).0 e in
      rw (e, found_in-cons, found_in-cons, same) (if_twice (bytes_equal k k') _ _ _)
  | inr e ↦
      let ih = found_in-update_cell k k' v cells c (ground (arith, e, h)) in
      rw (e, found_in-cons, found_in-cons, ih)
        (if_swap (bytes_equal d.key k') (bytes_equal k k') _ _ _ (not_both d.key k k' e))
]

pub found_in-append :
    (k k' : Key) (v : List ℕ) (cells : List LeafCell)
    → find_cell k cells ≡ none
    → found_in k' (cells ++ (make_cell k v ∷ []))
      ≡ (if bytes_equal k k' then value v else found_in k' cells)
unfolding find_cell make_cell
found_in-append k k' v [] h = found_in-cons k' (make_cell k v) []
found_in-append k k' v (d ∷ cells) h = elim (Bool-cases (bytes_equal d.key k)) [
  | inl e ↦ absurd (ground (arith, e, h))
  | inr e ↦
      let ih = found_in-append k k' v cells (ground (arith, e, h)) in
      rw (found_in-cons, found_in-cons, ih)
        (if_swap (bytes_equal d.key k') (bytes_equal k k') _ _ _ (not_both d.key k k' e))
]

-- The leaf at `at` after a put of `v` under `k`.
pub record LeafPut (k : Key) (v : List ℕ) (at : ℕ) (old new : Node) : Type 0 where
  pub leaf : new.is_leaf ≡ true
  pub place : new.file_offset ≡ at
  pub finds :
      (k' : Key)
      → found_in k' new.leaf_cell
        ≡ (if bytes_equal k k' then value v else found_in k' old.leaf_cell)

-- The way of a search for `k` from the page at `at` to the leaf at `ℓ`.
pub data Route (b : BTree) (k : Key) (ℓ : ℕ) (leaf : Node) : ℕ → ℕ → Type 0 where
  at_leaf :
      {depth : ℕ}
      → Maps.get ℓ b.pages ≡ some leaf
      → leaf.is_leaf ≡ true
      → Route b k ℓ leaf (suc depth) ℓ
  below :
      {depth at i : ℕ} {pg : Node} {c : InternalCell}
      → Maps.get at b.pages ≡ some pg
      → pg.is_leaf ≡ false
      → find_child_page k pg ≡ some i
      → get_elem? pg.internal_cell i ≡ some c
      → Route b k ℓ leaf depth c.file_offset
      → Route b k ℓ leaf (suc depth) at

pub get_from-leaf :
    (depth at : ℕ) (k : Key) (b : BTree) (pg : Node)
    → Maps.get at b.pages ≡ some pg
    → pg.is_leaf ≡ true
    → get_from (suc depth) at k b ≡ some (found_in k pg.leaf_cell)
unfolding get_from
get_from-leaf depth at k b pg g t = rw (get_from, g, ◌>>=◌) (simp t refl)

pub get_from-internal :
    (depth at : ℕ) (k : Key) (b : BTree) (pg : Node)
    → Maps.get at b.pages ≡ some pg
    → pg.is_leaf ≡ false
    → get_from (suc depth) at k b ≡ (
        find_child_page k pg >>= λ i.
        get_elem? pg.internal_cell i >>= λ c. get_from depth c.file_offset k b)
unfolding get_from
get_from-internal depth at k b pg g t = rw (get_from, g, ◌>>=◌) (simp t refl)

get_from-missing :
    (depth at : ℕ) (k : Key) (b : BTree)
    → Maps.get at b.pages ≡ none
    → get_from (suc depth) at k b ≡ none
unfolding get_from
get_from-missing depth at k b g = rw (get_from, g) refl

module _ (b : BTree) (k : Key) (v : List ℕ) (ℓ : ℕ) (leaf new : Node) where
  -- The tree with the new leaf.
  unfoldable pub replaced : BTree
  replaced = record b { pages = Maps.put ℓ new b.pages }

  get-replaced :
      (at : ℕ) → Maps.get at replaced.pages ≡ (if ℓ == at then some new else Maps.get at b.pages)
  unfolding replaced
  get-replaced at = get-put ℓ at new b.pages

  -- Another key is looked up as before.
  pub get_from-other :
      LeafPut k v ℓ leaf new
      → Maps.get ℓ b.pages ≡ some leaf
      → leaf.is_leaf ≡ true
      → (k' : Key) → bytes_equal k k' ≡ false
      → (depth at : ℕ) → get_from depth at k' replaced ≡ get_from depth at k' b
  get_from-other p g t k' n zero at = unfold get_from in refl
  get_from-other p g t k' n (suc depth) at = elim (Bool-cases (ℓ == at)) [
    | inl e ↦
        let here : ℓ ≡ at = (==_iff ℓ at).0 e in
        let now : Maps.get at replaced.pages ≡ some new = get-replaced at ∙ rw e refl in
        let before : Maps.get at b.pages ≡ some leaf =
          subst (λ x. Maps.get x b.pages ≡ some leaf) here g in
        get_from-leaf depth at k' replaced new now p.leaf
        ∙ ap some (p.finds k' ∙ rw n refl)
        ∙ sym (get_from-leaf depth at k' b leaf before t)
    | inr e ↦ elim (Option-cases (Maps.get at b.pages)) [
      | inl nobody ↦
          get_from-missing depth at k' replaced (get-replaced at ∙ rw (e, nobody) refl)
          ∙ sym (get_from-missing depth at k' b nobody)
      | inr (pg, there) ↦ elim (Bool-cases pg.is_leaf) [
        | inl l ↦
            get_from-leaf depth at k' replaced pg (get-replaced at ∙ rw (e, there) refl) l
            ∙ sym (get_from-leaf depth at k' b pg there l)
        | inr l ↦
            get_from-internal depth at k' replaced pg (get-replaced at ∙ rw (e, there) refl) l
            ∙ bind_cong (find_child_page k' pg) _ _ (λ i.
              bind_cong (get_elem? pg.internal_cell i) _ _
                (λ c. get_from-other p g t k' n depth c.file_offset))
            ∙ sym (get_from-internal depth at k' b pg there l)
      ]
    ]
  ]

  not_here :
      Maps.get ℓ b.pages ≡ some leaf
      → leaf.is_leaf ≡ true
      → (at : ℕ) (pg : Node) → Maps.get at b.pages ≡ some pg
      → pg.is_leaf ≡ false
      → (ℓ == at) ≡ false
  not_here g t at pg h l = elim (Bool-cases (ℓ == at)) [
    | inr e ↦ e
    | inl e ↦
        let here : ℓ ≡ at = (==_iff ℓ at).0 e in
        let same : leaf ≡ pg =
          some-injective _ _ (sym g ∙ subst (λ x. Maps.get x b.pages ≡ some pg) (sym here) h) in
        let both : true ≡ false = sym t ∙ ap (λ x. x.is_leaf) same ∙ l in
        absurd (ground (arith, both))
  ]

  -- The key that was put is found.
  pub get_from-put :
      LeafPut k v ℓ leaf new
      → Maps.get ℓ b.pages ≡ some leaf
      → leaf.is_leaf ≡ true
      → (depth at : ℕ) → Route b k ℓ leaf depth at
      → get_from depth at k replaced ≡ some (value v)
  get_from-put p g t zero at r = elim r [ ]
  get_from-put p g t (suc depth) at (at_leaf h l) =
      get_from-leaf depth ℓ k replaced new (get-replaced ℓ ∙ ground arith) p.leaf
      ∙ ap some (p.finds k ∙ rw ((bytes_equal_iff k k).1 refl) refl)
  get_from-put p g t (suc depth) at (below {pg = pg} {c = c} h l i e r) =
      let apart : (ℓ == at) ≡ false = not_here g t at pg h l in
      get_from-internal depth at k replaced pg (get-replaced at ∙ rw (apart, h) refl) l
      ∙ rw (i, e) (get_from-put p g t depth c.file_offset r)
