-- ===== src/Tree/Halved.antt =====
-- The tree after a put has split a leaf below the root (btree.go).
use harmony_db.Base.{
  ℕ, ◌<◌, ◌≡◌, ◌≢◌, refl, sym, ◌∙◌, ap, subst, Bool, true, false, ◌&&◌, some, some-injective, List,
  arith, drop, if◌then◌else◌, Bool-cases, inl, inr, ==_iff, ◌>>=◌, ◌==◌,
}
use harmony_db.Base.Maps
use harmony_db.Base.Maps.{get-put, get-put_self}
use harmony_db.Tree.Page.{Key, Node, Split, InternalCell, new_node, is_at_least, split}
use harmony_db.Tree.Order.{lower_bound}
use harmony_db.Tree.Pairs.{Pair}
use harmony_db.Tree.Store.{BTree, found_in, write_back, add, link, link_leaf, split_leaf, get}
use harmony_db.Tree.Ordered.{lookup}
use harmony_db.Tree.Tidy.{IsTidy}
use harmony_db.Tree.Halves.{Halves}
use harmony_db.Tree.Grown.{above_separator}
use harmony_db.Tree.Routing.{IsRouter, child_page, child_page-route, is_below, cell_keys}
use harmony_db.Tree.Below.{get_via, route_as}

-- The tree after a leaf below the root was split.
unfoldable pub halved : Node → Split → BTree → BTree
unfolding write_back add
halved parent s b = write_back parent (add s.new (write_back s.old b)).1

pub split_leaf-halved :
    (root root' n : Node) (s : Split) (b : BTree)
    → split n new_node ≡ some s
    → (let s1 : Split = record s { new = record s.new { file_offset = b.next_free_offset } } in
        link_leaf root s1 (add s.new (write_back s.old b)).1
        ≡ some (write_back root' (add s.new (write_back s.old b)).1))
    → split_leaf (some root) n b ≡ some (halved root' s b)
unfolding split_leaf link halved add write_back
split_leaf-halved root root' n s b run linked = rw (split_leaf, run, ◌>>=◌) linked

-- Where the two halves and the root stand after the split.
halved-page :
    (root' : Node) (s : Split) (b : BTree) (at : ℕ)
    → Maps.get at (halved root' s b).pages ≡ (
        if root'.file_offset == at
        then some root'
        else (if b.next_free_offset == at
            then some (record s.new { file_offset = b.next_free_offset })
            else (if s.old.file_offset == at then some s.old else Maps.get at b.pages)))
unfolding halved write_back add
halved-page root' s b at =
    get-put root'.file_offset at root' _
    ∙ ap (λ x. if root'.file_offset == at then some root' else x)
        (get-put b.next_free_offset at (record s.new { file_offset = b.next_free_offset }) _
          ∙ ap
              (λ x.
                if b.next_free_offset == at
                then some (record s.new { file_offset = b.next_free_offset })
                else x)
              (get-put s.old.file_offset at s.old b.pages))

halved-root :
    (root' : Node) (s : Split) (b : BTree) → (halved root' s b).root_offset ≡ b.root_offset
unfolding halved write_back add
halved-root root' s b = refl

pub differs : (a c : ℕ) → a ≢ c → (a == c) ≡ false
differs a c h = elim (Bool-cases (a == c)) [ inl e ↦ absurd (h ((==_iff a c).0 e)) | inr e ↦ e ]

and_left : (a c : Bool) → (a && c) ≡ true → a ≡ true
and_left true c h = refl
and_left false c h = absurd cc

and_right : (a c : Bool) → (a && c) ≡ true → c ≡ true
and_right true c h = h
and_right false c h = absurd cc

-- The test for the new page.
abbrev to_new : Split → List InternalCell → Key → Bool
to_new s es k =
    is_at_least k s.separator && is_below k (drop (lower_bound s.separator (cell_keys es)) es)

pub leaf_not_root :
    (b : BTree) (root leaf : Node) (at : ℕ)
    → Maps.get b.root_offset b.pages ≡ some root
    → root.is_leaf ≡ false
    → Maps.get at b.pages ≡ some leaf
    → leaf.is_leaf ≡ true
    → at ≢ b.root_offset
leaf_not_root b root leaf at top inner there t = λ e.
    let same : leaf ≡ root =
      some-injective _ _ (sym there ∙ subst (λ x. Maps.get x b.pages ≡ some root) (sym e) top) in
    let both : true ≡ false = sym t ∙ ap (λ x. x.is_leaf) same ∙ inner in cc

-- The scene of a split below the root: the leaf `n` with a new key, which is full.
pub record Scene (b : BTree) (root root' n : Node) (es : List InternalCell) (qs : List Pair)
    (s : Split) : Type 0 where
  pub router : IsRouter root es
  pub top : Maps.get b.root_offset b.pages ≡ some root
  pub same_place : root'.file_offset ≡ b.root_offset
  pub internal : root'.is_leaf ≡ false
  pub routes :
      (k : Key)
      → child_page k root' ≡ (
          if is_at_least k s.separator
            && is_below k (drop (lower_bound s.separator (cell_keys es)) es)
          then some b.next_free_offset
          else child_page k root)
  pub halves : Halves n qs s
  pub tidy : IsTidy n qs
  pub separates : child_page s.separator root ≡ some n.file_offset
  pub root_below : b.root_offset < b.next_free_offset
  pub n_below : n.file_offset < b.next_free_offset
  pub apart : n.file_offset ≢ b.root_offset

module _ (b : BTree) (root root' n : Node) (es : List InternalCell) (qs : List Pair) (s : Split)
    (h : Scene b root root' n es qs s) where
  not_root : (at : ℕ) → at ≢ b.root_offset → (root'.file_offset == at) ≡ false
  not_root at apart = differs root'.file_offset at (λ e. apart (sym e ∙ h.same_place))

  pub root_at : Maps.get b.root_offset (halved root' s b).pages ≡ some root'
  root_at =
      halved-page root' s b b.root_offset
      ∙ rw ((==_iff root'.file_offset b.root_offset).1 h.same_place) refl

  root_there : Maps.get (halved root' s b).root_offset (halved root' s b).pages ≡ some root'
  root_there = rw (halved-root root' s b) root_at

  old_place : s.old.file_offset ≡ n.file_offset
  old_place = ap (λ x. x.file_offset) h.halves.old

  new_there :
      Maps.get b.next_free_offset (halved root' s b).pages
      ≡ some (record s.new { file_offset = b.next_free_offset })
  new_there =
      let low = h.root_below in
      halved-page root' s b b.next_free_offset
      ∙ rw
          (
            not_root b.next_free_offset (λ e. omega (arith, low, e)),
            (==_iff b.next_free_offset b.next_free_offset).1 refl,
          )
          refl

  old_there : Maps.get n.file_offset (halved root' s b).pages ≡ some s.old
  old_there =
      let low = h.n_below in
      halved-page root' s b n.file_offset
      ∙ rw
          (
            not_root n.file_offset h.apart,
            differs b.next_free_offset n.file_offset (λ e. omega (arith, low, e)),
            (==_iff s.old.file_offset n.file_offset).1 old_place,
          )
          refl

  same_there :
      (at : ℕ)
      → at ≢ b.root_offset
      → at ≢ n.file_offset
      → at < b.next_free_offset
      → Maps.get at (halved root' s b).pages ≡ Maps.get at b.pages
  same_there at apart differs_n below =
      halved-page root' s b at
      ∙ rw
          (
            not_root at apart,
            differs b.next_free_offset at (λ e. omega (arith, below, e)),
            differs s.old.file_offset at (λ e. differs_n (sym e ∙ old_place)),
          )
          refl

  -- A key that went to the leaf finds what the leaf had.
  pub own-get :
      (k : Key)
      → child_page k root ≡ some n.file_offset
      → get 1 k (halved root' s b) ≡ some (lookup k qs)
  own-get k goes = elim (Bool-cases (to_new s es k)) [
    | inl t ↦
        get_via (halved root' s b) k root' (record s.new { file_offset = b.next_free_offset })
          b.next_free_offset root_there h.internal (h.routes k ∙ rw t refl) new_there
          h.halves.new_leaf
        ∙ ap some (
            h.halves.new_finds k
            ∙ above_separator k s.separator s.separator qs h.halves.half h.halves.first
                h.tidy.sorted h.halves.at_half h.halves.separates
                (and_left (is_at_least k s.separator) _ t))
    | inr f ↦
        get_via (halved root' s b) k root' s.old n.file_offset root_there h.internal
          (h.routes k ∙ rw f goes) old_there (ap (λ x. x.is_leaf) h.halves.old ∙ h.tidy.leaf)
        ∙ ap some (ap (λ x. found_in k x.leaf_cell) h.halves.old ∙ h.tidy.finds k)
  ]

  -- A key that went to another leaf finds what it found before.
  pub other-get :
      (k : Key) (at : ℕ) (leaf : Node)
      → child_page k root ≡ some at
      → at ≢ n.file_offset
      → Maps.get at b.pages ≡ some leaf
      → leaf.is_leaf ≡ true
      → at < b.next_free_offset
      → get 1 k (halved root' s b) ≡ get 1 k b
  other-get k at leaf goes apart there t below = elim (Bool-cases (to_new s es k)) [
    | inl q ↦
        let r = h.router in
        let as_sep =
          route_as s.separator k es r.first.file_offset (and_left (is_at_least k s.separator) _ q)
            (and_right (is_at_least k s.separator) _ q) in
        let both : some at ≡ some n.file_offset =
          sym goes
          ∙ child_page-route root es r.first k r.names r.has_first
          ∙ ap some as_sep
          ∙ sym (child_page-route root es r.first s.separator r.names r.has_first)
          ∙ h.separates in
        absurd (apart (some-injective _ _ both))
    | inr f ↦
        get_via (halved root' s b) k root' leaf at root_there h.internal (h.routes k ∙ rw f goes)
          (same_there at (leaf_not_root b root leaf at h.top h.router.internal there t) apart below
            ∙ there)
          t
        ∙ sym (get_via b k root leaf at h.top h.router.internal goes there t)
  ]
