-- ===== src/Tree/Codec/RoundTrip.antt =====
-- `decode` reads back what `encode` wrote (node.go).
use harmony_db.Base.{
  ℕ, zero, suc, ◌^◌, ◌<◌, ◌≡◌, refl, sym, ◌∙◌, subst, true, false, Option, none, some, List, [],
  ◌∷◌, arith, length, All, get_elem?, Option-cases, Bool-cases, inl, inr, if◌then◌else◌, ◌>>=◌,
}
use harmony_db.Bytes.{Read, ok, fail}
use harmony_db.Tree.Page.{InternalCell, LeafCell, Node, cells_of}
use harmony_db.Tree.Codec.{
  page, leaf_buffer, internal_buffer, encode, encode_leaf, encode_internal, decode,
}
use harmony_db.Tree.Codec.Pages.{
  length-leaf_buffer, length-internal_buffer, finish-padded, encode-leaf, encode-internal,
}
use harmony_db.Tree.Codec.Buffers.{
  LeafFits, InternalFits, decode-leaf_buffer, decode-internal_buffer,
}

All-get_elem? {ℓ} :
    {C : Type ℓ} (P : C → Type 0) (cells : List C) (o : ℕ) (c : C)
    → get_elem? cells o ≡ some c
    → All P cells
    → P c
All-get_elem? P [] o c h k = absurd (ground (arith, h))
All-get_elem? P (d ∷ cells) zero c h k = let e : d ≡ c = cc in subst P e k.0
All-get_elem? P (d ∷ cells) (suc o) c h k = All-get_elem? P cells o c h k.1

cells_of-All {ℓ} :
    {C : Type ℓ} (P : C → Type 0) (cells : List C) (os : List ℕ) (cs : List C)
    → cells_of cells os ≡ some cs
    → All P cells
    → All P cs × (length cs ≡ length os)
unfolding cells_of
cells_of-All P cells [] cs h k = let e : cs ≡ [] = cc in rw e (tt, refl)
cells_of-All P cells (o ∷ os) cs h k = elim (Option-cases (get_elem? cells o)) [
  | inl e ↦ absurd (ground (arith, e, h))
  | inr (c, e) ↦ elim (Option-cases (cells_of cells os)) [
    | inl f ↦ absurd (ground (arith, e, f, h))
    | inr (ds, f) ↦
        let q : cs ≡ c ∷ ds = ground (arith, e, f, h) in
        let ih = cells_of-All P cells os ds f k in
        rw q ((All-get_elem? P cells o c e k, ih.0), omega (arith, ih.1))
  ]
]

-- The numbers of a page fit the words that they are written in.
pub record IsWritable (n : Node) : Type 0 where
  pub at : n.file_offset < 2 ^ 64
  pub offsets : All (λ o. o < 2 ^ 16) n.offsets
  pub leaf : All LeafFits n.leaf_cell
  pub internal : All InternalFits n.internal_cell

-- What loading the page `n` into `m` makes of it: the cells stand in the order of the offsets, and
-- the offsets stay as they were.
unfoldable pub reloaded : Node → Node → Option Node
reloaded n m =
    if n.is_leaf
    then (cells_of n.leaf_cell n.offsets >>= λ cs.
        some (record m { is_leaf = true; offsets = n.offsets; leaf_cell = cs }))
    else (cells_of n.internal_cell n.offsets >>= λ cs. some (record m {
      is_leaf = false;
      file_offset = n.file_offset;
      offsets = n.offsets;
      internal_cell = cs;
    }))

-- The page that `decode` filled.
unfoldable pub loaded : Read Node → Option Node
loaded (ok n rest) = some n
loaded (fail e) = none

module _ (n m : Node) (bs : List ℕ) (w : IsWritable n) (h : encode n ≡ page bs) where
  Loads : Type 0
  Loads = (l : Node) × (reloaded n m ≡ some l) × (loaded (decode bs m) ≡ some l)

  leaf-Loads :
      (cs : List LeafCell) → n.is_leaf ≡ true → cells_of n.leaf_cell n.offsets ≡ some cs → Loads
  unfolding Loads loaded
  leaf-Loads cs t e =
      let f = finish-padded (leaf_buffer n.offsets cs) bs (sym (encode-leaf n cs t e) ∙ h) in
      let ca = cells_of-All LeafFits n.leaf_cell n.offsets cs e w.leaf in
      let count : length n.offsets < 2 ^ 16 = omega (arith, f.0, length-leaf_buffer n.offsets cs) in
      let back = decode-leaf_buffer n.offsets cs f.1.0 m count ca.1 w.offsets ca.0 in
      (
        record m { is_leaf = true; offsets = n.offsets; leaf_cell = cs },
        unfold reloaded in ground (arith, t, e),
        rw (f.1.1, back) refl,
      )

  internal-Loads :
      (cs : List InternalCell)
      → n.is_leaf ≡ false
      → cells_of n.internal_cell n.offsets ≡ some cs
      → Loads
  unfolding Loads loaded
  internal-Loads cs t e =
      let at = n.file_offset in
      let f =
        finish-padded (internal_buffer at n.offsets cs) bs (sym (encode-internal n cs t e) ∙ h) in
      let ca = cells_of-All InternalFits n.internal_cell n.offsets cs e w.internal in
      let count : length n.offsets < 2 ^ 32 =
        omega (arith, f.0, length-internal_buffer at n.offsets cs) in
      let back = decode-internal_buffer at n.offsets cs f.1.0 m w.at count ca.1 w.offsets ca.0 in
      (
        record m { is_leaf = false; file_offset = at; offsets = n.offsets; internal_cell = cs },
        unfold reloaded in ground (arith, t, e),
        rw (f.1.1, back) refl,
      )

-- A page whose numbers fit their words and that is encoded decodes, into any page `m`, to the cells
-- that its offsets name, in the order of the offsets, under the same offsets.
pub decode-encode :
    (n m : Node) (bs : List ℕ)
    → IsWritable n
    → encode n ≡ page bs
    → (l : Node) × (reloaded n m ≡ some l) × (loaded (decode bs m) ≡ some l)
unfolding Loads
decode-encode n m bs w h = elim (Bool-cases n.is_leaf) [
  | inl t ↦ elim (Option-cases (cells_of n.leaf_cell n.offsets)) [
    | inl e ↦ absurd (unfold encode encode_leaf in ground (arith, t, e, h))
    | inr (cs, e) ↦ leaf-Loads n m bs w h cs t e
  ]
  | inr t ↦ elim (Option-cases (cells_of n.internal_cell n.offsets)) [
    | inl e ↦ absurd (unfold encode encode_internal in ground (arith, t, e, h))
    | inr (cs, e) ↦ internal-Loads n m bs w h cs t e
  ]
]
