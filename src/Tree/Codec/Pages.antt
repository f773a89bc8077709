-- ===== src/Tree/Codec/Pages.antt =====
-- The sizes of encoded pages (node.go).
use harmony_db.Base.{
  ℕ, zero, suc, ◌+◌, ◌*◌, ◌≤◌, ◌<◌, ◌≡◌, refl, ap, ◌⊎◌, inl, inr, true, false, Option, some, List,
  [], ◌∷◌, ◌++◌, arith, length, length-append, Option-cases, Bool-cases, subst, sym, ◌∙◌,
  if◌then◌else◌, ◌>>=◌, leb,
}
use harmony_db.Bytes.{le}
use harmony_db.Bytes.Laws.{length-le}
use harmony_db.Tree.Page.{InternalCell, LeafCell, Node, cells_of}
use harmony_db.Tree.Store.{page_size}
use harmony_db.Tree.Codec.{
  Encoded, page, too_large, write_all, zeros, padding, pad, finish, write_leaf_cell, leaf_buffer,
  encode_leaf, write_internal_cell, internal_buffer, encode_internal, encode,
}

unfoldable pub total {ℓ} : {C : Type ℓ} → (C → ℕ) → List C → ℕ
total size [] = 0
total size (c ∷ cs) = size c + total size cs

unfoldable pub leaf_cell_bytes : LeafCell → ℕ
leaf_cell_bytes c = 8 + length c.key + length c.val

unfoldable pub internal_cell_bytes : InternalCell → ℕ
internal_cell_bytes c = 12 + length c.key

-- The bytes that a page needs without its padding: a header, two for every offset, and the cells
-- that the offsets name; `none` if one names no cell.
unfoldable pub page_bytes : Node → Option ℕ
unfolding total leaf_cell_bytes internal_cell_bytes
page_bytes n =
    if n.is_leaf
    then (cells_of n.leaf_cell n.offsets >>= λ cs.
        some (3 + 2 * length n.offsets + total leaf_cell_bytes cs))
    else (cells_of n.internal_cell n.offsets >>= λ cs.
        some (13 + 2 * length n.offsets + total internal_cell_bytes cs))

length-write_all {ℓ} :
    {C : Type ℓ} (one : C → List ℕ) (size : C → ℕ)
    → ((c : C) → length (one c) ≡ size c)
    → (cs : List C) → length (write_all one cs) ≡ total size cs
unfolding write_all total
length-write_all one size h [] = refl
length-write_all one size h (c ∷ cs) =
    omega (arith, length-append (one c) (write_all one cs), h c, length-write_all one size h cs)

length-write_offsets : (os : List ℕ) → length (write_all (le 2) os) ≡ 2 * length os
unfolding write_all
length-write_offsets [] = refl
length-write_offsets (o ∷ os) =
    omega
      (arith, length-append (le 2 o) (write_all (le 2) os), length-le 2 o, length-write_offsets os)

pub length-zeros : (n : ℕ) → length (zeros n) ≡ n
unfolding zeros
length-zeros zero = refl
length-zeros (suc n) = ap suc (length-zeros n)

length-pad : (buf : List ℕ) → length buf + 2 ≤ page_size → length (pad buf) ≡ page_size
unfolding pad padding
length-pad buf h = simp (length-append, length-le, length-zeros) (omega (arith, h))

pub finish-page : (buf : List ℕ) → length buf + 2 ≤ page_size → finish buf ≡ page (pad buf)
unfolding finish
finish-page buf h = ground (arith, h, length-pad buf h)

finish-too_large : (buf : List ℕ) → page_size < length buf + 2 → finish buf ≡ too_large (length buf)
unfolding finish
finish-too_large buf h = ground (arith, h)

length-write_leaf_cell : (c : LeafCell) → length (write_leaf_cell c) ≡ leaf_cell_bytes c
unfolding write_leaf_cell leaf_cell_bytes
length-write_leaf_cell c = simp (length-append, length-le) (omega arith)

length-write_internal_cell :
    (c : InternalCell) → length (write_internal_cell c) ≡ internal_cell_bytes c
unfolding write_internal_cell internal_cell_bytes
length-write_internal_cell c = simp (length-append, length-le) (omega arith)

pub length-leaf_buffer :
    (os : List ℕ) (cs : List LeafCell)
    → length (leaf_buffer os cs) ≡ 3 + 2 * length os + total leaf_cell_bytes cs
unfolding leaf_buffer
length-leaf_buffer os cs =
    simp (length-append, length-le, length-write_offsets)
      (omega (arith, length-write_all write_leaf_cell leaf_cell_bytes length-write_leaf_cell cs))

pub length-internal_buffer :
    (at : ℕ) (os : List ℕ) (cs : List InternalCell)
    → length (internal_buffer at os cs) ≡ 13 + 2 * length os + total internal_cell_bytes cs
unfolding internal_buffer
length-internal_buffer at os cs =
    simp (length-append, length-le, length-write_offsets)
      (omega (
        arith,
        length-write_all write_internal_cell internal_cell_bytes length-write_internal_cell cs,
      ))

-- What `finish` makes of a buffer of `size` bytes.
Sized : ℕ → Encoded → Type 0
Sized size e =
    ((size + 2 ≤ page_size) × ((bs : List ℕ) × (e ≡ page bs) × (length bs ≡ page_size)))
    ⊎ ((page_size < size + 2) × (e ≡ too_large size))

finish-Sized : (buf : List ℕ) (size : ℕ) → length buf ≡ size → Sized size (finish buf)
unfolding Sized
finish-Sized buf size e = elim (Bool-cases (leb (length buf + 2) page_size)) [
  | inl t ↦
      let h : length buf + 2 ≤ page_size = ground (arith, t) in
      inl (omega (arith, e, h), (pad buf, finish-page buf h, length-pad buf h))
  | inr t ↦
      let h : page_size < length buf + 2 = ground (arith, t) in
      inr (omega (arith, e, h), finish-too_large buf h ∙ ap too_large e)
]

pub finish-padded :
    (buf bs : List ℕ)
    → finish buf ≡ page bs
    → (length buf + 2 ≤ page_size) × ((tail : List ℕ) × (bs ≡ buf ++ tail))
finish-padded buf bs h = elim (Bool-cases (leb (length buf + 2) page_size)) [
  | inl t ↦
      let le : length buf + 2 ≤ page_size = ground (arith, t) in
      let back : page (pad buf) ≡ page bs = sym (finish-page buf le) ∙ h in
      let p : bs ≡ pad buf = cc in (le, (padding buf, p ∙ unfold pad in refl))
  | inr t ↦ absurd (
      let lt : page_size < length buf + 2 = ground (arith, t) in
      let back : too_large (length buf) ≡ page bs = sym (finish-too_large buf lt) ∙ h in
      ground (arith, back))
]

finish-length : (buf bs : List ℕ) → finish buf ≡ page bs → length bs ≡ page_size
finish-length buf bs h = elim (Bool-cases (leb (length buf + 2) page_size)) [
  | inl t ↦
      let le : length buf + 2 ≤ page_size = ground (arith, t) in
      let back : page (pad buf) ≡ page bs = sym (finish-page buf le) ∙ h in
      let p : bs ≡ pad buf = cc in ap length p ∙ length-pad buf le
  | inr t ↦ absurd (
      let lt : page_size < length buf + 2 = ground (arith, t) in
      let back : too_large (length buf) ≡ page bs = sym (finish-too_large buf lt) ∙ h in
      ground (arith, back))
]

module _ (n : Node) where
  pub encode-leaf :
      (cs : List LeafCell)
      → n.is_leaf ≡ true
      → cells_of n.leaf_cell n.offsets ≡ some cs
      → encode n ≡ finish (leaf_buffer n.offsets cs)
  unfolding encode encode_leaf
  encode-leaf cs t e = ground (arith, t, e)

  pub encode-internal :
      (cs : List InternalCell)
      → n.is_leaf ≡ false
      → cells_of n.internal_cell n.offsets ≡ some cs
      → encode n ≡ finish (internal_buffer n.file_offset n.offsets cs)
  unfolding encode encode_internal
  encode-internal cs t e = ground (arith, t, e)

  leaf-Sized : (size : ℕ) → n.is_leaf ≡ true → page_bytes n ≡ some size → Sized size (encode n)
  leaf-Sized size t h = elim (Option-cases (cells_of n.leaf_cell n.offsets)) [
    | inl e ↦ absurd (unfold page_bytes in ground (arith, t, e, h))
    | inr (cs, e) ↦
        let q : 3 + 2 * length n.offsets + total leaf_cell_bytes cs ≡ size =
          unfold page_bytes in ground (arith, t, e, h) in
        subst (Sized size) (sym (encode-leaf cs t e))
          (finish-Sized (leaf_buffer n.offsets cs) size (length-leaf_buffer n.offsets cs ∙ q))
  ]

  internal-Sized : (size : ℕ) → n.is_leaf ≡ false → page_bytes n ≡ some size → Sized size (encode n)
  internal-Sized size t h = elim (Option-cases (cells_of n.internal_cell n.offsets)) [
    | inl e ↦ absurd (unfold page_bytes in ground (arith, t, e, h))
    | inr (cs, e) ↦
        let q : 13 + 2 * length n.offsets + total internal_cell_bytes cs ≡ size =
          unfold page_bytes in ground (arith, t, e, h) in
        subst (Sized size) (sym (encode-internal cs t e)) (
          finish-Sized (internal_buffer n.file_offset n.offsets cs) size
            (length-internal_buffer n.file_offset n.offsets cs ∙ q))
  ]

-- Every page that is encoded fills its place.
pub length-encode : (n : Node) (bs : List ℕ) → encode n ≡ page bs → length bs ≡ page_size
length-encode n bs h = elim (Bool-cases n.is_leaf) [
  | inl t ↦ elim (Option-cases (cells_of n.leaf_cell n.offsets)) [
    | inl e ↦ absurd (unfold encode encode_leaf in ground (arith, t, e, h))
    | inr (cs, e) ↦ finish-length _ bs (sym (encode-leaf n cs t e) ∙ h)
  ]
  | inr t ↦ elim (Option-cases (cells_of n.internal_cell n.offsets)) [
    | inl e ↦ absurd (unfold encode encode_internal in ground (arith, t, e, h))
    | inr (cs, e) ↦ finish-length _ bs (sym (encode-internal n cs t e) ∙ h)
  ]
]

-- A page whose offsets all name cells is encoded without a panic: if its bytes and the two of the
-- free size fit, to exactly `page_size` bytes, and else to the error with the number of its bytes.
pub encode-exact :
    (n : Node) (size : ℕ)
    → page_bytes n ≡ some size
    → ((size + 2 ≤ page_size) × ((bs : List ℕ) × (encode n ≡ page bs) × (length bs ≡ page_size)))
      ⊎ ((page_size < size + 2) × (encode n ≡ too_large size))
unfolding Sized
encode-exact n size h = elim (Bool-cases n.is_leaf) [
  | inl t ↦ leaf-Sized n size t h
  | inr t ↦ internal-Sized n size t h
]
