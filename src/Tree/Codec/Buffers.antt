-- ===== src/Tree/Codec/Buffers.antt =====
-- The buffers of `encode`, read back (node.go).
use harmony_db.Base.{
  ℕ, zero, suc, ◌%◌, ◌^◌, ◌<◌, ◌≡◌, refl, sym, true, false, List, [], ◌∷◌, ◌++◌, arith, length, All,
}
use mathlib.Core.List.{append_assoc}
use harmony_db.Bytes.{Read, ok, le, read_word}
use harmony_db.Bytes.Laws.{read_word-le, read_full-append}
use harmony_db.Tree.Page.{InternalCell, LeafCell, Node}
use harmony_db.Tree.Codec.{
  write_all, read_all, write_leaf_cell, read_leaf_cell, leaf_buffer, decode_leaf,
  write_internal_cell, read_internal_cell, internal_buffer, decode_internal, decode,
}

read_all-write_all {ℓ} :
    {C : Type ℓ} (P : C → Type 0) (write : C → List ℕ) (read : List ℕ → Read C)
    → ((c : C) (rest : List ℕ) → P c → read (write c ++ rest) ≡ ok c rest)
    → (count : ℕ) (cs : List C) (rest : List ℕ) → length cs ≡ count
    → All P cs
    → read_all read count (write_all write cs ++ rest) ≡ ok cs rest
unfolding read_all write_all
read_all-write_all P write read h zero [] rest e k = refl
read_all-write_all P write read h (suc n) [] rest e k = absurd (omega (arith, e))
read_all-write_all P write read h zero (c ∷ cs) rest e k = absurd (omega (arith, e))
read_all-write_all P write read h (suc n) (c ∷ cs) rest e k =
    rw
      (
        append_assoc (write c) (write_all write cs) rest,
        h c (write_all write cs ++ rest) k.0,
        read_all-write_all P write read h n cs rest (omega (arith, e)) k.1,
      )
      refl

-- The sizes of a cell are those of its key and value, and fit their words.
pub record LeafFits (c : LeafCell) : Type 0 where
  pub key_size : c.key_size ≡ length c.key
  pub val_size : c.val_size ≡ length c.val
  pub key_word : length c.key < 2 ^ 32
  pub val_word : length c.val < 2 ^ 32

pub record InternalFits (c : InternalCell) : Type 0 where
  pub key_word : length c.key < 2 ^ 32
  pub offset_word : c.file_offset < 2 ^ 64

read_leaf_cell-write :
    (c : LeafCell) (rest : List ℕ)
    → LeafFits c
    → read_leaf_cell (write_leaf_cell c ++ rest) ≡ ok c rest
unfolding read_leaf_cell write_leaf_cell
read_leaf_cell-write c rest f =
    let parts : write_leaf_cell c ++ rest
        ≡ le 4 c.key_size ++ (le 4 c.val_size ++ (c.key ++ (c.val ++ rest))) =
      unfold write_leaf_cell in simp append_assoc in
    rw (
      parts,
      read_word-le 4 c.key_size _ (omega (arith, f.key_size, f.key_word)),
      read_word-le 4 c.val_size _ (omega (arith, f.val_size, f.val_word)),
      read_full-append c.key_size c.key _ (sym f.key_size),
      read_full-append c.val_size c.val rest (sym f.val_size),
    )

read_internal_cell-write :
    (c : InternalCell) (rest : List ℕ)
    → InternalFits c
    → read_internal_cell (write_internal_cell c ++ rest) ≡ ok c rest
unfolding read_internal_cell write_internal_cell
read_internal_cell-write c rest f =
    let n : length c.key % 2 ^ 32 ≡ length c.key = omega (arith, f.key_word) in
    let parts : write_internal_cell c ++ rest
        ≡ le 4 (length c.key % 2 ^ 32) ++ (c.key ++ (le 8 c.file_offset ++ rest)) =
      unfold write_internal_cell in simp append_assoc in
    rw (
      parts,
      n,
      read_word-le 4 (length c.key) _ (omega (arith, f.key_word)),
      read_full-append (length c.key) c.key _ refl,
      read_word-le 8 c.file_offset rest (omega (arith, f.offset_word)),
    )

read_offsets :
    (count : ℕ) (os : List ℕ) (rest : List ℕ)
    → length os ≡ count
    → All (λ o. o < 2 ^ 16) os
    → read_all (read_word 2) count (write_all (le 2) os ++ rest) ≡ ok os rest
read_offsets =
    read_all-write_all (λ o. o < 2 ^ 16) (le 2) (read_word 2)
      (λ o rest h. read_word-le 2 o rest (omega (arith, h)))

pub decode-leaf_buffer :
    (os : List ℕ) (cs : List LeafCell) (rest : List ℕ) (m : Node)
    → length os < 2 ^ 16
    → length cs ≡ length os
    → All (λ o. o < 2 ^ 16) os
    → All LeafFits cs
    → decode (leaf_buffer os cs ++ rest) m
      ≡ ok (record m { is_leaf = true; offsets = os; leaf_cell = cs }) rest
unfolding decode decode_leaf leaf_buffer
decode-leaf_buffer os cs rest m s e h k =
    let n : length os % 2 ^ 16 ≡ length os = omega (arith, s) in
    let parts : leaf_buffer os cs ++ rest
        ≡ le 1 1
          ++ (le 2 (length os % 2 ^ 16)
              ++ (write_all (le 2) os ++ (write_all write_leaf_cell cs ++ rest))) =
      unfold leaf_buffer in simp append_assoc in
    rw (
      parts,
      n,
      read_word-le 1 1 _ (omega arith),
      read_word-le 2 (length os) _ (omega (arith, s)),
      read_offsets (length os) os _ refl h,
      read_all-write_all LeafFits write_leaf_cell read_leaf_cell read_leaf_cell-write (length os) cs
          rest e k,
    )

pub decode-internal_buffer :
    (at : ℕ) (os : List ℕ) (cs : List InternalCell) (rest : List ℕ) (m : Node)
    → at < 2 ^ 64
    → length os < 2 ^ 32
    → length cs ≡ length os
    → All (λ o. o < 2 ^ 16) os
    → All InternalFits cs
    → decode (internal_buffer at os cs ++ rest) m
      ≡ ok (record m { is_leaf = false; file_offset = at; offsets = os; internal_cell = cs }) rest
unfolding decode decode_internal internal_buffer
decode-internal_buffer at os cs rest m a s e h k =
    let n : length os % 2 ^ 32 ≡ length os = omega (arith, s) in
    let parts : internal_buffer at os cs ++ rest
        ≡ le 1 2
          ++ (le 8 at
              ++ (le 4 (length os % 2 ^ 32)
                  ++ (write_all (le 2) os ++ (write_all write_internal_cell cs ++ rest)))) =
      unfold internal_buffer in simp append_assoc in
    rw (
      parts,
      n,
      read_word-le 1 2 _ (omega arith),
      read_word-le 8 at _ (omega (arith, a)),
      read_word-le 4 (length os) _ (omega (arith, s)),
      read_offsets (length os) os _ refl h,
      read_all-write_all InternalFits write_internal_cell read_internal_cell
          read_internal_cell-write (length os) cs rest e k,
    )
