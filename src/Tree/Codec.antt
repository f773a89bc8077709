-- ===== src/Tree/Codec.antt =====
-- `encode` and `decode` of node.go: a page of the tree as the bytes of the page file.
pub mod Pages
pub mod Buffers
pub mod RoundTrip
use harmony_db.Base.{
  ℕ, zero, suc, ◌+◌, ◌-◌, ◌%◌, ◌^◌, true, false, none, some, List, [], ◌∷◌, ◌++◌, length, ltb, ◌==◌,
  if◌then◌else◌,
}
use harmony_db.Bytes.{Read, ok, ◌>>=◌, le, read_full, read_word}
use harmony_db.Tree.Page.{InternalCell, LeafCell, Node, u16, u32, cells_of}
use harmony_db.Tree.Store.{page_size}

abbrev pub leaf_node : ℕ
leaf_node = 1

abbrev pub internal_node : ℕ
internal_node = 2

pub data Encoded : Type 0 where
  page : List ℕ → Encoded
  -- The error, with the size that it reports.
  too_large : ℕ → Encoded
  -- An offset that names no cell, or a page of the wrong size.
  panic : Encoded

-- A loop of `binary.Write` calls.
unfoldable pub write_all {ℓ} : {A : Type ℓ} → (A → List ℕ) → List A → List ℕ
write_all one [] = []
write_all one (x ∷ xs) = one x ++ write_all one xs

-- A loop of `k` rounds of `binary.Read` calls.
unfoldable pub read_all {ℓ} : {A : Type ℓ} → (List ℕ → Read A) → ℕ → List ℕ → Read (List A)
read_all one zero bs = ok [] bs
read_all one (suc k) bs = one bs >>= λ x bs1. read_all one k bs1 >>= λ xs bs2. ok (x ∷ xs) bs2

-- `make([]byte, n)`
unfoldable pub zeros : ℕ → List ℕ
zeros zero = []
zeros (suc n) = 0 ∷ zeros n

-- The free size, and as many zeros.
unfoldable pub padding : List ℕ → List ℕ
unfolding zeros
padding buf = let free_size = u16 (page_size - length buf - 2) in le 2 free_size ++ zeros free_size

unfoldable pub pad : List ℕ → List ℕ
unfolding padding
pad buf = buf ++ padding buf

-- The end of `encodeLeaf` and `encodeInternal`, from the padding on.
unfoldable pub finish : List ℕ → Encoded
unfolding pad
finish buf = elim (ltb page_size (length buf + 2)) [
  | true ↦ too_large (length buf)
  | false ↦ if length (pad buf) == page_size then page (pad buf) else panic
]

unfoldable pub write_leaf_cell : LeafCell → List ℕ
write_leaf_cell c = le 4 c.key_size ++ (le 4 c.val_size ++ (c.key ++ c.val))

unfoldable pub leaf_buffer : List ℕ → List LeafCell → List ℕ
unfolding write_all write_leaf_cell
leaf_buffer offsets cells =
    le 1 leaf_node
    ++ (le 2 (u16 (length offsets))
        ++ (write_all (le 2) offsets ++ write_all write_leaf_cell cells))

unfoldable pub encode_leaf : Node → Encoded
unfolding finish leaf_buffer cells_of
encode_leaf n = elim (cells_of n.leaf_cell n.offsets) [
  | none ↦ panic
  | some cells ↦ finish (leaf_buffer n.offsets cells)
]

unfoldable pub write_internal_cell : InternalCell → List ℕ
write_internal_cell c = le 4 (u32 (length c.key)) ++ (c.key ++ le 8 c.file_offset)

unfoldable pub internal_buffer : ℕ → List ℕ → List InternalCell → List ℕ
unfolding write_all write_internal_cell
internal_buffer file_offset offsets cells =
    le 1 internal_node
    ++ (le 8 file_offset
        ++ (le 4 (u32 (length offsets))
            ++ (write_all (le 2) offsets ++ write_all write_internal_cell cells)))

unfoldable pub encode_internal : Node → Encoded
unfolding finish internal_buffer cells_of
encode_internal n = elim (cells_of n.internal_cell n.offsets) [
  | none ↦ panic
  | some cells ↦ finish (internal_buffer n.file_offset n.offsets cells)
]

unfoldable pub encode : Node → Encoded
unfolding encode_leaf encode_internal
encode n = if n.is_leaf then encode_leaf n else encode_internal n

unfoldable pub read_leaf_cell : List ℕ → Read LeafCell
read_leaf_cell bs = read_word 4 bs >>= λ key_size bs1. read_word 4 bs1 >>= λ val_size bs2.
    read_full key_size bs2 >>= λ key bs3. read_full val_size bs3 >>= λ val bs4.
    ok (record { key_size = key_size; val_size = val_size; key = key; val = val }) bs4

unfoldable pub decode_leaf : Node → List ℕ → Read Node
unfolding read_all read_leaf_cell
decode_leaf n bs = read_word 2 bs >>= λ count bs1.
    read_all (read_word 2) count bs1 >>= λ offsets bs2.
    read_all read_leaf_cell count bs2 >>= λ cells bs3.
    ok (record n { is_leaf = true; offsets = offsets; leaf_cell = cells }) bs3

unfoldable pub read_internal_cell : List ℕ → Read InternalCell
read_internal_cell bs = read_word 4 bs >>= λ key_len bs1. read_full key_len bs1 >>= λ key bs2.
    read_word 8 bs2 >>= λ file_offset bs3. ok (record { key = key; file_offset = file_offset }) bs3

unfoldable pub decode_internal : Node → List ℕ → Read Node
unfolding read_all read_internal_cell
decode_internal n bs = read_word 8 bs >>= λ file_offset bs1. read_word 4 bs1 >>= λ count bs2.
    read_all (read_word 2) count bs2 >>= λ offsets bs3.
    read_all read_internal_cell count bs3 >>= λ cells bs4.
    ok
      (record n {
        is_leaf = false;
        file_offset = file_offset;
        offsets = offsets;
        internal_cell = cells;
      })
      bs4

-- `decode` into the page `n`; where it fails, the callers drop the page.
unfoldable pub decode : List ℕ → Node → Read Node
unfolding decode_leaf decode_internal
decode paged n = read_word 1 paged >>= λ node_type bs.
    if node_type == leaf_node then decode_leaf n bs else decode_internal n bs
