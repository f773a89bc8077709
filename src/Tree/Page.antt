-- ===== src/Tree/Page.antt =====
-- node.go: the cells of a page and their operations. `none` is a Go panic: an index out of range.
use Prim.Native.Nat.{compare, Ordering}
use harmony_db.Base.{
  ℕ, zero, suc, ◌+◌, ◌-◌, ◌/◌, ◌%◌, ◌^◌, Bool, true, false, Option, none, some, List, [], ◌∷◌, ◌++◌,
  length, get_elem?, take, drop, ltb, leb, ◌==◌, if◌then◌else◌, ◌>>=◌,
}

abbrev pub Key : Type 0
Key = List ℕ

pub record InternalCell : Type 0 where
  pub key : Key
  pub file_offset : ℕ

pub record LeafCell : Type 0 where
  pub key_size : ℕ
  pub val_size : ℕ
  pub key : Key
  pub val : List ℕ

pub record Node : Type 0 where
  pub is_dirty : Bool
  pub is_leaf : Bool
  pub file_offset : ℕ
  pub offsets : List ℕ
  pub internal_cell : List InternalCell
  pub leaf_cell : List LeafCell

-- `&Node{}`
abbrev pub new_node : Node
new_node = record {
  is_dirty = false;
  is_leaf = false;
  file_offset = 0;
  offsets = [];
  internal_cell = [];
  leaf_cell = [];
}

abbrev pub max_leaf_node_cells : ℕ
max_leaf_node_cells = 9

abbrev pub max_internal_node_cells : ℕ
max_internal_node_cells = 290

-- `bytes.Compare`
unfoldable pub compare_bytes : Key → Key → Ordering
compare_bytes [] [] = Ordering.eq
compare_bytes [] (b ∷ bs) = Ordering.lt
compare_bytes (a ∷ as') [] = Ordering.gt
compare_bytes (a ∷ as') (b ∷ bs) = elim (compare a b) [
  | Ordering.lt ↦ Ordering.lt
  | Ordering.eq ↦ compare_bytes as' bs
  | Ordering.gt ↦ Ordering.gt
]

unfoldable pub bytes_equal : Key → Key → Bool
bytes_equal a b = elim (compare_bytes a b) [ Ordering.eq ↦ true | _ ↦ false ]

abbrev pub u16 : ℕ → ℕ
u16 n = n % 2 ^ 16

abbrev pub u32 : ℕ → ℕ
u32 n = n % 2 ^ 32

unfoldable pub is_full : Node → Bool
is_full n =
    if n.is_leaf
    then leb max_leaf_node_cells (length n.offsets)
    else ltb max_internal_node_cells (length n.offsets)

unfoldable pub mark_dirty : Node → Node
mark_dirty n = record n { is_dirty = true }

unfoldable pub append_internal_cell : ℕ → Key → Node → Node
append_internal_cell file_offset key n = record n {
  offsets = n.offsets ++ (u16 (length n.offsets) ∷ []);
  internal_cell = n.internal_cell ++ (record { key = key; file_offset = file_offset } ∷ []);
}

-- `append(s[:i+1], s[i:]...)` with `s[i] = x` after it.
unfoldable pub insert_at : ℕ → ℕ → List ℕ → List ℕ
insert_at i x s = take i s ++ (x ∷ drop i s)

unfoldable pub insert_internal_cell : ℕ → ℕ → Key → Node → Node
unfolding insert_at
insert_internal_cell offset file_offset key n = record n {
  offsets = insert_at offset (u16 (length n.internal_cell)) n.offsets;
  internal_cell = n.internal_cell ++ (record { key = key; file_offset = file_offset } ∷ []);
}

unfoldable pub make_cell : Key → List ℕ → LeafCell
make_cell key val = record {
  key_size = u32 (length key);
  val_size = u32 (length val);
  key = key;
  val = val;
}

unfoldable pub append_leaf_cell : Key → List ℕ → Node → Node
unfolding make_cell
append_leaf_cell key val n = record n {
  offsets = n.offsets ++ (u16 (length n.offsets) ∷ []);
  leaf_cell = n.leaf_cell ++ (make_cell key val ∷ []);
}

unfoldable pub insert_leaf_cell : ℕ → Key → List ℕ → Node → Node
unfolding make_cell insert_at
insert_leaf_cell offset key val n = record n {
  offsets =
      if offset == u16 (length n.leaf_cell)
      then n.offsets ++ (offset ∷ [])
      else insert_at offset (u16 (length n.leaf_cell)) n.offsets;
  leaf_cell = n.leaf_cell ++ (make_cell key val ∷ []);
}

-- `cells[ofs]` for every offset.
unfoldable pub cells_of {ℓ} : {C : Type ℓ} → List C → List ℕ → Option (List C)
cells_of cells [] = some []
cells_of cells (o ∷ os) = get_elem? cells o >>= λ c. cells_of cells os >>= λ cs. some (c ∷ cs)

unfoldable pub cell_key : Node → ℕ → Option Key
cell_key n offset =
    if n.is_leaf
    then (do c ← get_elem? n.leaf_cell offset; some c.key)
    else (do c ← get_elem? n.internal_cell offset; some c.key)

unfoldable pub key_at : Node → ℕ → Option Key
unfolding cell_key
key_at n i = do o ← get_elem? n.offsets i; cell_key n o

-- The loop of `findInsPointForKey`; `high` is one more than the source's, so that it stays a
-- natural number: the loop runs while `low < high`. Its fuel is one more than the width.
unfoldable pub bisect : ℕ → Node → Key → ℕ → ℕ → Option ℕ
unfolding key_at
bisect zero n key low high = none
bisect (suc fuel) n key low high = elim (ltb low high) [
  | false ↦ some (u16 low)
  | true ↦
      let mid = low + (high - 1 - low) / 2 in
      key_at n mid >>= λ k. elim (compare_bytes key k) [
        | Ordering.lt ↦ bisect fuel n key low mid
        | Ordering.gt ↦ bisect fuel n key (mid + 1) high
        | Ordering.eq ↦ some (u16 mid)
      ]
]

unfoldable pub find_ins_point_for_key : Key → Node → Option ℕ
unfolding bisect
find_ins_point_for_key key n = bisect (suc (length n.offsets)) n key 0 (length n.offsets)

unfoldable pub is_at_least : Key → Key → Bool
is_at_least a b = elim (compare_bytes a b) [ Ordering.lt ↦ false | _ ↦ true ]

-- The loop of `findChildPage`, with the `found` so far.
unfoldable pub scan_child : List InternalCell → Key → List ℕ → ℕ → Option ℕ
unfolding is_at_least
scan_child cells key [] found = some found
scan_child cells key (o ∷ os) found = get_elem? cells o >>= λ c. elim (is_at_least key c.key) [
  | true ↦ scan_child cells key os o
  | false ↦ some found
]

unfoldable pub find_child_page : Key → Node → Option ℕ
unfolding scan_child
find_child_page key n = scan_child n.internal_cell key n.offsets 0

-- `findLeafCell` goes through all cells, also those that no offset names any more.
unfoldable pub find_cell : Key → List LeafCell → Option LeafCell
unfolding bytes_equal
find_cell key [] = none
find_cell key (c ∷ cs) = if bytes_equal c.key key then some c else find_cell key cs

-- The assignments to the cell that `findLeafCell` found.
unfoldable pub update_cell : Key → List ℕ → List LeafCell → List LeafCell
unfolding bytes_equal
update_cell key val [] = []
update_cell key val (c ∷ cs) =
    if bytes_equal c.key key
    then record c { val = val; val_size = u32 (length val) } ∷ cs
    else c ∷ update_cell key val cs

unfoldable pub move_leaf : List LeafCell → List ℕ → Node → Option Node
unfolding append_leaf_cell
move_leaf cells [] newpg = some newpg
move_leaf cells (o ∷ os) newpg =
    get_elem? cells o >>= λ c. move_leaf cells os (append_leaf_cell c.key c.val newpg)

unfoldable pub move_internal : List InternalCell → List ℕ → Node → Option Node
unfolding append_internal_cell
move_internal cells [] newpg = some newpg
move_internal cells (o ∷ os) newpg = get_elem? cells o >>= λ c.
    move_internal cells os (append_internal_cell c.file_offset c.key newpg)

pub record Split : Type 0 where
  pub old : Node
  pub new : Node
  pub separator : Key

-- `split`: the old page, the new page and the separator key.
unfoldable pub split : Node → Node → Option Split
unfolding move_leaf move_internal key_at
split n newpg =
    let at = length n.offsets / 2 in
    let new : Node = record newpg { is_leaf = n.is_leaf } in
    let moved : Option Node =
      if n.is_leaf
      then move_leaf n.leaf_cell (drop at n.offsets) new
      else move_internal n.internal_cell (drop at n.offsets) new in
    moved >>= λ new1. key_at new1 0 >>= λ sep.
    some (record { old = record n { offsets = take at n.offsets }; new = new1; separator = sep })
