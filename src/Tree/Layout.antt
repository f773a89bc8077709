-- ===== src/Tree/Layout.antt =====
-- Where the pages of a tree stand in the page file (btree.go).
use harmony_db.Base.{
  ℕ, ◌+◌, ◌*◌, ◌≤◌, ◌<◌, ◌≡◌, refl, sym, ◌∙◌, ap, subst, ◌⊎◌, false, some, some-injective, [], ◌∷◌,
  arith, All, ◌==◌, Bool-cases, ltb, ltb→lt, inl, inr, if_cases, ==_iff,
}
use harmony_db.Base.Maps
use harmony_db.Base.Maps.{Map, put-All}
use harmony_db.Tree.Page.{Node}
use harmony_db.Tree.Store.{BTree, page_size, write_back, add}

abbrev pub Apart : ℕ → ℕ → Type 0
Apart a b = (a + page_size ≤ b) ⊎ (b + page_size ≤ a)

-- Every page stands under its own offset, and no two overlap in the file.
abbrev pub Spread : Map Node → Type 0
Spread [] = Unit
Spread ((at, pg) ∷ pages) = (pg.file_offset ≡ at) × All (λ p. Apart at p.0) pages × Spread pages

-- A place for a page that was given out: a multiple of the page size below the next free offset.
abbrev pub IsPlace : ℕ → ℕ → Type 0
IsPlace free at = (j : ℕ) × (at ≡ 4096 * j) × (at < free)

pub record IsLaid (b : BTree) : Type 0 where
  pub spread : Spread b.pages
  pub places : All (λ p. IsPlace b.next_free_offset p.0) b.pages
  pub free : (j : ℕ) × (b.next_free_offset ≡ 4096 * j)

place-Apart : (free at a : ℕ) → IsPlace free at → IsPlace free a → (at == a) ≡ false → Apart at a
place-Apart free at a (j, p, _) (i, q, _) n = elim (Bool-cases (ltb at a)) [
  | inl e ↦ let below : at < a = ltb→lt at a e in inl (omega (arith, p, q, below))
  | inr e ↦ let above : a < at = ground (arith, n, e) in inr (omega (arith, p, q, above))
]

put-Spread :
    (free k : ℕ) (pg : Node) (m : Map Node)
    → pg.file_offset ≡ k
    → IsPlace free k
    → All (λ p. IsPlace free p.0) m
    → Spread m
    → Spread (Maps.put k pg m)
unfolding Maps.put
put-Spread free k pg [] o h a s = (o, tt, tt)
put-Spread free k pg ((j, w) ∷ m) o h a s = elim (Bool-cases (j == k)) [
  | inl e ↦
      let same : j ≡ k = (==_iff j k).0 e in
      rw (e, Maps.put) (o, subst (λ x. All (λ p. Apart x p.0) m) same s.1, s.2)
  | inr e ↦
      rw (e, Maps.put)
        (
          s.0,
          put-All (λ p. Apart j p.0) k pg m (place-Apart free j k a.0 h e) s.1,
          put-Spread free k pg m o h a.1 s.2,
        )
]

pub Spread-get :
    (m : Map Node) (at : ℕ) (pg : Node) → Spread m → Maps.get at m ≡ some pg → pg.file_offset ≡ at
unfolding Maps.get
Spread-get [] at pg s h = absurd (ground (arith, h))
Spread-get ((j, w) ∷ m) at pg s h = elim (if_cases (j == at) _ _ _ h) [
  | inl (e, q) ↦
      let same : j ≡ at = (==_iff j at).0 e in
      ap (λ x. x.file_offset) (sym (some-injective _ _ q)) ∙ s.0 ∙ same
  | inr (e, q) ↦ Spread-get m at pg s.2 q
]

pub places-get :
    (free : ℕ) (m : Map Node) (at : ℕ) (pg : Node)
    → All (λ p. IsPlace free p.0) m
    → Maps.get at m ≡ some pg
    → IsPlace free at
unfolding Maps.get
places-get free [] at pg a h = absurd (ground (arith, h))
places-get free ((j, w) ∷ m) at pg a h = elim (if_cases (j == at) _ _ _ h) [
  | inl (e, q) ↦ subst (IsPlace free) ((==_iff j at).0 e) a.0
  | inr (e, q) ↦ places-get free m at pg a.1 q
]

wider :
    (free free' : ℕ) (m : Map Node)
    → free ≤ free'
    → All (λ p. IsPlace free p.0) m
    → All (λ p. IsPlace free' p.0) m
wider free free' [] h a = tt
wider free free' (p ∷ m) h a =
    ((a.0.0, a.0.1, (let lt = a.0.2 in omega (arith, h, lt))), wider free free' m h a.1)

pub write_back-IsLaid :
    (pg : Node) (b : BTree)
    → IsLaid b
    → IsPlace b.next_free_offset pg.file_offset
    → IsLaid (write_back pg b)
unfolding write_back
write_back-IsLaid pg b h k = record {
  spread = put-Spread b.next_free_offset pg.file_offset pg b.pages refl k h.places h.spread;
  places = put-All (λ p. IsPlace b.next_free_offset p.0) pg.file_offset pg b.pages k h.places;
  free = h.free;
}

more_room :
    (b : BTree) → IsLaid b → IsLaid (record b { next_free_offset = b.next_free_offset + page_size })
more_room b h = record {
  spread = h.spread;
  places = wider b.next_free_offset (b.next_free_offset + page_size) b.pages (omega arith) h.places;
  free = (h.free.0 + 1, (let e = h.free.1 in omega (arith, e)));
}

pub add-IsLaid : (pg : Node) (b : BTree) → IsLaid b → IsLaid (add pg b).1
unfolding add write_back
add-IsLaid pg b h =
    write_back-IsLaid (record pg { file_offset = b.next_free_offset })
      (record b { next_free_offset = b.next_free_offset + page_size }) (more_room b h)
      (h.free.0, h.free.1, omega arith)
