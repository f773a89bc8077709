-- ===== src/Tree/Cells.antt =====
-- The cells that the offsets of a page name (node.go), in their order.
use harmony_db.Base.{
  ℕ, zero, suc, ◌≡◌, refl, sym, ◌∙◌, ap, subst, some, List, [], ◌∷◌, ◌++◌, arith, length, get_elem?,
  take, drop, Option-cases, inl, inr,
}
use harmony_db.Tree.Page.{cells_of}

module _ {ℓ} {C : Type ℓ} where
  pub cells_of-cons :
      (cs : List C) (o : ℕ) (os : List ℕ) (c : C) (ds : List C)
      → get_elem? cs o ≡ some c
      → cells_of cs os ≡ some ds
      → cells_of cs (o ∷ os) ≡ some (c ∷ ds)
  unfolding cells_of
  cells_of-cons cs o os c ds e f = rw (e, f) refl

  pub record FirstCell (cs : List C) (o : ℕ) (os : List ℕ) (ds : List C) : Type ℓ where
    pub cell : C
    pub others : List C
    pub found : get_elem? cs o ≡ some cell
    pub rest : cells_of cs os ≡ some others
    pub all : ds ≡ cell ∷ others

  pub first_cell :
      (cs : List C) (o : ℕ) (os : List ℕ) (ds : List C)
      → cells_of cs (o ∷ os) ≡ some ds
      → FirstCell cs o os ds
  unfolding cells_of
  first_cell cs o os ds h = elim (Option-cases (get_elem? cs o)) [
    | inl e ↦ absurd (ground (arith, e, h))
    | inr (c, e) ↦ elim (Option-cases (cells_of cs os)) [
      | inl f ↦ absurd (ground (arith, e, f, h))
      | inr (rs, f) ↦
          let back = sym (cells_of-cons cs o os c rs e f) ∙ h in
          record { cell = c; others = rs; found = e; rest = f; all = cc }
    ]
  ]

  get_elem?-more :
      (cs more : List C) (i : ℕ) (c : C)
      → get_elem? cs i ≡ some c
      → get_elem? (cs ++ more) i ≡ some c
  get_elem?-more [] more i c h = absurd (ground (arith, h))
  get_elem?-more (x ∷ cs) more zero c h = h
  get_elem?-more (x ∷ cs) more (suc i) c h = get_elem?-more cs more i c h

  get_elem?-last : (cs : List C) (c : C) → get_elem? (cs ++ (c ∷ [])) (length cs) ≡ some c
  get_elem?-last [] c = refl
  get_elem?-last (x ∷ cs) c = get_elem?-last cs c

  cells_of-more :
      (cs more : List C) (os : List ℕ) (ds : List C)
      → cells_of cs os ≡ some ds
      → cells_of (cs ++ more) os ≡ some ds
  cells_of-more cs more [] ds h = unfold cells_of in h
  cells_of-more cs more (o ∷ os) ds h =
      let f = first_cell cs o os ds h in
      cells_of-cons (cs ++ more) o os f.cell f.others (get_elem?-more cs more o f.cell f.found)
        (cells_of-more cs more os f.others f.rest)
      ∙ ap some (sym f.all)

  -- A new cell at the end, named between the others.
  pub cells_of-insert :
      (cs : List C) (c : C) (os : List ℕ) (ds : List C) (i : ℕ)
      → cells_of cs os ≡ some ds
      → cells_of (cs ++ (c ∷ [])) (take i os ++ (length cs ∷ drop i os))
        ≡ some (take i ds ++ (c ∷ drop i ds))
  cells_of-insert cs c os ds zero h =
      cells_of-cons _ (length cs) os c ds (get_elem?-last cs c) (cells_of-more cs (c ∷ []) os ds h)
  cells_of-insert cs c [] ds (suc i) h =
      let e : ds ≡ [] = unfold cells_of in cc in
      rw e (cells_of-cons _ (length cs) [] c [] (get_elem?-last cs c) (unfold cells_of in refl))
  cells_of-insert cs c (o ∷ os) ds (suc i) h =
      let f = first_cell cs o os ds h in
      rw f.all (
        cells_of-cons _ o _ f.cell _ (get_elem?-more cs (c ∷ []) o f.cell f.found)
          (cells_of-insert cs c os f.others i f.rest))

  pub cells_of-get :
      (cs : List C) (os : List ℕ) (ds : List C) (i : ℕ) (c : C)
      → cells_of cs os ≡ some ds
      → get_elem? ds i ≡ some c
      → (o : ℕ) × (get_elem? os i ≡ some o) × (get_elem? cs o ≡ some c)
  cells_of-get cs [] ds i c h e =
      let q : ds ≡ [] = unfold cells_of in cc in
      let r : get_elem? [] i ≡ some c = subst (λ x. get_elem? x i ≡ some c) q e in
      absurd (ground (arith, r))
  cells_of-get cs (o ∷ os) ds zero c h e =
      let f = first_cell cs o os ds h in
      let r : some f.cell ≡ some c = subst (λ x. get_elem? x 0 ≡ some c) f.all e in
      (o, refl, f.found ∙ r)
  cells_of-get cs (o ∷ os) ds (suc i) c h e =
      let f = first_cell cs o os ds h in
      cells_of-get cs os f.others i c f.rest (subst (λ x. get_elem? x (suc i) ≡ some c) f.all e)

  pub length-cells_of :
      (cs : List C) (os : List ℕ) (ds : List C) → cells_of cs os ≡ some ds → length ds ≡ length os
  length-cells_of cs [] ds h = let e : ds ≡ [] = unfold cells_of in cc in rw e refl
  length-cells_of cs (o ∷ os) ds h =
      let f = first_cell cs o os ds h in rw f.all (ap suc (length-cells_of cs os f.others f.rest))

  pub get_elem?-kept :
      (cs : List C) (c : C) (i : ℕ) (d : C)
      → get_elem? cs i ≡ some d
      → get_elem? (cs ++ (c ∷ [])) i ≡ some d
  get_elem?-kept cs c i d h = get_elem?-more cs (c ∷ []) i d h
