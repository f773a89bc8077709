-- ===== src/Tree/Pairs.antt =====
-- The pairs that a leaf holds, in the order of its offsets (node.go).
use harmony_db.Base.{
  ℕ, zero, suc, ◌≡◌, refl, sym, ◌∙◌, ap, Option, some, List, [], ◌∷◌, ◌++◌, arith, length,
  get_elem?, take, drop, Option-cases, inl, inr, ◌>>=◌,
}
use harmony_db.Tree.Page.{Key, LeafCell}

-- The key and the value of a cell; its sizes are those of the key and the value.
abbrev pub Pair : Type 0
Pair = Key × List ℕ

-- The pairs that the offsets name, in their order; `none` if one names no cell.
unfoldable pub pairs_of : List LeafCell → List ℕ → Option (List Pair)
pairs_of cells [] = some []
pairs_of cells (o ∷ os) =
    get_elem? cells o >>= λ c. pairs_of cells os >>= λ ps. some ((c.key, c.val) ∷ ps)

pub pairs_of-cons :
    (cs : List LeafCell) (o : ℕ) (os : List ℕ) (c : LeafCell) (qs : List Pair)
    → get_elem? cs o ≡ some c
    → pairs_of cs os ≡ some qs
    → pairs_of cs (o ∷ os) ≡ some ((c.key, c.val) ∷ qs)
unfolding pairs_of
pairs_of-cons cs o os c qs e f = rw (e, f) refl

-- The first offset and the rest of a page whose offsets all name cells.
pub record FirstPair (cs : List LeafCell) (o : ℕ) (os : List ℕ) (ps : List Pair) : Type 0 where
  pub cell : LeafCell
  pub others : List Pair
  pub found : get_elem? cs o ≡ some cell
  pub rest : pairs_of cs os ≡ some others
  pub all : ps ≡ (cell.key, cell.val) ∷ others

pub first_pair :
    (cs : List LeafCell) (o : ℕ) (os : List ℕ) (ps : List Pair)
    → pairs_of cs (o ∷ os) ≡ some ps
    → FirstPair cs o os ps
unfolding pairs_of
first_pair cs o os ps h = elim (Option-cases (get_elem? cs o)) [
  | inl e ↦ absurd (ground (arith, e, h))
  | inr (c, e) ↦ elim (Option-cases (pairs_of cs os)) [
    | inl f ↦ absurd (ground (arith, e, f, h))
    | inr (qs, f) ↦
        let back = sym (pairs_of-cons cs o os c qs e f) ∙ h in
        record { cell = c; others = qs; found = e; rest = f; all = cc }
  ]
]

get_elem?-grow :
    (cs ds : List LeafCell) (i : ℕ) (c : LeafCell)
    → get_elem? cs i ≡ some c
    → get_elem? (cs ++ ds) i ≡ some c
get_elem?-grow [] ds i c h = absurd (ground (arith, h))
get_elem?-grow (x ∷ cs) ds zero c h = h
get_elem?-grow (x ∷ cs) ds (suc i) c h = get_elem?-grow cs ds i c h

pub get_elem?-end :
    (cs : List LeafCell) (c : LeafCell) → get_elem? (cs ++ (c ∷ [])) (length cs) ≡ some c
get_elem?-end [] c = refl
get_elem?-end (x ∷ cs) c = get_elem?-end cs c

pub pairs_of-grow :
    (cs ds : List LeafCell) (os : List ℕ) (qs : List Pair)
    → pairs_of cs os ≡ some qs
    → pairs_of (cs ++ ds) os ≡ some qs
pairs_of-grow cs ds [] qs h = unfold pairs_of in h
pairs_of-grow cs ds (o ∷ os) qs h =
    let f = first_pair cs o os qs h in
    pairs_of-cons (cs ++ ds) o os f.cell f.others (get_elem?-grow cs ds o f.cell f.found)
      (pairs_of-grow cs ds os f.others f.rest)
    ∙ ap some (sym f.all)

pub pairs_of-append :
    (cs : List LeafCell) (os os' : List ℕ) (qs qs' : List Pair)
    → pairs_of cs os ≡ some qs
    → pairs_of cs os' ≡ some qs'
    → pairs_of cs (os ++ os') ≡ some (qs ++ qs')
pairs_of-append cs [] os' qs qs' h k = let e : qs ≡ [] = unfold pairs_of in cc in rw e k
pairs_of-append cs (o ∷ os) os' qs qs' h k =
    let f = first_pair cs o os qs h in
    rw f.all (
      pairs_of-cons cs o (os ++ os') f.cell (f.others ++ qs') f.found
        (pairs_of-append cs os os' f.others qs' f.rest k))

pub pairs_of-take :
    (cs : List LeafCell) (os : List ℕ) (ps : List Pair) (k : ℕ)
    → pairs_of cs os ≡ some ps
    → (pairs_of cs (take k os) ≡ some (take k ps)) × (pairs_of cs (drop k os) ≡ some (drop k ps))
pairs_of-take cs os ps zero h = (unfold pairs_of in refl, h)
pairs_of-take cs [] ps (suc k) h =
    let e : ps ≡ [] = unfold pairs_of in cc in rw e (unfold pairs_of in (refl, refl))
pairs_of-take cs (o ∷ os) ps (suc k) h =
    let f = first_pair cs o os ps h in
    let ih = pairs_of-take cs os f.others k f.rest in
    rw f.all (pairs_of-cons cs o (take k os) f.cell (take k f.others) f.found ih.0, ih.1)

pub length-pairs_of :
    (cs : List LeafCell) (os : List ℕ) (ps : List Pair)
    → pairs_of cs os ≡ some ps
    → length ps ≡ length os
length-pairs_of cs [] ps h = let e : ps ≡ [] = unfold pairs_of in cc in rw e refl
length-pairs_of cs (o ∷ os) ps h =
    let f = first_pair cs o os ps h in rw f.all (ap suc (length-pairs_of cs os f.others f.rest))
