-- ===== src/PageFile/Rounds.antt =====
-- The loop of flushPages (storage.go), a round for each dirty page.
use harmony_db.Base.{
  ℕ, ◌+◌, ◌≤◌, ◌≡◌, refl, sym, ap, ◌∙◌, subst, ◌⊎◌, inl, inr, true, false, some, List, [], ◌∷◌,
  arith, length, All, Bool-cases, ◌==◌,
}
use harmony_db.Base.Maps
use harmony_db.Base.Maps.{Map}
use harmony_db.Tree.Page.{Node}
use harmony_db.Tree.Store.{page_size}
use harmony_db.Tree.Layout.{Apart, Spread}
use harmony_db.Tree.Codec.{Encoded, page, too_large, panic, encode}
use harmony_db.Tree.Codec.Pages.{length-encode}
use harmony_db.PageFile.{
  FileStore, write_encoded, flushed, write_at, and_then, update, clean_in, flush_loop,
}
use harmony_db.PageFile.Contents.{Holds, write_at-Holds, write_at-elsewhere}

-- What a round of the loop does with a dirty page.
record Round (pg : Node) (pages : Map Node) (f f' : FileStore) : Type 0 where
  pub bytes : List ℕ
  pub after : FileStore
  encoded : encode pg ≡ page bytes
  pub file : after.file ≡ write_at pg.file_offset bytes f.file
  pub root : after.root_offset ≡ f.root_offset
  pub rest : flush_loop pages after ≡ flushed f'

module _ (at : ℕ) (pg : Node) (pages : Map Node) (f f' : FileStore) where
  flush_loop-clean : pg.is_dirty ≡ false → flush_loop ((at, pg) ∷ pages) f ≡ flush_loop pages f
  unfolding flush_loop
  flush_loop-clean d = rw d refl

  dirty_round :
      (e : Encoded)
      → encode pg ≡ e
      → pg.is_dirty ≡ true
      → flush_loop ((at, pg) ∷ pages) f
        ≡ and_then (write_encoded pg f e) (λ f1. flush_loop pages (clean_in at pg f1))
  unfolding flush_loop update
  dirty_round e q d =
      simp d
        (ap (λ x. and_then (write_encoded pg f x) (λ f1. flush_loop pages (clean_in at pg f1))) q)

  dirty-Round :
      (e : Encoded)
      → encode pg ≡ e
      → pg.is_dirty ≡ true
      → flush_loop ((at, pg) ∷ pages) f ≡ flushed f'
      → Round pg pages f f'
  unfolding flush_loop and_then write_encoded
  dirty-Round (page bs) e d h = record {
    bytes = bs;
    after = clean_in at pg (record f {
      file = write_at pg.file_offset bs f.file;
      page_cache = Maps.put pg.file_offset pg f.page_cache;
    });
    encoded = e;
    file = unfold clean_in in refl;
    root = unfold clean_in in refl;
    rest = sym (dirty_round (page bs) e d) ∙ h;
  }
  dirty-Round (too_large size) e d h =
      absurd (let back = sym (dirty_round (too_large size) e d) ∙ h in ground (arith, back))
  dirty-Round panic e d h =
      absurd (let back = sym (dirty_round panic e d) ∙ h in ground (arith, back))

-- A page that is written elsewhere leaves what the file holds at `a`.
Round-Holds :
    (pg : Node) (pages : Map Node) (f f' : FileStore) (r : Round pg pages f f') (at a : ℕ)
    (xs : List ℕ)
    → pg.file_offset ≡ at
    → Apart a at
    → Holds f.file a page_size xs
    → Holds r.after.file a page_size xs
unfolding Apart
Round-Holds pg pages f f' r at a xs o k h =
    let size = length-encode pg r.bytes r.encoded in
    let away : (a + page_size ≤ pg.file_offset) ⊎ (pg.file_offset + length r.bytes ≤ a) =
      rw (o, size) k in
    subst (λ file. Holds file a page_size xs) (sym r.file)
      (write_at-elsewhere pg.file_offset r.bytes f.file a page_size xs h away)

-- The round of a page writes it.
Round-writes :
    (pg : Node) (pages : Map Node) (f f' : FileStore) (r : Round pg pages f f') (at : ℕ)
    → pg.file_offset ≡ at
    → Holds r.after.file at page_size r.bytes
Round-writes pg pages f f' r at o =
    let size = length-encode pg r.bytes r.encoded in
    rw (r.file, ← o, ← size) (write_at-Holds pg.file_offset r.bytes f.file)

-- Flushing other pages leaves what the file holds at `a`, and the root's offset.
flush_loop-Holds :
    (pages : Map Node) (f f' : FileStore) (a : ℕ) (xs : List ℕ)
    → Spread pages
    → All (λ p. Apart a p.0) pages
    → Holds f.file a page_size xs
    → flush_loop pages f ≡ flushed f'
    → Holds f'.file a page_size xs
unfolding Spread Apart flush_loop
flush_loop-Holds [] f f' a xs s k h e =
    let q : f ≡ f' = cc in subst (λ g. Holds g.file a page_size xs) q h
flush_loop-Holds ((at, pg) ∷ pages) f f' a xs s k h e = elim (Bool-cases pg.is_dirty) [
  | inr d ↦
      flush_loop-Holds pages f f' a xs s.2 k.1 h (sym (flush_loop-clean at pg pages f f' d) ∙ e)
  | inl d ↦
      let r = dirty-Round at pg pages f f' (encode pg) refl d e in
      let kept : Holds r.after.file a page_size xs =
        Round-Holds pg pages f f' r at a xs s.0 k.0 h in
      flush_loop-Holds pages r.after f' a xs s.2 k.1 kept r.rest
]

pub flush_loop-root :
    (pages : Map Node) (f f' : FileStore)
    → flush_loop pages f ≡ flushed f'
    → f'.root_offset ≡ f.root_offset
unfolding flush_loop
flush_loop-root [] f f' e = let q : f ≡ f' = cc in ap (λ g. g.root_offset) (sym q)
flush_loop-root ((at, pg) ∷ pages) f f' e = elim (Bool-cases pg.is_dirty) [
  | inr d ↦ flush_loop-root pages f f' (sym (flush_loop-clean at pg pages f f' d) ∙ e)
  | inl d ↦
      let r = dirty-Round at pg pages f f' (encode pg) refl d e in
      flush_loop-root pages r.after f' r.rest ∙ r.root
]

pub flush_loop-dirty :
    (pages : Map Node) (f f' : FileStore) (a : ℕ) (pg : Node)
    → Spread pages
    → Maps.get a pages ≡ some pg
    → pg.is_dirty ≡ true
    → flush_loop pages f ≡ flushed f'
    → (bs : List ℕ) × (encode pg ≡ page bs) × Holds f'.file a page_size bs
unfolding Maps.get Spread
flush_loop-dirty [] f f' a pg s g d e = absurd (ground (arith, g))
flush_loop-dirty ((at, p) ∷ pages) f f' a pg s g d e = elim (Bool-cases (at == a)) [
  | inl t ↦
      let here : at ≡ a = ground (arith, t) in
      let same : p ≡ pg = ground (arith, t, g) in
      let dirty : p.is_dirty ≡ true = ap (λ n. n.is_dirty) same ∙ d in
      let r = dirty-Round at p pages f f' (encode p) refl dirty e in
      (
        r.bytes,
        ap encode (sym same) ∙ r.encoded,
        flush_loop-Holds pages r.after f' a r.bytes s.2
            (subst (λ x. All (λ q. Apart x q.0) pages) here s.1)
            (Round-writes p pages f f' r a (s.0 ∙ here)) r.rest,
      )
  | inr t ↦
      let later : Maps.get a pages ≡ some pg = ground (arith, t, g) in
      elim (Bool-cases p.is_dirty) [
        | inr c ↦
            flush_loop-dirty pages f f' a pg s.2 later d
              (sym (flush_loop-clean at p pages f f' c) ∙ e)
        | inl c ↦
            let r = dirty-Round at p pages f f' (encode p) refl c e in
            flush_loop-dirty pages r.after f' a pg s.2 later d r.rest
      ]
]
