-- ===== src/PageFile/Flush.antt =====
-- A page that was flushed is read back (storage.go, `loadPage` of btree.go).
use harmony_db.Base.{
  ℕ, ◌≤◌, ◌≡◌, refl, sym, ◌∙◌, subst, inr, true, some, List, ◌++◌, arith, length-append,
}
use harmony_db.Base.Maps
use harmony_db.Base.Maps.{Map}
use harmony_db.Bytes.{Read, ok, fail, le}
use harmony_db.Bytes.Laws.{length-le}
use harmony_db.Tree.Page.{Node, new_node}
use harmony_db.Tree.Store.{page_size}
use harmony_db.Tree.Layout.{Spread}
use harmony_db.Tree.Codec.{page, encode, decode}
use harmony_db.Tree.Codec.RoundTrip.{IsWritable, reloaded, loaded, decode-encode}
use harmony_db.PageFile.{
  FileStore, Flushed, flushed, flush_error, flush_panic, and_then, flush_loop, save, flush_pages,
}
use harmony_db.PageFile.Stored
use harmony_db.PageFile.Stored.{keep_page, load_page}
use harmony_db.PageFile.Contents.{Holds, read_at-Holds, write_at-elsewhere}
use harmony_db.PageFile.Rounds.{flush_loop-root, flush_loop-dirty}

-- A flush that succeeds is the loop, and `save` after it.
pub record Saved (f f' : FileStore) : Type 0 where
  pub before : FileStore
  pub loop : flush_loop f.page_cache f ≡ flushed before
  pub root : before.root_offset ≡ f.root_offset
  pub after : f' ≡ save before

loop-Saved :
    (r : Flushed) (f f' : FileStore)
    → flush_loop f.page_cache f ≡ r
    → flush_pages f ≡ flushed f'
    → Saved f f'
loop-Saved (flushed g) f f' e h =
    let done : flush_pages f ≡ flushed (save g) = unfold flush_pages and_then in rw e refl in
    let back : flushed (save g) ≡ flushed f' = sym done ∙ h in
    record {
      before = g;
      loop = e;
      root = flush_loop-root f.page_cache f g e;
      after = let q : f' ≡ save g = cc in q;
    }
loop-Saved (flush_error size g) f f' e h =
    absurd (unfold flush_pages and_then in ground (arith, e, h))
loop-Saved flush_panic f f' e h = absurd (unfold flush_pages and_then in ground (arith, e, h))

pub flush_pages-Saved : (f f' : FileStore) → flush_pages f ≡ flushed f' → Saved f f'
flush_pages-Saved f f' h = loop-Saved (flush_loop f.page_cache f) f f' refl h

-- `save` writes the first 16 bytes only.
save-Holds :
    (f : FileStore) (a : ℕ) (xs : List ℕ)
    → 16 ≤ a
    → Holds f.file a page_size xs
    → Holds (save f).file a page_size xs
unfolding save
save-Holds f a xs k h =
    write_at-elsewhere 0 (le 8 f.root_offset ++ le 8 f.next_free_offset) f.file a page_size xs h (
      inr (
        omega (
          arith,
          length-append (le 8 f.root_offset) (le 8 f.next_free_offset),
          length-le 8 f.root_offset,
          length-le 8 f.next_free_offset,
          k,
        )))

-- What the page is after a flush: the file holds its bytes.
flush_pages-Holds :
    (f f' : FileStore) (a : ℕ) (pg : Node)
    → Spread f.page_cache
    → 16 ≤ a
    → Maps.get a f.page_cache ≡ some pg
    → pg.is_dirty ≡ true
    → flush_pages f ≡ flushed f'
    → (bs : List ℕ) × (encode pg ≡ page bs) × Holds f'.file a page_size bs
flush_pages-Holds f f' a pg s k g d h =
    let v = flush_pages-Saved f f' h in
    let w = flush_loop-dirty f.page_cache f v.before a pg s g d v.loop in
    (
      w.0,
      w.1,
      subst (λ x. Holds x.file a page_size w.0) (sym v.after) (save-Holds v.before a w.0 k w.2),
    )

keep_page-loaded :
    (a : ℕ) (r : Read Node) (l : Node) (f : FileStore)
    → loaded r ≡ some l
    → keep_page a r f ≡ Stored.page l (record f { page_cache = Maps.put a l f.page_cache })
unfolding loaded keep_page
keep_page-loaded a (ok n rest) l f h = let q : n ≡ l = cc in rw q refl
keep_page-loaded a (fail e) l f h = absurd (ground (arith, h))

load_page-Holds :
    (f : FileStore) (a : ℕ) (bs : List ℕ) (l : Node)
    → Holds f.file a page_size bs
    → loaded (decode bs (record new_node { file_offset = a })) ≡ some l
    → load_page a f ≡ Stored.page l (record f { page_cache = Maps.put a l f.page_cache })
unfolding load_page
load_page-Holds f a bs l h e =
    rw (read_at-Holds f.file a page_size bs h, load_page) (keep_page-loaded a _ l f e)

-- After a flush that succeeds, loading from the offset of a page that was dirty, whose numbers fit
-- their words and that stands behind the first 16 bytes of the file, finds that page, with its
-- cells in the order of its offsets, and puts it into the cache; the pages of the cache must stand
-- under their offsets and not overlap.
pub flush_pages-load_page :
    (f f' : FileStore) (a : ℕ) (pg : Node)
    → Spread f.page_cache
    → 16 ≤ a
    → Maps.get a f.page_cache ≡ some pg
    → pg.is_dirty ≡ true
    → IsWritable pg
    → flush_pages f ≡ flushed f'
    → (l : Node) × (reloaded pg (record new_node { file_offset = a }) ≡ some l)
      × (load_page a f' ≡ Stored.page l (record f' { page_cache = Maps.put a l f'.page_cache }))
flush_pages-load_page f f' a pg s k g d w h =
    let (bs, e, held) = flush_pages-Holds f f' a pg s k g d h in
    let (l, r, back) = decode-encode pg (record new_node { file_offset = a }) bs w e in
    (l, r, load_page-Holds f' a bs l held back)
