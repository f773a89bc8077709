-- ===== src/PageFile.antt =====
-- storage.go: the page file and the cache over it. A file is its bytes; reads and writes that the
-- system refuses are left out. The locks and the ticker of the flushing goroutine are left out too.
pub mod Stored
pub mod Meta
pub mod Contents
pub mod Rounds
pub mod Flush
pub mod Restart
use harmony_db.Base.{
  ℕ, ◌+◌, ◌-◌, true, false, Option, none, some, List, [], ◌∷◌, ◌++◌, length, take, drop, leb,
  if◌then◌else◌,
}
use harmony_db.Base.Maps
use harmony_db.Base.Maps.{Map}
use harmony_db.Bytes.{le, from_le}
use harmony_db.Tree.Page.{Node}
use harmony_db.Tree.Codec.{Encoded, page, too_large, panic, zeros, encode}

-- `WriteAt`: a gap behind the end of the file is filled with zeros.
unfoldable pub write_at : ℕ → List ℕ → List ℕ → List ℕ
write_at at bs file =
    take at (file ++ zeros (at - length file)) ++ (bs ++ drop (at + length bs) file)

-- `ReadAt` with a buffer of `n` bytes; `none` is `io.EOF`.
unfoldable pub read_at : ℕ → ℕ → List ℕ → Option (List ℕ)
read_at at n file = if leb (at + n) (length file) then some (take n (drop at file)) else none

pub record FileStore : Type 0 where
  pub file : List ℕ
  pub page_cache : Map Node
  pub next_free_offset : ℕ
  pub root_offset : ℕ

-- The methods of `cache`.
unfoldable pub cache_add : Node → Map Node → Map Node
cache_add pg c = Maps.put pg.file_offset pg c

unfoldable pub cache_fetch : ℕ → Map Node → Option Node
cache_fetch fo c = Maps.get fo c

unfoldable pub cache_remove : ℕ → Map Node → Map Node
cache_remove fo c = Maps.remove fo c

unfoldable pub cache_len : Map Node → ℕ
cache_len c = length c

unfoldable pub new_file_store : List ℕ → FileStore
unfolding read_at
new_file_store file = elim (read_at 0 16 file) [
  | none ↦ record { file = file; page_cache = []; next_free_offset = 0; root_offset = 0 }
  | some buf ↦ record {
    file = file;
    page_cache = [];
    next_free_offset = from_le (drop 8 buf);
    root_offset = from_le (take 8 buf);
  }
]

-- `setRoot`, and `getRoot`, which does the same.
unfoldable pub set_root : Node → FileStore → FileStore
set_root node f = record f { root_offset = node.file_offset }

pub data Flushed : Type 0 where
  flushed : FileStore → Flushed
  -- The error of a page that is too large, with the size that it reports.
  flush_error : ℕ → FileStore → Flushed
  flush_panic : Flushed

unfoldable pub and_then : Flushed → (FileStore → Flushed) → Flushed
and_then (flushed f) more = more f
and_then (flush_error size f) more = flush_error size f
and_then flush_panic more = flush_panic

-- What `update` does with the outcome of `encode`.
unfoldable pub write_encoded : Node → FileStore → Encoded → Flushed
unfolding write_at
write_encoded node f (page buf) = flushed (record f {
  file = write_at node.file_offset buf f.file;
  page_cache = Maps.put node.file_offset node f.page_cache;
})
write_encoded node f (too_large size) = flush_error size f
write_encoded node f panic = flush_panic

unfoldable pub update : Node → FileStore → Flushed
unfolding write_encoded
update node f = write_encoded node f (encode node)

unfoldable pub mark_clean : Node → Node
mark_clean n = record n { is_dirty = false }

-- `page.markClean()`: the page is a pointer, which `update` has put under its offset too.
unfoldable pub clean_in : ℕ → Node → FileStore → FileStore
unfolding mark_clean
clean_in at pg f = record f {
  page_cache = Maps.put pg.file_offset (mark_clean pg) (Maps.put at (mark_clean pg) f.page_cache);
}

-- The loop of `flushPages` over the pairs of the cache.
unfoldable pub flush_loop : Map Node → FileStore → Flushed
unfolding and_then update clean_in
flush_loop [] f = flushed f
flush_loop ((at, pg) ∷ pages) f = elim pg.is_dirty [
  | false ↦ flush_loop pages f
  | true ↦ and_then (update pg f) (λ f1. flush_loop pages (clean_in at pg f1))
]

unfoldable pub save : FileStore → FileStore
unfolding write_at
save f = record f { file = write_at 0 (le 8 f.root_offset ++ le 8 f.next_free_offset) f.file }

unfoldable pub flush_pages : FileStore → Flushed
unfolding flush_loop and_then save
flush_pages f = and_then (flush_loop f.page_cache f) (λ f1. flushed (save f1))
