-- ===== src/PageFile/Meta.antt =====
-- The metadata file (btree.go): `readMeta` after `updateMeta`.
use harmony_db.Base.{ℕ, ◌+◌, ◌^◌, ◌<◌, ◌≡◌, refl, List, ◌++◌, arith, length, drop}
use harmony_db.Bytes.{le}
use harmony_db.Bytes.Laws.{read_word-le}
use harmony_db.PageFile.{write_at}
use harmony_db.PageFile.Stored.{indices, read_applied, read_commit, read_meta, update_meta}

updated :
    (last_applied last_commit_index : ℕ) (meta : List ℕ)
    → (behind : List ℕ) × (update_meta last_applied last_commit_index meta
        ≡ le 8 last_commit_index ++ (le 8 last_applied ++ behind))
unfolding update_meta write_at le
updated last_applied last_commit_index meta =
    (drop (8 + length (le 8 last_applied)) (write_at 0 (le 8 last_commit_index) meta), refl)

-- Whatever the metadata file held, `readMeta` returns the indices that `updateMeta` wrote last, if
-- they fit their words.
pub read_meta-update_meta :
    (last_applied last_commit_index : ℕ) (meta : List ℕ)
    → last_applied < 2 ^ 64
    → last_commit_index < 2 ^ 64
    → read_meta (update_meta last_applied last_commit_index meta)
      ≡ indices last_commit_index last_applied
unfolding read_meta
read_meta-update_meta last_applied last_commit_index meta h k =
    let (behind, e) = updated last_applied last_commit_index meta in
    rw
      (
        e,
        read_word-le 8 last_commit_index _ (omega (arith, k)),
        read_commit,
        read_word-le 8 last_applied behind (omega (arith, h)),
        read_applied,
      )
      refl
