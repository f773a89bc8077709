-- ===== src/Database/Replayed.antt =====
-- The replay of replay.go against the job of db.go.
use harmony_db.Base.{
  ℕ, suc, ◌+◌, ◌<◌, ◌≡◌, refl, sym, ◌∙◌, ap, true, none, some, some-injective, List, [], ◌∷◌, arith,
  length, All, Option-cases, inl, inr, ◌>>=◌,
}
use harmony_db.Proto.{Log, Cmd, get_key, get_value}
use harmony_db.RaftLog.Sequential.{CountsFrom}
use harmony_db.Tree.Page.{bytes_equal}
use harmony_db.Tree.Store
use harmony_db.Tree.Store.{BTree}
use harmony_db.Wal.{LogManager}
use harmony_db.Replay.{Meta, replay_wal}
use harmony_db.Replay.Range.{
  put_text, client_puts, put_each, unapplied, unapplied_counts, replay_wal-range,
}
use harmony_db.Wait.Wakes.{IsSound}
use harmony_db.WaitTime.Wakes
use harmony_db.Node.{ToApply}
use harmony_db.Database.{Db, apply_job, applied_meta}
use harmony_db.Database.Apply.{put_all, last_id, HasData, apply_job-JobDone, apply_job-total}

-- An entry of a client: its command is a put.
pub record IsClientPut (e : Log) : Type 0 where
  pub cmd : Cmd
  pub present : e.cmd ≡ some cmd
  pub put : bytes_equal cmd.op put_text ≡ true

puts_only :
    (depth : ℕ) (es : List Log) (b : BTree)
    → All IsClientPut es
    → (put_each depth (client_puts es) b ≡ put_all depth es b)
      × (length (client_puts es) ≡ length es)
unfolding put_all get_key get_value
puts_only depth [] b h = (refl, refl)
puts_only depth (e ∷ es) b h =
    let c = h.0.cmd in
    let count : suc (length (client_puts es)) ≡ suc (length es) =
      ap suc (puts_only depth es b h.1).1 in
    rw (h.0.present, h.0.put)
      (elim (Option-cases (Store.put depth c.key c.value b)) [
        | inl p ↦ (rw p refl, count)
        | inr (b1, p) ↦ (rw p (puts_only depth es b1 h.1).0, count)
      ])

with_data : (es : List Log) → All IsClientPut es → All HasData es
with_data [] h = tt
with_data (e ∷ es) h = ((h.0.cmd, h.0.present), with_data es h.1)

counted_id :
    (j last : ℕ) (es : List Log)
    → CountsFrom j es
    → j ≡ suc last
    → last_id last es ≡ last + length es
unfolding last_id
counted_id j last [] h e = omega arith
counted_id j last (x ∷ es) h e =
    let own = h.0 in counted_id (suc j) x.id es h.1 (ap suc (sym own)) ∙ omega (arith, own, e)

job_last :
    (es : List Log) (commit : ℕ) (meta : Meta)
    → CountsFrom (1 + meta.last_applied) es
    → (applied_meta es (last_id 0 es) commit meta).last_applied ≡ meta.last_applied + length es
unfolding applied_meta last_id
job_last [] commit meta h = omega arith
job_last (e ∷ es) commit meta h =
    let own = h.0 in
    counted_id (suc (1 + meta.last_applied)) e.id es h.1 (ap suc (sym own)) ∙ omega (arith, own)

-- The job that applies what the metadata says is committed and not applied.
abbrev pub job_of : Db → LogManager → ToApply
job_of db lm = record { entries = unapplied db.meta lm; commit_index = db.meta.last_commit }

-- The tree and the last applied index after a replay, and after a job.
abbrev pub restored : BTree × Meta → BTree × ℕ
restored r = (r.0, r.1.last_applied)

abbrev pub kept : Db → BTree × ℕ
kept d = (d.kv, d.meta.last_applied)

job_panics :
    (depth : ℕ) (ta : ToApply) (db : Db)
    → put_all depth ta.entries db.kv ≡ none
    → apply_job depth ta db ≡ none
job_panics depth ta db h = elim (Option-cases (apply_job depth ta db)) [
  | inl e ↦ e
  | inr (after, e) ↦
      let both = sym h ∙ (apply_job-JobDone depth ta db after e).kv in absurd (ground (arith, both))
]

-- Suppose the write-ahead log has ids from 1, the metadata is behind its commit index, the entries in
-- between are all puts of clients, and the waiters are sound. Then the replay at a start makes the
-- same tree and the same last applied index as the job of the apply loop that has these entries, or
-- panics where the job does.
pub replay_wal-apply_job :
    (depth : ℕ) (db : Db) (lm : LogManager)
    → CountsFrom 1 lm.logs
    → db.meta.last_applied < db.meta.last_commit
    → All IsClientPut (unapplied db.meta lm)
    → IsSound db.waiter
    → Wakes.IsSound db.apply_wait
    → (replay_wal depth db.kv db.meta lm >>= λ r. some (restored r))
      ≡ (apply_job depth (job_of db lm) db >>= λ d. some (kept d))
replay_wal-apply_job depth db lm counts behind puts waiter apply_wait =
    let es = unapplied db.meta lm in
    let (same, count) = puts_only depth es db.kv puts in
    let replayed = replay_wal-range depth db.kv db.meta lm counts behind in
    elim (Option-cases (put_all depth es db.kv)) [
      | inl panics ↦ rw (replayed, same, panics, job_panics depth (job_of db lm) db panics) refl
      | inr (b1, done) ↦
          let (after, ran) =
            apply_job-total depth (job_of db lm) db b1 done (with_data es puts) waiter apply_wait in
          let j = apply_job-JobDone depth (job_of db lm) db after ran in
          let tree : b1 ≡ after.kv = some-injective _ _ (sym done ∙ j.kv) in
          let last : after.meta.last_applied ≡ db.meta.last_applied + length es =
            ap (λ m. m.last_applied) j.meta
            ∙ job_last es db.meta.last_commit db.meta (unapplied_counts db.meta lm counts) in
          rw (replayed, same, done, ran, count, tree, last) refl
    ]
