-- ===== src/Database/Apply.antt =====
-- What the job "applier" of db.go does with the entries.
use harmony_db.Base.{
  ℕ, ◌≡◌, refl, sym, ◌∙◌, ap, subst, Option, some, some-injective, List, [], ◌∷◌, All, bind_some,
  ◌>>=◌,
}
use harmony_db.Proto.{Log, Cmd, get_key, get_value, get_request_id}
use harmony_db.Tree.Store
use harmony_db.Tree.Store.{BTree}
use harmony_db.Wait
use harmony_db.Wait.{Waiter}
use harmony_db.Wait.Wakes.{IsSound}
use harmony_db.WaitTime
use harmony_db.WaitTime.Wakes
use harmony_db.WaitTime.Wakes.{triggered, trigger-triggered}
use harmony_db.Wait.Several.{trigger_all, trigger_all-Triggered}
use harmony_db.Node.{ToApply}
use harmony_db.Database.{
  Db, apply_entry, apply_entries, publish, wake_readers, apply_job, applied_meta,
}

-- The puts of the entries, one after the other.
unfoldable pub put_all : ℕ → List Log → BTree → Option BTree
put_all depth [] b = some b
put_all depth (e ∷ es) b =
    Store.put depth (get_key e.cmd) (get_value e.cmd) b >>= λ b1. put_all depth es b1

unfoldable pub ids_of : List Log → List ℕ
ids_of [] = []
ids_of (e ∷ es) = get_request_id e.cmd ∷ ids_of es

unfoldable pub last_id : ℕ → List Log → ℕ
last_id last [] = last
last_id last (e ∷ es) = last_id e.id es

-- The loop over the entries changes the tree and the write waiters only.
pub record Applied (depth : ℕ) (es : List Log) (now after : Db × ℕ) : Type 0 where
  pub kv : put_all depth es now.0.kv ≡ some after.0.kv
  pub waiter : trigger_all (ids_of es) now.0.waiter ≡ some after.0.waiter
  pub last : after.1 ≡ last_id now.1 es
  pub rest : after.0 ≡ record now.0 { kv = after.0.kv; waiter = after.0.waiter }

-- One round of the loop.
record Entry (depth : ℕ) (e : Log) (now after : Db × ℕ) : Type 0 where
  tree : BTree
  woken : Waiter
  kv : Store.put depth (get_key e.cmd) (get_value e.cmd) now.0.kv ≡ some tree
  waiter : Wait.trigger (get_request_id e.cmd) now.0.waiter ≡ some woken
  whole : after ≡ (record now.0 { kv = tree; waiter = woken }, e.id)

apply_entry-Entry :
    (depth : ℕ) (e : Log) (now after : Db × ℕ)
    → apply_entry depth e now ≡ some after
    → Entry depth e now after
unfolding apply_entry get_request_id
apply_entry-Entry depth e now after h =
    let (tree, p, h1) =
      bind_some (Store.put depth (get_key e.cmd) (get_value e.cmd) now.0.kv) _ after h in
    let (c, q, h2) = bind_some e.cmd _ after h1 in
    let (woken, r, h3) = bind_some (Wait.trigger c.request_id now.0.waiter) _ after h2 in
    record {
      tree = tree;
      woken = woken;
      kv = p;
      waiter = subst (λ d. Wait.trigger (get_request_id d) now.0.waiter ≡ some woken) (sym q) r;
      whole = sym (some-injective _ _ h3);
    }

more-Applied :
    (depth : ℕ) (e : Log) (es : List Log) (now mid after : Db × ℕ)
    → Entry depth e now mid
    → Applied depth es mid after
    → Applied depth (e ∷ es) now after
unfolding put_all ids_of last_id trigger_all
more-Applied depth e es now mid after r t =
    let kv1 : mid.0.kv ≡ r.tree = ap (λ m. m.0.kv) r.whole in
    let w1 : mid.0.waiter ≡ r.woken = ap (λ m. m.0.waiter) r.whole in
    record {
      kv = rw r.kv (subst (λ b. put_all depth es b ≡ some after.0.kv) kv1 t.kv);
      waiter =
          rw r.waiter (subst (λ w. trigger_all (ids_of es) w ≡ some after.0.waiter) w1 t.waiter);
      last = t.last ∙ ap (λ m. last_id m.1 es) r.whole;
      rest = t.rest ∙ ap (λ m. record m.0 { kv = after.0.kv; waiter = after.0.waiter }) r.whole;
    }

pub apply_entries-Applied :
    (depth : ℕ) (es : List Log) (now after : Db × ℕ)
    → apply_entries depth es now ≡ some after
    → Applied depth es now after
unfolding apply_entries last_id
apply_entries-Applied depth [] now after h =
    let q : now ≡ after = some-injective _ _ h in
    subst (Applied depth [] now) q (record {
      kv = unfold put_all in refl;
      waiter = unfold trigger_all ids_of in refl;
      last = refl;
      rest = refl;
    })
apply_entries-Applied depth (e ∷ es) now after h =
    let (mid, p, h1) = bind_some (apply_entry depth e now) _ after h in
    let r = apply_entry-Entry depth e now mid p in
    let ih = apply_entries-Applied depth es mid after h1 in
    more-Applied depth e es now mid after r ih

-- Every entry carries data.
abbrev pub HasData : Log → Type 0
HasData e = (c : Cmd) × (e.cmd ≡ some c)

-- The loop does not panic if the puts do not, every entry has data, and the waiters are sound.
apply_entries-total :
    (depth : ℕ) (es : List Log) (now : Db × ℕ) (b : BTree)
    → put_all depth es now.0.kv ≡ some b
    → All HasData es
    → IsSound now.0.waiter
    → (after : Db × ℕ) × (apply_entries depth es now ≡ some after)
unfolding apply_entries put_all HasData
apply_entries-total depth [] now b h d s = (now, refl)
apply_entries-total depth (e ∷ es) now b h d s =
    let (tree, p, h1) =
      bind_some (Store.put depth (get_key e.cmd) (get_value e.cmd) now.0.kv) _ b h in
    let (c, q) = d.0 in
    let t = trigger_all-Triggered (c.request_id ∷ []) now.0.waiter s in
    let once : (Wait.trigger c.request_id now.0.waiter >>= λ w. some w) ≡ some t.after =
      unfold trigger_all in t.done in
    let (w, r, h2) = bind_some (Wait.trigger c.request_id now.0.waiter) _ t.after once in
    let sound : IsSound w = subst IsSound (sym (some-injective _ _ h2)) t.sound in
    let one : apply_entry depth e now ≡ some (record now.0 { kv = tree; waiter = w }, e.id) =
      unfold apply_entry in rw (p, q, r) refl in
    let rest =
      apply_entries-total depth es (record now.0 { kv = tree; waiter = w }, e.id) b h1 d.1 sound in
    (rest.0, rw one rest.1)

-- The readers' waiters stay until the job's last statement.
pub publish-keeps :
    (depth : ℕ) (ta : ToApply) (db now : Db)
    → publish depth ta db ≡ some now
    → (now.apply_wait ≡ db.apply_wait) × (now.last_commit_index ≡ ta.commit_index)
unfolding publish
publish-keeps depth ta db now h =
    let (mid, p, h1) = bind_some (apply_entries depth ta.entries (db, 0)) _ now h in
    let a = apply_entries-Applied depth ta.entries (db, 0) mid p in
    let e = sym (some-injective _ _ h1) in
    (ap (λ d. d.apply_wait) e ∙ ap (λ d. d.apply_wait) a.rest, ap (λ d. d.last_commit_index) e)

-- What the whole job does: the puts in the order of the entries, the triggers of their ids, and the
-- indices. Everything else stays.
pub record JobDone (depth : ℕ) (ta : ToApply) (db after : Db) : Type 0 where
  pub kv : put_all depth ta.entries db.kv ≡ some after.kv
  pub waiter : trigger_all (ids_of ta.entries) db.waiter ≡ some after.waiter
  pub apply_wait : WaitTime.trigger ta.commit_index db.apply_wait ≡ some after.apply_wait
  pub meta : after.meta ≡ applied_meta ta.entries (last_id 0 ta.entries) ta.commit_index db.meta
  pub generator : after.generator ≡ db.generator
  pub last_commit_index : after.last_commit_index ≡ ta.commit_index

pub apply_job-JobDone :
    (depth : ℕ) (ta : ToApply) (db after : Db)
    → apply_job depth ta db ≡ some after
    → JobDone depth ta db after
unfolding apply_job
apply_job-JobDone depth ta db after h =
    let (now, r, h0) = bind_some (publish depth ta db) (wake_readers ta.commit_index) after h in
    let (mid, p, h1) = bind_some (apply_entries depth ta.entries (db, 0)) _ now r in
    let published = some-injective _ _ h1 in
    let (w, q, h2) = bind_some (WaitTime.trigger ta.commit_index now.apply_wait) _ after h0 in
    let a = apply_entries-Applied depth ta.entries (db, 0) mid p in
    let e =
      sym (some-injective _ _ h2) ∙ ap (λ (d : Db). record d { apply_wait = w }) (sym published) in
    record {
      kv = a.kv ∙ ap (λ d. some d.kv) (sym e);
      waiter = a.waiter ∙ ap (λ d. some d.waiter) (sym e);
      apply_wait =
          sym (ap (λ d. WaitTime.trigger ta.commit_index d.apply_wait) a.rest)
          ∙ ap (λ d. WaitTime.trigger ta.commit_index d.apply_wait) published
          ∙ q
          ∙ ap (λ d. some d.apply_wait) (sym e);
      meta =
          ap (λ d. d.meta) e
          ∙ ap (λ i. applied_meta ta.entries i ta.commit_index mid.0.meta) a.last
          ∙ ap (λ d. applied_meta ta.entries (last_id 0 ta.entries) ta.commit_index d.meta) a.rest;
      generator = ap (λ d. d.generator) e ∙ ap (λ d. d.generator) a.rest;
      last_commit_index = ap (λ d. d.last_commit_index) e;
    }

-- The job does not panic if the puts do not, every entry has data, and the waiters are sound.
pub apply_job-total :
    (depth : ℕ) (ta : ToApply) (db : Db) (b : BTree)
    → put_all depth ta.entries db.kv ≡ some b
    → All HasData ta.entries
    → IsSound db.waiter
    → Wakes.IsSound db.apply_wait
    → (after : Db) × (apply_job depth ta db ≡ some after)
unfolding apply_job
apply_job-total depth ta db b h d s t =
    let (mid, p) = apply_entries-total depth ta.entries (db, 0) b h d s in
    let a = apply_entries-Applied depth ta.entries (db, 0) mid p in
    let wait_same : db.apply_wait ≡ mid.0.apply_wait = sym (ap (λ d. d.apply_wait) a.rest) in
    let w = trigger-triggered ta.commit_index mid.0.apply_wait (subst Wakes.IsSound wait_same t) in
    (
      record mid.0 {
        meta = applied_meta ta.entries mid.1 ta.commit_index mid.0.meta;
        last_commit_index = ta.commit_index;
        apply_wait = triggered ta.commit_index mid.0.apply_wait;
      },
      rw (p, w) refl,
    )
