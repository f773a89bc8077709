-- ===== src/Wal/Indexing.antt =====
-- Reading and truncating by log id (wal/wal.go), on logs whose ids count from 1.
use harmony_db.Base.{
  ℕ, zero, suc, ◌+◌, ◌-◌, ◌≤◌, ◌<◌, ◌≡◌, refl, sym, ◌∙◌, Option, none, some, List, [], ◌∷◌, arith,
  length, get_elem?, take, drop, leb, ltb, ◌==◌, if◌then◌else◌, drop_of_length-le,
  take_of_length-le, Bool-cases, inl, inr, leb→le, ==_iff,
}
use harmony_db.Proto.{Log}
use harmony_db.RaftLog.Sequential.{CountsFrom}
use harmony_db.Wal.{LogManager, get_log, get_logs_after, truncate_after}

-- The logs with an id of at least, and of at most, `id`.
unfoldable pub with_ids_from : ℕ → List Log → List Log
with_ids_from id [] = []
with_ids_from id (l ∷ ls) = let rest = with_ids_from id ls in if leb id l.id then l ∷ rest else rest

unfoldable pub with_ids_to : ℕ → List Log → List Log
with_ids_to id [] = []
with_ids_to id (l ∷ ls) = let rest = with_ids_to id ls in if leb l.id id then l ∷ rest else rest

-- The first log with the id.
unfoldable pub find_id : ℕ → List Log → Option Log
find_id id [] = none
find_id id (l ∷ ls) = if l.id == id then some l else find_id id ls

find_id-below : (i id : ℕ) (ls : List Log) → CountsFrom i ls → id < i → find_id id ls ≡ none
unfolding find_id
find_id-below i id [] h lt = refl
find_id-below i id (l ∷ ls) h lt = ground (arith, find_id-below (suc i) id ls h.1 (omega arith))

get_elem?-CountsFrom :
    (i k : ℕ) (ls : List Log) → CountsFrom i ls → get_elem? ls k ≡ find_id (i + k) ls
unfolding find_id
get_elem?-CountsFrom i k [] h = refl
get_elem?-CountsFrom i zero (l ∷ ls) h = ground (arith, h.0)
get_elem?-CountsFrom i (suc k) (l ∷ ls) h =
    let e : suc i + k ≡ i + suc k = omega arith in
    let ih : get_elem? ls k ≡ find_id (i + suc k) ls =
      get_elem?-CountsFrom (suc i) k ls h.1 ∙ rw e in
    ground (arith, ih, h.0)

from_all : (i id : ℕ) (ls : List Log) → CountsFrom i ls → id ≤ i → with_ids_from id ls ≡ ls
unfolding with_ids_from
from_all i id [] h le = refl
from_all i id (l ∷ ls) h le = ground (arith, from_all (suc i) id ls h.1 (omega arith))

drop-CountsFrom : (i k : ℕ) (ls : List Log) → CountsFrom i ls → drop k ls ≡ with_ids_from (i + k) ls
unfolding with_ids_from
drop-CountsFrom i zero ls h = sym (from_all i (i + 0) ls h (omega arith))
drop-CountsFrom i (suc k) [] h = refl
drop-CountsFrom i (suc k) (l ∷ ls) h =
    let e : suc i + k ≡ i + suc k = omega arith in
    let ih : drop k ls ≡ with_ids_from (i + suc k) ls = drop-CountsFrom (suc i) k ls h.1 ∙ rw e in
    ground (arith, ih, h.0)

pub to_none : (i id : ℕ) (ls : List Log) → CountsFrom i ls → id < i → with_ids_to id ls ≡ []
unfolding with_ids_to
to_none i id [] h le = refl
to_none i id (l ∷ ls) h le = ground (arith, to_none (suc i) id ls h.1 (omega arith))

take-CountsFrom :
    (i k : ℕ) (ls : List Log) → CountsFrom (suc i) ls → take k ls ≡ with_ids_to (i + k) ls
unfolding with_ids_to
take-CountsFrom i zero ls h = sym (to_none (suc i) (i + 0) ls h (omega arith))
take-CountsFrom i (suc k) [] h = refl
take-CountsFrom i (suc k) (l ∷ ls) h =
    let e : suc i + k ≡ i + suc k = omega arith in
    let ih : take k ls ≡ with_ids_to (i + suc k) ls = take-CountsFrom (suc i) k ls h.1 ∙ rw e in
    ground (arith, ih, h.0)

module _ (lm : LogManager) (h : CountsFrom 1 lm.logs) (index : ℕ) where
  -- On logs with ids from 1, `GetLog` returns the log with the id, and nothing where there is none.
  pub get_log_by_id : get_log index lm ≡ find_id index lm.logs
  unfolding get_log
  get_log_by_id = elim (Bool-cases (index == 0)) [
    | inl e ↦ rw e (sym (find_id-below 1 index lm.logs h (ground arith)))
    | inr e ↦
        let p : 1 + (index - 1) ≡ index = ground arith in
        rw e (get_elem?-CountsFrom 1 (index - 1) lm.logs h ∙ rw p)
  ]

  -- On logs with ids from 1, `GetLogsAfter` returns the logs with an id of at least `index`.
  pub get_logs_after_by_id : get_logs_after index lm ≡ with_ids_from index lm.logs
  unfolding get_logs_after
  get_logs_after_by_id = elim (Bool-cases (leb (length lm.logs) (index - 1))) [
    | inl e ↦ rw e (sym (drop_of_length-le (index - 1) lm.logs (leb→le _ _ e)) ∙ dropped)
    | inr e ↦ rw e dropped
  ]
    where
      dropped : drop (index - 1) lm.logs ≡ with_ids_from index lm.logs
      dropped = elim (Bool-cases (index == 0)) [
        | inl z ↦
            let p : index ≡ 0 = (==_iff index 0).0 z in
            rw p (sym (from_all 1 0 lm.logs h (omega arith)))
        | inr z ↦
            let p : 1 + (index - 1) ≡ index = ground arith in
            drop-CountsFrom 1 (index - 1) lm.logs h ∙ rw p
      ]

  -- On logs with ids from 1, `TruncateAfter` keeps the logs with ids up to `index + 1`, one more
  -- than its comment says.
  pub truncate_after_by_id : (truncate_after index lm).logs ≡ with_ids_to (index + 1) lm.logs
  unfolding truncate_after
  truncate_after_by_id = elim (Bool-cases (ltb index (length lm.logs))) [
    | inl e ↦ rw e kept
    | inr e ↦ rw e (sym (take_of_length-le (index + 1) lm.logs (ground arith)) ∙ kept)
  ]
    where
      kept : take (index + 1) lm.logs ≡ with_ids_to (index + 1) lm.logs
      kept =
          let p : 0 + (index + 1) ≡ index + 1 = omega arith in
          take-CountsFrom 0 (index + 1) lm.logs h ∙ rw p
