-- ===== src/Wal/Recovery.antt =====
-- What a restart finds (wal/wal.go).
use mathlib.Core.List.{append-nil, append_assoc}
use harmony_db.Base.{
  ℕ, ◌≡◌, refl, sym, ◌∙◌, some, List, [], ◌∷◌, ◌++◌, arith, map, length, All, ◌==◌, false,
}
use harmony_db.Proto.{Log}
use harmony_db.Wal.Codec.{encode_log}
use harmony_db.Wal.RoundTrip.{Fits, stored, decode_logs-encode_log, length-encode_log}
use harmony_db.Wal.{LogManager, empty_manager, recovered, new_lm, append, truncate_after}

-- The log manager after a sequence of appends to an empty file.
unfoldable pub append_all : List Log → LogManager → LogManager
append_all [] lm = lm
append_all (l ∷ ls) lm = append_all ls (append l lm)

encode_log-append : (ls ms : List Log) → encode_log (ls ++ ms) ≡ encode_log ls ++ encode_log ms
unfolding encode_log
encode_log-append [] ms = refl
encode_log-append (l ∷ ls) ms = rw (encode_log-append ls ms, append_assoc)

file-append_all :
    (ls : List Log) (lm : LogManager) → (append_all ls lm).file ≡ lm.file ++ encode_log ls
unfolding append_all append
file-append_all [] lm = unfold encode_log in sym (append-nil lm.file)
file-append_all (l ∷ ls) lm =
    file-append_all ls (append l lm) ∙ rw (append_assoc, ← encode_log-append (l ∷ []) ls)

logs-append_all : (ls : List Log) (lm : LogManager) → (append_all ls lm).logs ≡ lm.logs ++ ls
unfolding append_all append
logs-append_all [] lm = sym (append-nil lm.logs)
logs-append_all (l ∷ ls) lm = logs-append_all ls (append l lm) ∙ append_assoc lm.logs (l ∷ []) ls

new_lm-encode_log :
    (ls : List Log)
    → All Fits ls
    → new_lm (encode_log ls)
      ≡ some (record (empty_manager (encode_log ls)) { logs = map stored ls })
unfolding new_lm recovered
new_lm-encode_log [] h = unfold encode_log in refl
new_lm-encode_log (l ∷ ls) h =
    let long = length-encode_log (l ∷ ls) in
    let e : (length (encode_log (l ∷ ls)) == 0) ≡ false = ground arith in
    rw (e, decode_logs-encode_log (l ∷ ls) h) refl

-- A restart after any appends to a fresh file, of logs that fit their words, finds exactly the
-- appended logs, in order, without their request ids; and until then memory holds them all.
pub restart-append_all :
    (ls : List Log)
    → All Fits ls
    → ((append_all ls (empty_manager [])).logs ≡ ls)
      × (new_lm (append_all ls (empty_manager [])).file
          ≡ some (record (empty_manager (encode_log ls)) { logs = map stored ls }))
restart-append_all ls h = (
  logs-append_all ls (empty_manager []),
  rw (file-append_all ls (empty_manager [])) (new_lm-encode_log ls h),
)

-- Truncation is forgotten by a restart: after appends to a fresh file of logs that fit their words,
-- the logs that it removed are read back.
pub restart-truncate_after :
    (ls : List Log) (index : ℕ)
    → All Fits ls
    → new_lm (truncate_after index (append_all ls (empty_manager []))).file
      ≡ some (record (empty_manager (encode_log ls)) { logs = map stored ls })
unfolding truncate_after
restart-truncate_after ls index h =
    let e : (truncate_after index (append_all ls (empty_manager []))).file
        ≡ (append_all ls (empty_manager [])).file =
      ground arith in
    rw e (restart-append_all ls h).1
