-- ===== src/Wal.antt =====
-- wal/wal.go: the write-ahead log. `file` is what was written to the file, and `synced` how many of
-- its bytes a `Sync` has covered. The locks are left out: every method holds one for its whole run.
pub mod Codec
pub mod RoundTrip
pub mod Recovery
pub mod Indexing
use harmony_db.Base.{
  ℕ, zero, suc, ◌+◌, ◌-◌, Option, none, some, List, [], ◌∷◌, ◌++◌, length, get_elem?, get_last?,
  take, drop, ltb, leb, ◌==◌, if◌then◌else◌,
}
use harmony_db.Proto.{Log}
use harmony_db.Wal.Codec.{encode_log, Decoded, logs, error, stuck, decode_logs}

pub record LogManager : Type 0 where
  pub logs : List Log
  pub sync_threshold : ℕ
  pub file : List ℕ
  pub synced : ℕ

abbrev pub empty_manager : List ℕ → LogManager
empty_manager file = record { logs = []; sync_threshold = 10; file = file; synced = 0 }

-- `readWAL`; `none` is the panic on a file that cannot be decoded.
unfoldable pub recovered : Decoded → LogManager → Option LogManager
recovered (logs ls) lm = some (record lm { logs = ls })
recovered (error e) lm = none
recovered stuck lm = none

-- `NewLM` on a file with the given content.
unfoldable pub new_lm : List ℕ → Option LogManager
unfolding recovered
new_lm file =
    if length file == 0
    then some (empty_manager file)
    else recovered (decode_logs file) (empty_manager file)

unfoldable pub write_to_file : List Log → LogManager → LogManager
write_to_file ls lm =
    let file : List ℕ = lm.file ++ encode_log ls in
    record lm {
      file = file;
      synced = if leb lm.sync_threshold (length lm.logs) then length file else lm.synced;
    }

unfoldable pub append : Log → LogManager → LogManager
unfolding write_to_file
append l lm = record (write_to_file (l ∷ []) lm) { logs = lm.logs ++ (l ∷ []) }

last_id : Option Log → ℕ
last_id none = 1
last_id (some l) = l.id

unfoldable pub get_last_log_id : LogManager → ℕ
unfolding last_id
get_last_log_id lm = last_id (get_last? lm.logs)

next_id : Option Log → ℕ
next_id none = 1
next_id (some l) = l.id + 1

unfoldable pub next_log_id : LogManager → ℕ
unfolding next_id
next_log_id lm = next_id (get_last? lm.logs)

last_term : Option Log → ℕ
last_term none = 0
last_term (some l) = l.term

unfoldable pub get_last_log_term : LogManager → ℕ
unfolding last_term
get_last_log_term lm = last_term (get_last? lm.logs)

-- The slice index is `index - 1`; for index 0 it is negative, and there is no such log.
unfoldable pub get_log : ℕ → LogManager → Option Log
get_log index lm = if index == 0 then none else get_elem? lm.logs (index - 1)

unfoldable pub get_length : LogManager → ℕ
get_length lm = length lm.logs

unfoldable pub get_logs : LogManager → List Log
get_logs lm = lm.logs

-- `max(index-1, 0)` is the truncated subtraction.
unfoldable pub get_logs_after : ℕ → LogManager → List Log
get_logs_after index lm = if leb (length lm.logs) (index - 1) then [] else drop (index - 1) lm.logs

-- The file is left as it is.
unfoldable pub truncate_after : ℕ → LogManager → LogManager
truncate_after index lm =
    if ltb index (length lm.logs) then record lm { logs = take (index + 1) lm.logs } else lm
