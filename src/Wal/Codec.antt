-- ===== src/Wal/Codec.antt =====
-- `encodeLog` and `decodeLogs` of wal/wal.go.
use harmony_db.Base.{ℕ, zero, suc, ◌%◌, ◌^◌, some, List, [], ◌∷◌, ◌++◌, length}
use harmony_db.Proto.{Log, get_op, get_key, get_value}
use harmony_db.Bytes.{ReadError, eof, Read, ok, fail, ◌>>=◌, le, read_full, read_word}

-- One record of `encodeLog`'s loop; the request id is not written.
unfoldable pub encode_record : Log → List ℕ
unfolding get_op get_key get_value
encode_record l =
    le 8 l.term
    ++ (le 8 l.id
        ++ (le 4 (length (get_key l.cmd) % 2 ^ 32)
            ++ (le 4 (length (get_value l.cmd) % 2 ^ 32)
                ++ (le 4 (length (get_op l.cmd) % 2 ^ 32)
                    ++ (get_key l.cmd ++ (get_value l.cmd ++ get_op l.cmd))))))

unfoldable pub encode_log : List Log → List ℕ
encode_log [] = []
encode_log (l ∷ ls) = encode_record l ++ encode_log ls

-- The part of a record behind the term.
unfoldable pub decode_body : ℕ → List ℕ → Read Log
decode_body term bs = read_word 8 bs >>= λ id bs1. read_word 4 bs1 >>= λ key_len bs2.
    read_word 4 bs2 >>= λ value_len bs3. read_word 4 bs3 >>= λ op_len bs4.
    read_full key_len bs4 >>= λ key bs5. read_full value_len bs5 >>= λ value bs6.
    read_full op_len bs6 >>= λ op bs7.
    ok
      (record {
        term = term;
        id = id;
        cmd = some (record { op = op; key = key; value = value; request_id = 0 });
      })
      bs7

pub data Decoded : Type 0 where
  logs : List Log → Decoded
  error : ReadError → Decoded
  -- The model's own: the loop's fuel ran out.
  stuck : Decoded

-- `logs = append(logs, ...)` and the next round, unless the rest of the record cannot be read.
unfoldable pub keep_record : Read Log → List Log → (List ℕ → List Log → Decoded) → Decoded
keep_record (fail e) acc more = error e
keep_record (ok l rest) acc more = more rest (acc ++ (l ∷ []))

-- The loop, once the term is read: the end of the file ends it only there.
unfoldable pub decode_next : Read ℕ → List Log → (List ℕ → List Log → Decoded) → Decoded
unfolding keep_record
decode_next (fail eof) acc more = logs acc
decode_next (fail e) acc more = error e
decode_next (ok term rest) acc more = keep_record (decode_body term rest) acc more

unfoldable pub decode_loop : ℕ → List ℕ → List Log → Decoded
unfolding decode_next
decode_loop zero bs acc = stuck
decode_loop (suc fuel) bs acc = decode_next (read_word 8 bs) acc (decode_loop fuel)

-- Every record takes some bytes, so there are at most as many rounds as bytes, and one for the end.
unfoldable pub decode_logs : List ℕ → Decoded
unfolding decode_loop
decode_logs bs = decode_loop (suc (length bs)) bs []
