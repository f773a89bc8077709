-- ===== src/Wal/RoundTrip.antt =====
-- `decodeLogs` reads back what `encodeLog` wrote, on files of whole records (wal/wal.go).
use mathlib.Core.List.{append_assoc, append-nil}
use harmony_db.Base.{
  ℕ, zero, suc, ◌%◌, ◌^◌, ◌≤◌, ◌<◌, ◌≡◌, ◌≢◌, refl, ◌∙◌, ap, some, List, [], ◌∷◌, ◌++◌, arith, map,
  length, length-append, All,
}
use harmony_db.Proto.{Log, get_op, get_key, get_value}
use harmony_db.Bytes.{eof, unexpected_eof, Read, ok, fail, le, read_word}
use harmony_db.Bytes.Laws.{
  length-le, read_full-append, read_word-le, read_word-nil, Leaves, Leaves-ok, Leaves-bind,
  Leaves-read_full, Leaves-read_word, read_word-shorter,
}
use harmony_db.Wal.Codec.{
  encode_record, encode_log, decode_body, logs, stuck, keep_record, decode_next, decode_loop,
  decode_logs,
}

-- The numbers and the lengths of a log fit the words that are written.
pub record Fits (l : Log) : Type 0 where
  pub term : l.term < 256 ^ 8
  pub id : l.id < 256 ^ 8
  pub key : length (get_key l.cmd) < 256 ^ 4
  pub value : length (get_value l.cmd) < 256 ^ 4
  pub op : length (get_op l.cmd) < 256 ^ 4

-- What the file keeps of a log: all but the request id.
unfoldable pub stored : Log → Log
stored l = record l {
  cmd =
      some (record {
        op = get_op l.cmd;
        key = get_key l.cmd;
        value = get_value l.cmd;
        request_id = 0;
      });
}

module _ (l : Log) (f : Fits l) (rest : List ℕ) where
  body : List ℕ
  body =
      le 8 l.id
      ++ (le 4 (length (get_key l.cmd) % 2 ^ 32)
          ++ (le 4 (length (get_value l.cmd) % 2 ^ 32)
              ++ (le 4 (length (get_op l.cmd) % 2 ^ 32)
                  ++ (get_key l.cmd ++ (get_value l.cmd ++ (get_op l.cmd ++ rest))))))

  decode_body-encoded : decode_body l.term body ≡ ok (stored l) rest
  unfolding decode_body body stored
  decode_body-encoded =
      let ek : length (get_key l.cmd) % 2 ^ 32 ≡ length (get_key l.cmd) = omega (arith, f.key) in
      let ev : length (get_value l.cmd) % 2 ^ 32 ≡ length (get_value l.cmd) =
        omega (arith, f.value) in
      let eo : length (get_op l.cmd) % 2 ^ 32 ≡ length (get_op l.cmd) = omega (arith, f.op) in
      rw (
        ek,
        ev,
        eo,
        read_word-le 8 l.id _ f.id,
        read_word-le 4 (length (get_key l.cmd)) _ f.key,
        read_word-le 4 (length (get_value l.cmd)) _ f.value,
        read_word-le 4 (length (get_op l.cmd)) _ f.op,
        read_full-append (length (get_key l.cmd)) (get_key l.cmd) _ refl,
        read_full-append (length (get_value l.cmd)) (get_value l.cmd) _ refl,
        read_full-append (length (get_op l.cmd)) (get_op l.cmd) rest refl,
      )

  record-split : encode_record l ++ rest ≡ le 8 l.term ++ body
  unfolding encode_record body
  record-split = simp append_assoc

  -- A record at the head of the file costs the loop one round.
  decode_loop-record :
      (fuel : ℕ) (acc : List Log)
      → decode_loop (suc fuel) (encode_record l ++ rest) acc
        ≡ decode_loop fuel rest (acc ++ (stored l ∷ []))
  unfolding decode_loop decode_next
  decode_loop-record fuel acc =
      rw (record-split, read_word-le 8 l.term body f.term, decode_body-encoded)

decode_loop-encode_log :
    (ls : List Log) (fuel : ℕ) (acc : List Log)
    → All Fits ls
    → length ls < fuel
    → decode_loop fuel (encode_log ls) acc ≡ logs (acc ++ map stored ls)
unfolding encode_log
decode_loop-encode_log ls zero acc h k = absurd (omega arith)
decode_loop-encode_log [] (suc fuel) acc h k =
    unfold decode_loop decode_next in rw (read_word-nil 7, append-nil)
decode_loop-encode_log (l ∷ ls) (suc fuel) acc h k =
    decode_loop-record l h.0 (encode_log ls) fuel acc
    ∙ decode_loop-encode_log ls fuel (acc ++ (stored l ∷ [])) h.1 (omega arith)
    ∙ ap logs (append_assoc acc (stored l ∷ []) (map stored ls))

record_pos : (l : Log) → 0 < length (encode_record l)
unfolding encode_record
record_pos l = omega (arith, length-append (le 8 l.term) _, length-le 8 l.term)

pub length-encode_log : (ls : List Log) → length ls ≤ length (encode_log ls)
unfolding encode_log
length-encode_log [] = omega arith
length-encode_log (l ∷ ls) =
    omega
      (arith, length-append (encode_record l) (encode_log ls), record_pos l, length-encode_log ls)

-- A file of records of logs that fit their words reads back as the logs that were written, in order
-- and with none left out, except that the request ids are gone.
pub decode_logs-encode_log :
    (ls : List Log) → All Fits ls → decode_logs (encode_log ls) ≡ logs (map stored ls)
unfolding decode_logs
decode_logs-encode_log ls h =
    decode_loop-encode_log ls (suc (length (encode_log ls))) [] h
      (omega (arith, length-encode_log ls))

Leaves-decode_body : (term : ℕ) (bs : List ℕ) → Leaves (length bs) (decode_body term bs)
unfolding decode_body
Leaves-decode_body term bs =
    let n = length bs in
    Leaves-bind n _ _ (Leaves-read_word n 8 bs (omega arith)) (λ _ b1 h1.
      Leaves-bind n _ _ (Leaves-read_word n 4 b1 h1) (λ k b2 h2.
        Leaves-bind n _ _ (Leaves-read_word n 4 b2 h2) (λ v b3 h3.
          Leaves-bind n _ _ (Leaves-read_word n 4 b3 h3) (λ o b4 h4.
            Leaves-bind n _ _ (Leaves-read_full n k b4 h4) (λ _ b5 h5.
              Leaves-bind n _ _ (Leaves-read_full n v b5 h5) (λ _ b6 h6.
                Leaves-bind n _ _ (Leaves-read_full n o b6 h6)
                  (λ _ b7 h7. Leaves-ok n _ b7 h7)))))))

decode_loop-ne-stuck :
    (fuel : ℕ) (bs : List ℕ) (acc : List Log) → length bs < fuel → decode_loop fuel bs acc ≢ stuck
unfolding decode_loop
decode_loop-ne-stuck zero bs acc h = absurd (omega arith)
decode_loop-ne-stuck (suc fuel) bs acc h = next (decode_loop-ne-stuck fuel) (read_word 8 bs) refl
  where
    NeverStuck : Type 0
    NeverStuck =
        (bs' : List ℕ) (acc' : List Log) → length bs' < fuel → decode_loop fuel bs' acc' ≢ stuck

    body :
        NeverStuck
        → (term : ℕ) (rest : List ℕ) → length rest < length bs
        → (m : Read Log) → decode_body term rest ≡ m
        → keep_record m acc (decode_loop fuel) ≢ stuck
    body ih term rest k (fail x) e p = unfold keep_record in cc
    body ih term rest k (ok l rest') e p =
        ih rest' (acc ++ (l ∷ []))
          (let shorter = (Leaves-decode_body term rest).at l rest' e in omega arith)
          (unfold keep_record in p)

    next :
        NeverStuck
        → (m : Read ℕ) → read_word 8 bs ≡ m
        → decode_next m acc (decode_loop fuel) ≢ stuck
    next ih (ok term rest) e p =
        body ih term rest (read_word-shorter 7 bs term rest e) (decode_body term rest) refl
          (unfold decode_next in p)
    next ih (fail eof) e p = unfold decode_next in cc
    next ih (fail unexpected_eof) e p = unfold decode_next in cc

-- Recovery ends on every file, whole or torn: the model's fuel is enough.
pub decode_logs-ne-stuck : (bs : List ℕ) → decode_logs bs ≢ stuck
unfolding decode_logs
decode_logs-ne-stuck bs = decode_loop-ne-stuck (suc (length bs)) bs [] (omega arith)
