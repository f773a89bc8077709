-- ===== src/Examples/Logs.antt =====
-- The write-ahead log (wal/wal.go) and a page (node.go) at concrete contents.
use harmony_db.Base.{
  ℕ, zero, suc, ◌≡◌, ◌≢◌, refl, true, false, none, some, List, [], ◌∷◌, arith, get_elem?, map,
}
use harmony_db.Proto.{Log, get_key, get_value, get_op}
use harmony_db.Wal.{LogManager, empty_manager, new_lm, truncate_after}
use harmony_db.Wal.Codec.{encode_log, decode_logs, logs, stuck}
use harmony_db.Wal.RoundTrip.{Fits, stored, decode_logs-encode_log, decode_logs-ne-stuck}
use harmony_db.Wal.Recovery.{append_all, restart-append_all, restart-truncate_after}
use harmony_db.Wal.Indexing.{with_ids_to, truncate_after_by_id}
use harmony_db.Tree.Page.{Key, compare_bytes, Node, make_cell, find_ins_point_for_key, key_at}
use harmony_db.Tree.Order.{lower_bound}
use harmony_db.Tree.Search.{HasKeys, find_ins_point-lower_bound}

abbrev entry_1 : Log
entry_1 = record {
  term = 1;
  id = 1;
  cmd = some (record { op = 80 ∷ []; key = 107 ∷ []; value = 118 ∷ 119 ∷ []; request_id = 7 });
}

abbrev entry_2 : Log
entry_2 = record { term = 2; id = 2; cmd = none }

abbrev two : List Log
two = entry_1 ∷ entry_2 ∷ []

entry_1-Fits : Fits entry_1
unfolding get_key get_value get_op
entry_1-Fits = record {
  term = omega arith;
  id = omega arith;
  key = omega arith;
  value = omega arith;
  op = omega arith;
}

entry_2-Fits : Fits entry_2
unfolding get_key get_value get_op
entry_2-Fits = record {
  term = omega arith;
  id = omega arith;
  key = omega arith;
  value = omega arith;
  op = omega arith;
}

decode_logs-encode_log_example : decode_logs (encode_log two) ≡ logs (map stored two)
decode_logs-encode_log_example = decode_logs-encode_log two (entry_1-Fits, (entry_2-Fits, tt))

decode_logs-ne-stuck_example : decode_logs (1 ∷ 2 ∷ []) ≢ stuck
decode_logs-ne-stuck_example = decode_logs-ne-stuck (1 ∷ 2 ∷ [])

restart-append_all_example :
    ((append_all two (empty_manager [])).logs ≡ two)
    × (new_lm (append_all two (empty_manager [])).file
        ≡ some (record (empty_manager (encode_log two)) { logs = map stored two }))
restart-append_all_example = restart-append_all two (entry_1-Fits, (entry_2-Fits, tt))

restart-truncate_after_example :
    new_lm (truncate_after 0 (append_all two (empty_manager []))).file
    ≡ some (record (empty_manager (encode_log two)) { logs = map stored two })
restart-truncate_after_example = restart-truncate_after two 0 (entry_1-Fits, (entry_2-Fits, tt))

abbrev manager : LogManager
manager = record (empty_manager []) { logs = two }

truncate_after_by_id_example : (truncate_after 0 manager).logs ≡ with_ids_to 1 two
truncate_after_by_id_example = truncate_after_by_id manager (refl, (refl, tt)) 0

-- A leaf with the keys "b" and "d", the second cell first.
abbrev page : Node
page = record {
  is_dirty = false;
  is_leaf = true;
  file_offset = 0;
  offsets = 1 ∷ 0 ∷ [];
  internal_cell = [];
  leaf_cell = make_cell (100 ∷ []) [] ∷ make_cell (98 ∷ []) [] ∷ [];
}

abbrev page_keys : List Key
page_keys = (98 ∷ []) ∷ (100 ∷ []) ∷ []

page-HasKeys : HasKeys page page_keys
unfolding key_at make_cell
page-HasKeys = record { count = refl; fits = omega arith; keys = at }
  where
    at : (i : ℕ) (k : Key) → get_elem? page_keys i ≡ some k → key_at page i ≡ some k
    at zero k e = e
    at (suc zero) k e = e
    at (suc (suc i)) k e = cc

find_ins_point-lower_bound_example :
    find_ins_point_for_key (99 ∷ []) page ≡ some (lower_bound (99 ∷ []) page_keys)
unfolding compare_bytes
find_ins_point-lower_bound_example =
    find_ins_point-lower_bound page page_keys (99 ∷ []) page-HasKeys ((refl, tt), (tt, tt))
