-- ===== src/Examples/Filters.antt =====
-- The filter of debug entries of logger.go at concrete inputs.
use harmony_db.Base.{ℕ, ◌+◌, Bool, true, ◌≡◌, refl, none, some, List, [], ◌∷◌, All, arith}
use harmony_db.Tree.Page.{bytes_equal, compare_bytes}
use harmony_db.Logging.{
  Text, Field, Core, DebugFilterCore, new_debug_filter_core, component_text, detect_debug_mode,
  write, trim_space,
}
use harmony_db.Logging.Components.{IsName, first_field, stands_in, join, write_listed}

-- A core that counts what is written. An entry says whether it is for debugging.
abbrev counting : Core Unit Bool ℕ Unit ℕ
counting = record {
  check = λ k e c. c + 1;
  write = λ k e fs s. (none, s + 1);
  sync = λ k s. (none, s);
  with_fields = λ k fs. k;
}

abbrev raft_text : Text
raft_text = 114 ∷ 97 ∷ 102 ∷ 116 ∷ []

abbrev db_text : Text
db_text = 100 ∷ 98 ∷ []

abbrev api_text : Text
api_text = 97 ∷ 112 ∷ 105 ∷ []

abbrev filter : DebugFilterCore Unit
filter = new_debug_filter_core tt none

abbrev of_component : Text → List Field
of_component c = record { key = component_text; is_string = true; string = c } ∷ []

raft_db-IsName : All IsName (raft_text ∷ db_text ∷ [])
unfolding trim_space
raft_db-IsName = (
  record {
    nonempty = λ e. absurd (ground (arith, e));
    no_comma = (refl, (refl, (refl, (refl, tt))));
    trimmed = refl;
  },
  (
    record {
      nonempty = λ e. absurd (ground (arith, e));
      no_comma = (refl, (refl, tt));
      trimmed = refl;
    },
    tt,
  ),
)

write_listed_example :
    write counting
      (λ e. e)
      (some (detect_debug_mode [] (join raft_text (db_text ∷ [])) []))
      filter
      true
      (of_component api_text)
      0
    ≡ (none, 0)
unfolding stands_in bytes_equal compare_bytes
write_listed_example =
    write_listed counting (λ e. e) [] [] raft_text (db_text ∷ []) filter true
      (of_component api_text) api_text 0 raft_db-IsName (first_field refl refl)

writes_listed :
    write counting
      (λ e. e)
      (some (detect_debug_mode [] (join raft_text (db_text ∷ [])) []))
      filter
      true
      (of_component db_text)
      0
    ≡ (none, 1)
unfolding write detect_debug_mode compare_bytes bytes_equal
writes_listed = refl
