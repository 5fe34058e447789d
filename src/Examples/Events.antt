-- ===== src/Examples/Events.antt =====
-- src/endpoint_events on a small table.
use events_api.Common.{
  ℕ, String, ◌≡◌, refl, false, Option, none, some, List, [], ◌∷◌, ne→eq-false, ◌==◌, map,
}
use events_api.Common.Int.{pos}
use events_api.Common.Text.{strip, digit_value, str_int}
use events_api.Common.Result.{Result, ok, raise, other_error}
use events_api.External.Json.{end, sub_payload}
use events_api.Common.Sets.{dedupe, difference}
use events_api.Events.Routers.{EventBase, EventWorld, model_dump}
use events_api.Events.Routers.Intake.{
  Partitioned, Repeated, add_unique_events-partition, add_unique_events-again,
}
use events_api.Events.Import.{
  CsvRow, CsvFile, EventRow, Progress, import_csv, import_row, import_rows, take_row, flush,
  insert_batch, append, read_line, flush_last, parse_row, as_dict, required_fields,
}
use events_api.Events.Import.Accounts.{Imported, Aborted, import_csv-accounts, import_csv-aborts}
use events_api.Events.Import.Rows.{written, parse_row-missing, parse_row-written}
use events_api.Samples.PlainJson.{plain_json, plain_json_laws}
use events_api.Samples.MemoryEvents.{Rows, memory_events, memory_events_laws}

abbrev click : EventBase String
click = record {
  event_id = "b";
  occurred_at = "noon";
  user_id = pos 7;
  event_type = "click";
  properties = end;
}

abbrev view : EventBase String
view = record {
  event_id = "a";
  occurred_at = "noon";
  user_id = pos 7;
  event_type = "view";
  properties = end;
}

-- a table that has the event "a"
abbrev one_stored : EventWorld memory_events
one_stored = record {
  table = record { ids = "a" ∷ []; pending = [] };
  metrics = record { total_events_seen = 0; events_total = [] };
}

add_unique_events-partition_example :
    Partitioned memory_events memory_events_laws click (view ∷ []) one_stored
add_unique_events-partition_example =
    add_unique_events-partition memory_events memory_events_laws click (view ∷ []) one_stored
      (refl, (refl, tt)) refl ("b" ∷ []) new refl
  where
    new :
        (memory_events.insert
          (map (model_dump memory_events) (click ∷ view ∷ []))
          one_stored.table).0
        ≡ ok ("b" ∷ [])
    new = unfold dedupe in unfold difference in refl

add_unique_events-again_example :
    Repeated memory_events memory_events_laws click (view ∷ []) one_stored
add_unique_events-again_example =
    add_unique_events-again memory_events memory_events_laws click (view ∷ []) one_stored _ _
      (refl, (refl, tt)) refl (refl, refl) (refl, refl)

abbrev no_digits : ℕ → Option ℕ
no_digits n = none

-- A row with the object of user 5 as its properties.
abbrev row : String → CsvRow
row id = written id "noon" (str_int (pos 7)) "click" (plain_json.dumps (sub_payload (pos 5)))

abbrev file : List (Result CsvRow) → CsvFile
file rows = record { header_line = "columns"; header = ok required_fields; rows = λ names. rows }

abbrev table : Rows
table = one_stored.table

-- Three rows, of which the second lacks its columns; the first is stored already.
abbrev three_rows : List (Result CsvRow)
three_rows = ok (row "a") ∷ ok [] ∷ ok (row "b") ∷ []

abbrev totals : Progress String
totals = record {
  total_read_lines = 3;
  total_parsed_lines = 2;
  total_inserted_lines = 1;
  duplicate_lines = 1;
  batch = [];
}

parsed : String → EventRow String
parsed id = record {
  event_id = strip id;
  occurred_at = "noon";
  user_id = pos 7;
  event_type = "click";
  properties = as_dict (sub_payload (pos 5));
}

row_parses :
    (id : String)
    → (strip id == "") ≡ false
    → parse_row memory_events plain_json (digit_value no_digits) (row id) ≡ some (parsed id)
unfolding parsed strip
row_parses id named =
    parse_row-written memory_events plain_json no_digits id "noon" "click"
      (plain_json.dumps (sub_payload (pos 5))) (pos 7) "noon" (sub_payload (pos 5)) named refl refl
      (ne→eq-false (plain_json_laws.dumps-ne-empty (sub_payload (pos 5))))
      (plain_json_laws.loads-dumps (pos 5))

no_columns : parse_row memory_events plain_json (digit_value no_digits) [] ≡ none
no_columns =
    parse_row-missing memory_events plain_json (digit_value no_digits) "user_id" [] refl refl

three_rows-totals :
    (import_csv memory_events plain_json (digit_value no_digits) (pos 1) (file three_rows) table).0
    ≡ ok totals
unfolding import_csv import_rows import_row take_row flush insert_batch append read_line flush_last
    strip parsed dedupe difference
three_rows-totals = rw (row_parses "a" refl, no_columns, row_parses "b" refl) refl

import_csv-accounts_example :
    Imported memory_events memory_events_laws plain_json
      (digit_value no_digits)
      (pos 1)
      three_rows
      table
      totals
      (import_csv memory_events plain_json
        (digit_value no_digits)
        (pos 1)
        (file three_rows)
        table).1
unfolding strip
import_csv-accounts_example =
    import_csv-accounts memory_events memory_events_laws plain_json (digit_value no_digits) (pos 1)
      (file three_rows) required_fields table totals refl refl three_rows-totals

-- A second row that cannot be read.
abbrev broken_rows : List (Result CsvRow)
broken_rows = ok (row "b") ∷ raise other_error ∷ []

broken_rows-raise :
    (import_csv memory_events plain_json (digit_value no_digits) (pos 1) (file broken_rows) table).0
    ≡ raise other_error
unfolding import_csv import_rows import_row take_row flush insert_batch append read_line flush_last
    strip parsed dedupe difference
broken_rows-raise = rw (row_parses "b" refl) refl

import_csv-aborts_example :
    Aborted memory_events memory_events_laws plain_json
      (digit_value no_digits)
      (pos 1)
      broken_rows
      table
      (import_csv memory_events plain_json
        (digit_value no_digits)
        (pos 1)
        (file broken_rows)
        table).1
unfolding strip
import_csv-aborts_example =
    import_csv-aborts memory_events memory_events_laws plain_json (digit_value no_digits) (pos 1)
      (file broken_rows) required_fields table other_error refl refl broken_rows-raise
