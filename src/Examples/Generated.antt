-- ===== src/Examples/Generated.antt =====
-- Two generated rows that draw the same id.
use events_api.Common.{
  ℕ, ◌+◌, ◌*◌, ◌/◌, ◌≤◌, String, ◌≡◌, refl, true, Option, none, some, [], map, arith, ◌==◌,
  if◌then◌else◌,
}
use events_api.Common.Int.{pos}
use events_api.Common.Result.{ok}
use events_api.Common.Text.{strip, digit_value}
use events_api.External.Csv.{Csv, CsvLaws, dict_row}
use events_api.External.Json.{JsonModule}
use events_api.Events.Import.{Progress, import_csv}
use events_api.Benchmarks.Generate.{
  Draws, DrawsLaws, generate, occurred_at, start_day, timedelta_min,
}
use events_api.Benchmarks.Generate.Imported.{country, import_csv-generate}
use events_api.Samples.MemoryEvents.{Rows, memory_events, memory_events_laws}

abbrev no_digits : ℕ → Option ℕ
no_digits n = none

abbrev one_value : JsonModule
one_value = record {
  dumps = λ v. "?";
  loads = λ s. if s == "{\"country\": \"UA\"}" then some country else none;
}

abbrev same_draws : Draws
same_draws = record { uuid4 = λ i. "u"; minutes = λ i. 43200; user = λ i. 7; choice = λ i. "login" }

same_draws_laws : DrawsLaws same_draws
same_draws_laws = record { in_time = λ i. omega arith; is_event = λ i. refl }

abbrev kept_rows : Csv
kept_rows = record {
  write = λ names rows. record {
    header_line = "columns";
    header = ok names;
    rows = λ asked. map (λ row. ok (dict_row asked row)) rows;
  };
}

kept_rows_laws : CsvLaws kept_rows
kept_rows_laws = record {
  line = λ name names rows. refl;
  header = λ names rows. refl;
  rows = λ names rows. refl;
}

abbrev no_rows : Rows
no_rows = record { ids = []; pending = [] }

import_csv-generate_example :
    let import =
      import_csv memory_events one_value
        (digit_value no_digits)
        (pos 1000)
        (generate same_draws (λ m. "noon") kept_rows 2)
        no_rows in
    ((p : Progress String) × (import.0 ≡ ok p)
      × (p.total_read_lines ≡ 2)
      × (p.total_parsed_lines ≡ 2)
      × (p.total_inserted_lines + p.duplicate_lines ≡ 2))
    × (memory_events_laws.stored "u" import.1 ≡ true)
    × (start_day * 1440 ≤ occurred_at same_draws (λ m. "noon") 1)
    × (occurred_at same_draws (λ m. "noon") 1 ≤ (start_day * 1440 + timedelta_min) / 1440 * 1440)
unfolding strip
import_csv-generate_example =
    import_csv-generate memory_events memory_events_laws one_value no_digits (pos 1000) same_draws
      same_draws_laws (λ m. "noon") (λ m. "noon") (λ m. refl) refl (λ i. refl) kept_rows
      kept_rows_laws 2 1 no_rows
      (record { inserts = λ rows s clean. (_, refl); commits = λ rows s clean. refl }) refl
      (omega arith)
