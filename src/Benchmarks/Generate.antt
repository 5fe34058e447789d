-- ===== src/Benchmarks/Generate.antt =====
-- src/benchmarks/dau_100k/generate_events.py: the file of random events that the benchmark imports.
-- Times are minutes since 0001-01-01.
pub mod Imported
use events_api.Common.{ℕ, zero, suc, ◌+◌, ◌*◌, ◌≤◌, String, ◌≡◌, true, List, [], ◌∷◌, elem}
use events_api.Common.Int.{pos}
use events_api.Common.Text.{str_int}
use events_api.Events.Import.{CsvFile}
use events_api.External.Csv.{Csv}

-- `datetime(2025, 8, 1)`, as a day
abbrev pub start_day : ℕ
start_day = 739463

abbrev pub timedelta_min : ℕ
timedelta_min = 60 * 24 * 30

abbrev pub events : List String
events = "app_open" ∷ "login" ∷ "view_item" ∷ "purchase" ∷ []

-- What the i-th row draws: `uuid.uuid4()`, `random.randint(0, timedelta_min)`,
-- `random.randint(1, 1000)` and `random.choice(events)`.
pub record Draws : Type 0 where
  pub uuid4 : ℕ → String
  pub minutes : ℕ → ℕ
  pub user : ℕ → ℕ
  pub choice : ℕ → String

pub record DrawsLaws (d : Draws) : Type 0 where
  pub in_time : (i : ℕ) → d.minutes i ≤ timedelta_min
  pub is_event : (i : ℕ) → elem (d.choice i) events ≡ true

module _ (d : Draws) (isoformat : ℕ → String) where
  abbrev pub occurred_at : ℕ → ℕ
  occurred_at i = start_day * 1440 + d.minutes i

  abbrev pub row : ℕ → List String
  row i =
      d.uuid4 i
      ∷ isoformat (occurred_at i)
      ∷ str_int (pos (d.user i))
      ∷ d.choice i
      ∷ "{\"country\": \"UA\"}"
      ∷ []

  -- `for i in range(n)`, from a number on
  unfoldable pub rows_from : ℕ → ℕ → List (List String)
  rows_from i zero = []
  rows_from i (suc n) = row i ∷ rows_from (suc i) n

  -- the file; the script writes 100,000 rows
  abbrev pub generate : Csv → ℕ → CsvFile
  generate c n =
      c.write ("event_id" ∷ "occurred_at" ∷ "user_id" ∷ "event_type" ∷ "properties_json" ∷ [])
        (rows_from 0 n)
