-- ===== src/Events/Import.antt =====
-- src/endpoint_events/cli_utils.py: the import of a CSV file into the table of events, in batches.
-- What it prints and logs is left out.
pub mod Batches
pub mod Counters
pub mod Loop
pub mod Accounts
pub mod Completion
pub mod Rows
use events_api.Common.{
  ℕ, suc, ◌+◌, ◌-◌, String, Bool, true, false, not, Option, none, some, List, [], ◌∷◌, ◌++◌, map,
  leb, length, elem, is_empty, ◌==◌, if◌then◌else◌,
}
use events_api.Common.Int.{ℤ, pos, negsuc}
use events_api.Common.Result.{Result, ok, raise, runtime_error}
use events_api.Common.Text.{strip, parse_int}
use events_api.External.Json.{Json, Members, JsonModule, obj, member, end}
use events_api.External.EventTable.{NewEvent, EventTable}

-- The row of a `DictReader`: the value under each column, `none` for `None`.
abbrev pub CsvRow : Type 0
CsvRow = List (String × Option String)

-- `row.get(column)`
abbrev pub field : String → CsvRow → Option String
field column [] = none
field column ((name, value) ∷ row) =
    let rest = field column row in if name == column then value else rest

-- What opening and reading the file yields: the first line (empty at the end of the file), its
-- columns by `csv.reader`, and the rows by `AsyncDictReader` under a list of field names, where
-- reading a row may raise.
pub record CsvFile : Type 0 where
  pub header_line : String
  pub header : Result (List String)
  pub rows : List String → List (Result CsvRow)

pub record EventRow (D : Type 0) : Type 0 where
  pub event_id : String
  pub occurred_at : D
  pub user_id : ℤ
  pub event_type : String
  pub properties : Members

-- `properties if isinstance(properties, dict) else {"value": properties}`
abbrev pub as_dict : Json → Members
as_dict (obj m) = m
as_dict v = member "value" v end

-- the fields that the file must have
abbrev pub required_fields : List String
required_fields = "event_id" ∷ "occurred_at" ∷ "user_id" ∷ "event_type" ∷ "properties_json" ∷ []

abbrev pub missing : List String → List String → List String
missing [] header = []
missing (column ∷ columns) header =
    let rest = missing columns header in if elem column header then rest else column ∷ rest

-- `n >= batch_size`
abbrev pub reached : ℕ → ℤ → Bool
reached n (pos m) = leb m n
reached n (negsuc m) = true

infixl 5 ◌>>=◌ ◌>>◌
abbrev ◌>>=◌ : {A B : Type 0} → Option A → (A → Option B) → Option B
none >>= f = none
some a >>= f = f a

abbrev ◌>>◌ : {B : Type 0} → Option (Unit {0}) → Option B → Option B
m >> k = m >>= λ _. k

abbrev check : Bool → Option (Unit {0})
check true = some tt
check false = none

-- What a run of the import has counted, and the batch that is not inserted yet.
pub record Progress (D : Type 0) : Type 0 where
  pub total_read_lines : ℕ
  pub total_parsed_lines : ℕ
  pub total_inserted_lines : ℕ
  pub duplicate_lines : ℕ
  pub batch : List (EventRow D)

module _ (t : EventTable) (json : JsonModule) (digit_of : ℕ → Option ℕ) where
  -- `json.loads(raw) if raw else {}`, as a dict
  unfoldable pub parse_properties : String → Option Members
  parse_properties raw = if raw == "" then some end else (do v ← json.loads raw; some (as_dict v))

  -- `none` where the row is skipped
  unfoldable pub parse_row : CsvRow → Option (EventRow t.Datetime)
  parse_row row = do
    raw_event_id ← field "event_id" row
    raw_occurred_at ← field "occurred_at" row
    raw_user_id ← field "user_id" row
    raw_event_type ← field "event_type" row
    raw_properties ← field "properties_json" row
    check (not (strip raw_event_id == ""))
    occurred_at ← t.fromisoformat (strip raw_occurred_at)
    user_id ← parse_int digit_of raw_user_id
    check (not (strip raw_event_type == ""))
    properties ← parse_properties raw_properties
    some (record {
      event_id = strip raw_event_id;
      occurred_at = occurred_at;
      user_id = user_id;
      event_type = strip raw_event_type;
      properties = properties;
    })

module _ (t : EventTable) where
  -- one row of the payload
  abbrev pub payload_row : EventRow t.Datetime → NewEvent t.Datetime
  payload_row r = record {
    event_id = r.event_id;
    occurred_at = r.occurred_at;
    user_id = r.user_id;
    event_type = r.event_type;
    properties = r.properties;
  }

  -- the end of `async with engine.begin()`, which rolls back where its commit fails
  abbrev committed : List String → Result (Unit {0}) × t.State → Result ℕ × t.State
  committed ids (ok u, s) = (ok (length ids), s)
  committed ids (raise e, s) = (raise e, t.rollback s)

  abbrev executed : Result (List String) × t.State → Result ℕ × t.State
  executed (ok ids, s) = committed ids (t.commit s)
  executed (raise e, s) = (raise e, t.rollback s)

  unfoldable pub insert_batch : List (EventRow t.Datetime) → t.State → Result ℕ × t.State
  insert_batch [] s = (ok 0, s)
  insert_batch (r ∷ rs) s = executed (t.insert (map payload_row (r ∷ rs)) s)

  abbrev count_batch :
      Progress t.Datetime → Result ℕ × t.State → Result (Progress t.Datetime) × t.State
  count_batch p (raise e, s) = (raise e, s)
  count_batch p (ok inserted_batch, s) = (
    ok (record p {
      total_inserted_lines = p.total_inserted_lines + inserted_batch;
      duplicate_lines = p.duplicate_lines + (length p.batch - inserted_batch);
      batch = [];
    }),
    s,
  )

  -- the batch is inserted, counted and cleared
  unfoldable pub flush : Progress t.Datetime → t.State → Result (Progress t.Datetime) × t.State
  flush p s = count_batch p (insert_batch p.batch s)

  unfoldable pub append : EventRow t.Datetime → Progress t.Datetime → Progress t.Datetime
  append r p = record p {
    total_parsed_lines = p.total_parsed_lines + 1;
    batch = p.batch ++ (r ∷ []);
  }

  unfoldable pub read_line : Progress t.Datetime → Progress t.Datetime
  read_line p = record p { total_read_lines = p.total_read_lines + 1 }

  abbrev proceed :
      {A B : Type 0} → Result A × t.State → (A → t.State → Result B × t.State) → Result B × t.State
  proceed (raise e, s) k = (raise e, s)
  proceed (ok a, s) k = k a s

  module _ (json : JsonModule) (digit_of : ℕ → Option ℕ) (batch_size : ℤ) where
    unfoldable pub take_row :
        Option (EventRow t.Datetime)
        → Progress t.Datetime
        → t.State
        → Result (Progress t.Datetime) × t.State
    take_row none p s = (ok p, s)
    take_row (some r) p s =
        if reached (length (append r p).batch) batch_size
        then flush (append r p) s
        else (ok (append r p), s)

    -- the body of `async for row in file_reader`
    unfoldable pub import_row :
        CsvRow → Progress t.Datetime → t.State → Result (Progress t.Datetime) × t.State
    import_row row p s = take_row (parse_row t json digit_of row) (read_line p) s

    unfoldable pub import_rows :
        List (Result CsvRow)
        → Progress t.Datetime
        → t.State
        → Result (Progress t.Datetime) × t.State
    import_rows [] p s = (ok p, s)
    import_rows (raise e ∷ rows) p s = (raise e, s)
    import_rows (ok row ∷ rows) p s = proceed (import_row row p s) (λ p s. import_rows rows p s)

    abbrev pub no_progress : Progress t.Datetime
    no_progress = record {
      total_read_lines = 0;
      total_parsed_lines = 0;
      total_inserted_lines = 0;
      duplicate_lines = 0;
      batch = [];
    }

    -- `if batch:` after the loop
    unfoldable pub flush_last :
        Progress t.Datetime → t.State → Result (Progress t.Datetime) × t.State
    flush_last p s = if is_empty p.batch then (ok p, s) else flush p s

    abbrev import_with_header :
        Result (List String) → CsvFile → t.State → Result (Progress t.Datetime) × t.State
    import_with_header (raise e) file s = (raise e, s)
    import_with_header (ok header) file s =
        if is_empty (missing required_fields (map strip header))
        then proceed (import_rows (file.rows (map strip header)) no_progress s)
            (λ p s. flush_last p s)
        else (raise runtime_error, s)

    -- `import_csv(csv_path, batch_size)`, and the totals that it reports
    unfoldable pub import_csv : CsvFile → t.State → Result (Progress t.Datetime) × t.State
    import_csv file s =
        if file.header_line == ""
        then (raise runtime_error, s)
        else import_with_header file.header file s
