-- ===== src/Events/Import/Rows.antt =====
-- Which rows of a CSV file become events.
use events_api.Common.{
  ℕ, String, ◌≡◌, refl, true, false, Option, none, some, [], ◌∷◌, arith, elem, eq_iff, ◌==◌,
}
use events_api.Common.Int.{ℤ}
use events_api.Common.Text.{strip, str_int, digit_value}
use events_api.Common.Text.Numbers.{parse_int-str_int}
use events_api.External.Json.{Json, JsonModule}
use events_api.External.EventTable.{EventTable}
use events_api.Events.Import.{CsvRow, field, required_fields, as_dict, parse_properties, parse_row}

-- the fields as a `DictReader` gives them
abbrev pub written : String → String → String → String → String → CsvRow
written event_id occurred_at user_id event_type properties =
    ("event_id", some event_id)
    ∷ ("occurred_at", some occurred_at)
    ∷ ("user_id", some user_id)
    ∷ ("event_type", some event_type)
    ∷ ("properties_json", some properties)
    ∷ []

module _ (t : EventTable) (json : JsonModule) (digit_of : ℕ → Option ℕ) where
  -- A row in which a required column is missing is skipped.
  pub parse_row-missing :
      (column : String) (row : CsvRow)
      → elem column required_fields ≡ true
      → field column row ≡ none
      → parse_row t json digit_of row ≡ none
  unfolding parse_row
  parse_row-missing column row needed lacking = ground (
    arith,
    needed,
    lacking,
    eq_iff "event_id" column,
    eq_iff "occurred_at" column,
    eq_iff "user_id" column,
    eq_iff "event_type" column,
    eq_iff "properties_json" column,
  )

module _ (t : EventTable) (json : JsonModule) (unicode_digit : ℕ → Option ℕ) where
  -- A row with a non-blank id and type, a time and a JSON value that can be read, and a user id as
  -- `str` writes it is taken: texts without their outer spaces, that user id, and the JSON value,
  -- wrapped in an object unless it is one.
  pub parse_row-written :
      (id time kind raw : String) (n : ℤ) (at : t.Datetime) (v : Json)
      → (strip id == "") ≡ false
      → t.fromisoformat (strip time) ≡ some at
      → (strip kind == "") ≡ false
      → (raw == "") ≡ false
      → json.loads raw ≡ some v
      → parse_row t json (digit_value unicode_digit) (written id time (str_int n) kind raw)
        ≡ some (record {
          event_id = strip id;
          occurred_at = at;
          user_id = n;
          event_type = strip kind;
          properties = as_dict v;
        })
  unfolding parse_row parse_properties
  parse_row-written id time kind raw n at v named timed typed given loaded =
      rw (named, timed, parse_int-str_int unicode_digit n, typed, given, loaded) refl
