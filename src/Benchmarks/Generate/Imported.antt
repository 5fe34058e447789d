-- ===== src/Benchmarks/Generate/Imported.antt =====
-- The import of the generated file.
use events_api.Common.{
  ℕ, zero, suc, ◌+◌, ◌*◌, ◌/◌, ◌≤◌, ◌<◌, String, ◌≡◌, refl, sym, ap, ◌∙◌, Bool, true, false, Option,
  some, List, [], ◌∷◌, map, length, elem, arith, eq_iff, eq_refl, ◌==◌, ◌||◌, ◌⊎◌, inl, inr,
  Bool-cases,
}
use events_api.Common.Int.{ℤ, pos}
use events_api.Common.Result.{Result, ok}
use events_api.Common.Text.{strip, digit_value}
use events_api.External.Csv.{Csv, CsvLaws, dict_row}
use events_api.External.EventTable.{EventTable, EventTableLaws}
use events_api.External.Json.{JsonModule, Json, obj, member, str, end}
use events_api.Events.Import.{CsvRow, EventRow, Progress, required_fields, parse_row, import_csv}
use events_api.Events.Import.Batches.{uuids}
use events_api.Events.Import.Loop.{parsed_rows, readable}
use events_api.Events.Import.Accounts.{import_csv-accounts}
use events_api.Events.Import.Completion.{Reliable, import_csv-completes}
use events_api.Events.Import.Rows.{parse_row-written}
use events_api.Benchmarks.Generate.{
  Draws, DrawsLaws, events, row, rows_from, generate, occurred_at, start_day, timedelta_min,
}

named-elem :
    (kind name : String) (names : List String)
    → elem kind (name ∷ names) ≡ true
    → (kind ≡ name) ⊎ (elem kind names ≡ true)
named-elem kind name names h = elim (Bool-cases (name == kind)) [
  | inl same ↦ inl (sym ((eq_iff name kind).0 same))
  | inr other ↦ inr (ground (arith, h, other))
]

event_typed : (kind : String) → elem kind events ≡ true → (strip kind == "") ≡ false
unfolding strip
event_typed kind h = elim (named-elem kind "app_open" ("login" ∷ "view_item" ∷ "purchase" ∷ []) h) [
  | inl is_open ↦ rw is_open
  | inr h1 ↦ elim (named-elem kind "login" ("view_item" ∷ "purchase" ∷ []) h1) [
    | inl is_login ↦ rw is_login
    | inr h2 ↦ elim (named-elem kind "view_item" ("purchase" ∷ []) h2) [
      | inl is_view ↦ rw is_view
      | inr h3 ↦ elim (named-elem kind "purchase" [] h3) [
        | inl is_purchase ↦ rw is_purchase
        | inr nothing ↦ cc
      ]
    ]
  ]
]

here : (i j : ℕ) → j ≡ i + 0 → j ≡ i
here i j e = omega (arith, e)

or_right : (a b : Bool) → b ≡ true → (a || b) ≡ true
or_right true b h = refl
or_right false b h = h

abbrev pub country : Json
country = obj (member "country" (str "UA") end)

module _ (t : EventTable) (L : EventTableLaws t) (json : JsonModule) (unicode_digit : ℕ → Option ℕ)
    (batch_size : ℤ) (d : Draws) (drawn : DrawsLaws d) (isoformat : ℕ → String)
    (at : ℕ → t.Datetime)
    (read_back : (m : ℕ) → t.fromisoformat (strip (isoformat m)) ≡ some (at m))
    (loads : json.loads "{\"country\": \"UA\"}" ≡ some country)
    (written_id : (i : ℕ) → (strip (d.uuid4 i) == "") ≡ false) where
  abbrev read_row : ℕ → CsvRow
  read_row i = dict_row required_fields (row d isoformat i)

  abbrev event : ℕ → EventRow t.Datetime
  event i = record {
    event_id = strip (d.uuid4 i);
    occurred_at = at (occurred_at d isoformat i);
    user_id = pos (d.user i);
    event_type = strip (d.choice i);
    properties = member "country" (str "UA") end;
  }

  row_parses : (i : ℕ) → parse_row t json (digit_value unicode_digit) (read_row i) ≡ some (event i)
  row_parses i =
      parse_row-written t json unicode_digit (d.uuid4 i) (isoformat (occurred_at d isoformat i))
        (d.choice i) "{\"country\": \"UA\"}" (pos (d.user i)) (at (occurred_at d isoformat i))
        country (written_id i) (read_back _) (event_typed (d.choice i) (drawn.is_event i)) refl
        loads

  abbrev read_rows : ℕ → ℕ → List (Result CsvRow)
  read_rows i n = map (λ r. ok (dict_row required_fields r)) (rows_from d isoformat i n)

  all_readable :
      (i n : ℕ)
      → (readable t L json (digit_value unicode_digit) batch_size (read_rows i n) ≡ n)
        × (length (read_rows i n) ≡ n)
  unfolding rows_from
  all_readable i zero = (refl, refl)
  all_readable i (suc n) = let (r, l) = all_readable (suc i) n in (ap suc r, ap suc l)

  abbrev generated : ℕ → ℕ → List (EventRow t.Datetime)
  generated i zero = []
  generated i (suc n) = event i ∷ generated (suc i) n

  all_parsed :
      (i n : ℕ)
      → parsed_rows t L json (digit_value unicode_digit) batch_size (read_rows i n) ≡ generated i n
  unfolding rows_from
  all_parsed i zero = refl
  all_parsed i (suc n) = rw (row_parses i, all_parsed (suc i) n)

  length-generated : (i n : ℕ) → length (generated i n) ≡ n
  length-generated i zero = refl
  length-generated i (suc n) = ap suc (length-generated (suc i) n)

  elem-generated :
      (k i n j : ℕ)
      → k < n
      → j ≡ i + k
      → elem (t.uuid (strip (d.uuid4 j))) (uuids t L (generated i n)) ≡ true
  elem-generated k i zero j h e = absurd (omega (arith, h))
  elem-generated zero i (suc n) j h e = rw (here i j e, eq_refl (t.uuid (strip (d.uuid4 i)))) refl
  elem-generated (suc k) i (suc n) j h e =
      or_right _ _ (elem-generated k (suc i) n j (omega (arith, h)) (omega (arith, e)))

  back_parsed :
      (c : Csv) (written_file : CsvLaws c) (n : ℕ)
      → parsed_rows t L json
          (digit_value unicode_digit)
          batch_size
          ((generate d isoformat c n).rows required_fields)
        ≡ generated 0 n
  back_parsed c written_file n =
      rw (written_file.rows required_fields (rows_from d isoformat 0 n)) (all_parsed 0 n)

  -- The import of the file that the script writes, of any number of rows, on a table that accepts
  -- every statement and in a session with nothing pending. It ends without an exception; it reads
  -- and parses every row, and each is inserted or counted as a duplicate; and the table then has
  -- every event that was drawn. The events lie within the dates that the benchmark asks the
  -- statistics for, from the first day on and up to the first instant of the last. The texts of
  -- times, ids and properties are read back by the libraries that write them.
  pub import_csv-generate :
      (c : Csv) (written_file : CsvLaws c) (n i : ℕ) (s : t.State)
      (R : Reliable t L json (digit_value unicode_digit) batch_size)
      → L.IsClean s
      → i < n
      → let import =
          import_csv t json (digit_value unicode_digit) batch_size (generate d isoformat c n) s in
        ((p : Progress t.Datetime) × (import.0 ≡ ok p)
          × (p.total_read_lines ≡ n)
          × (p.total_parsed_lines ≡ n)
          × (p.total_inserted_lines + p.duplicate_lines ≡ n))
        × (L.stored (t.uuid (strip (d.uuid4 i))) import.1 ≡ true)
        × (start_day * 1440 ≤ occurred_at d isoformat i)
        × (occurred_at d isoformat i ≤ (start_day * 1440 + timedelta_min) / 1440 * 1440)
  unfolding strip
  import_csv-generate c written_file n i s R clean below =
      let rows = rows_from d isoformat 0 n in
      let back = written_file.rows required_fields rows in
      let (p, done) =
        import_csv-completes t L json (digit_value unicode_digit) batch_size R
          (generate d isoformat c n) required_fields s clean (written_file.line _ _ rows)
          (written_file.header required_fields rows) refl
          (rw back ((all_readable 0 n).0 ∙ sym (all_readable 0 n).1)) in
      let a =
        import_csv-accounts t L json (digit_value unicode_digit) batch_size
          (generate d isoformat c n) required_fields s p clean
          (written_file.header required_fields rows) done in
      let parsed = back_parsed c written_file n in
      (
        (
          p,
          done,
          a.read ∙ (ap length back ∙ (all_readable 0 n).1),
          a.parsed ∙ (ap length parsed ∙ length-generated 0 n),
          a.balance ∙ (a.parsed ∙ (ap length parsed ∙ length-generated 0 n)),
        ),
        a.stored _
            ∙ or_right (L.stored (t.uuid (strip (d.uuid4 i))) s) _ (
                ap (λ rs. elem (t.uuid (strip (d.uuid4 i))) (uuids t L rs)) parsed
                ∙ elem-generated i 0 n i below (omega arith)),
        omega arith,
        omega (arith, drawn.in_time i),
      )
