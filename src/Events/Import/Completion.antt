-- ===== src/Events/Import/Completion.antt =====
-- When the import of a CSV file ends without an exception, and what it refuses.
use events_api.Common.{
  ℕ, suc, String, ◌≡◌, ◌≢◌, refl, true, false, Option, none, some, List, [], ◌∷◌, map, arith,
  length, elem, is_empty, inl, inr, Bool-cases, ◌==◌, ◌⊎◌, eq_iff,
}
use events_api.Common.Int.{ℤ}
use events_api.Common.Text.{strip}
use events_api.Common.Result.{Exception, Result, ok, raise, runtime_error, Result-cases}
use events_api.External.Json.{JsonModule}
use events_api.External.EventTable.{EventTable, EventTableLaws, NewEvent}
use events_api.Events.Import.{
  CsvRow, CsvFile, EventRow, Progress, parse_row, payload_row, insert_batch, flush, append,
  read_line, reached, take_row, missing, required_fields, import_row, import_rows, no_progress,
  flush_last, import_csv,
}
use events_api.Events.Import.Counters.{Counted, Counted-read_line}
use events_api.Events.Import.Loop.{readable, take_row-cases, import_rows-from_start}
use events_api.Events.Import.Accounts.{fresh}

module _ (t : EventTable) (L : EventTableLaws t) (json : JsonModule) (digit_of : ℕ → Option ℕ)
    (batch_size : ℤ) where
  -- A table that accepts every statement and every commit.
  pub record Reliable : Type 0 where
    pub inserts :
        (rows : List (NewEvent t.Datetime)) (s : t.State)
        → L.IsClean s
        → (ids : List String) × ((t.insert rows s).0 ≡ ok ids)
    pub commits :
        (rows : List (NewEvent t.Datetime)) (s : t.State)
        → L.IsClean s
        → (t.commit (t.insert rows s).1).0 ≡ ok tt

  module _ (R : Reliable) where
    insert_batch-succeeds :
        (rs : List (EventRow t.Datetime)) (s : t.State)
        → L.IsClean s
        → (n : ℕ) × ((insert_batch t rs s).0 ≡ ok n)
    unfolding insert_batch
    insert_batch-succeeds [] s clean = (0, refl)
    insert_batch-succeeds (r ∷ rs) s clean =
        let (ids, ran) = R.inserts (map (payload_row t) (r ∷ rs)) s clean in
        (length ids, rw (ran, R.commits (map (payload_row t) (r ∷ rs)) s clean) refl)

    flush-succeeds :
        (p : Progress t.Datetime) (s : t.State) (e : Exception)
        → L.IsClean s
        → (flush t p s).0 ≢ raise e
    unfolding flush
    flush-succeeds p s e clean failed =
        let (n, ran) = insert_batch-succeeds p.batch s clean in let bad = rw ran at failed in cc

    take_row-succeeds :
        (o : Option (EventRow t.Datetime)) (p : Progress t.Datetime) (s : t.State) (e : Exception)
        → L.IsClean s
        → (take_row t json digit_of batch_size o p s).0 ≢ raise e
    unfolding take_row
    take_row-succeeds none p s e clean failed = cc
    take_row-succeeds (some r) p s e clean failed =
        elim (Bool-cases (reached (length (append t r p).batch) batch_size)) [
          | inl full ↦ flush-succeeds (append t r p) s e clean (rw full at failed)
          | inr room ↦ let bad = rw room at failed in cc
        ]

    import_rows-succeeds :
        (s0 : t.State) (rows : List (Result CsvRow)) (done : List (EventRow t.Datetime)) (read : ℕ)
        (p : Progress t.Datetime) (s : t.State) (e : Exception)
        → Counted t L s0 done read p s
        → readable t L json digit_of batch_size rows ≡ length rows
        → (import_rows t json digit_of batch_size rows p s).0 ≢ raise e
    unfolding import_rows import_row
    import_rows-succeeds s0 [] done read p s e c all failed = cc
    import_rows-succeeds s0 (raise e' ∷ rows) done read p s e c all failed =
        absurd (omega (arith, all))
    import_rows-succeeds s0 (ok row ∷ rows) done read p s e c all failed =
        elim (take_row-cases t L json digit_of batch_size s0 done (suc read)
          (parse_row t json digit_of row) (read_line t p) s
          (Counted-read_line t L s0 done read p s c)) [
            | inl (e', stopped, sound) ↦
                take_row-succeeds (parse_row t json digit_of row) (read_line t p) s e' c.clean
                  stopped
            | inr (p', went, c') ↦
                import_rows-succeeds s0 rows _ (suc read) p' _ e c' (omega (arith, all))
                  (rw went at failed)
          ]

    -- On a table that accepts every statement, the import of a file whose header has all the
    -- columns and whose rows can all be read ends without an exception, in a session with nothing
    -- pending.
    pub import_csv-completes :
        (file : CsvFile) (header : List String) (s : t.State)
        → L.IsClean s
        → (file.header_line == "") ≡ false
        → file.header ≡ ok header
        → missing required_fields (map strip header) ≡ []
        → readable t L json digit_of batch_size (file.rows (map strip header))
          ≡ length (file.rows (map strip header))
        → (p : Progress t.Datetime) × ((import_csv t json digit_of batch_size file s).0 ≡ ok p)
    unfolding import_csv flush_last
    import_csv-completes file header s clean there h complete all =
        elim (import_rows-from_start t L json digit_of batch_size s (file.rows (map strip header))
          (no_progress t json digit_of batch_size) s (fresh t L json digit_of batch_size s clean)) [
            | inl (e, failed, sound) ↦ absurd (
                import_rows-succeeds s (file.rows (map strip header)) [] 0
                  (no_progress t json digit_of batch_size) s e
                  (fresh t L json digit_of batch_size s clean) all failed)
            | inr (p, went, c) ↦ elim (Bool-cases (is_empty p.batch)) [
              | inl nothing ↦ (p, rw (there, h, complete, went, nothing) refl)
              | inr waiting ↦
                  elim (Result-cases
                    (flush t p
                      (import_rows t json digit_of batch_size (file.rows (map strip header))
                        (no_progress t json digit_of batch_size) s).1).0) [
                          | inl (e, failed) ↦ absurd (flush-succeeds p _ e c.clean failed)
                          | inr (p', flushed) ↦ (p', rw (there, h, complete, went, waiting) flushed)
                        ]
            ]
          ]

  missing-column :
      (column : String) (columns header : List String)
      → elem column columns ≡ true
      → elem column header ≡ false
      → is_empty (missing columns header) ≡ false
  missing-column column [] header there lacking = cc
  missing-column column (c ∷ columns) header there lacking =
      ground (arith, there, lacking, eq_iff c column, missing-column column columns header)

  -- A file whose header line is empty, or whose header lacks a required column, is refused with a
  -- `RuntimeError`, and the table is left as it was.
  pub import_csv-header :
      (file : CsvFile) (header : List String) (column : String) (s : t.State)
      → file.header ≡ ok header
      → ((file.header_line == "") ≡ true)
        ⊎ ((elem column required_fields ≡ true) × (elem column (map strip header) ≡ false))
      → import_csv t json digit_of batch_size file s ≡ (raise runtime_error, s)
  unfolding import_csv
  import_csv-header file header column s h (inl empty) = rw empty refl
  import_csv-header file header column s h (inr (needed, lacking)) =
      elim (Bool-cases (file.header_line == ""))
        as (λ o. import_csv t json digit_of batch_size file s ≡ (raise runtime_error, s)) [
          | inl empty ↦ rw empty refl
          | inr there ↦
              rw (there, h, missing-column column required_fields (map strip header) needed lacking)
                refl
        ]
