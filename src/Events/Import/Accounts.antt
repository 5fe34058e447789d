-- ===== src/Events/Import/Accounts.antt =====
-- What the import of a CSV file reports, and the table after it.
use events_api.Common.{
  ℕ, ◌+◌, String, ◌≡◌, refl, sym, ap, ◌∙◌, subst, true, false, ◌||◌, Option, List, [], ◌∷◌, map,
  arith, length, elem, is_empty, inl, inr, Bool-cases, ◌==◌, ◌⊎◌,
}
use events_api.Common.Int.{ℤ}
use events_api.Common.Text.{strip}
use events_api.Common.Result.{
  Exception, Result, ok, raise, runtime_error, Result-cases, ok-injective,
}
use events_api.External.Json.{JsonModule}
use events_api.External.EventTable.{EventTable, EventTableLaws}
use events_api.Events.Import.{
  CsvRow, CsvFile, EventRow, Progress, insert_batch, flush, missing, required_fields, import_rows,
  no_progress, flush_last, import_csv,
}
use events_api.Events.Import.Batches.{uuids}
use events_api.Events.Import.Counters.{Counted, Sound, flush-cases, Counted-Sound}
use events_api.Events.Import.Loop.{parsed_rows, readable, import_rows-reads, import_rows-from_start}

is_empty→nil : {A : Type 0} (xs : List A) → is_empty xs ≡ true → xs ≡ []
is_empty→nil [] h = refl
is_empty→nil (x ∷ xs) h = ground (arith, h)

module _ (t : EventTable) (L : EventTableLaws t) (json : JsonModule) (digit_of : ℕ → Option ℕ)
    (batch_size : ℤ) where
  -- The import, its counters at the end and the table after it.
  abbrev import : CsvFile → t.State → Result (Progress t.Datetime) × t.State
  import = import_csv t json digit_of batch_size

  -- A step after which no batch waits.
  abbrev Done :
      t.State → List (EventRow t.Datetime) → ℕ → Result (Progress t.Datetime) × t.State → Type 0
  Done s0 done read r =
      ((e : Exception) × (r.0 ≡ raise e) × Sound t L s0 done r.1)
      ⊎ ((p : Progress t.Datetime) × (r.0 ≡ ok p) × Counted t L s0 done read p r.1 × (p.batch ≡ []))

  flush-empties :
      (p p' : Progress t.Datetime) (s : t.State) → (flush t p s).0 ≡ ok p' → p'.batch ≡ []
  unfolding flush
  flush-empties p p' s h = elim (Result-cases (insert_batch t p.batch s).0) [
    | inl (e, failed) ↦ ground (arith, h, failed)
    | inr (n, ran) ↦ ground (arith, h, ran)
  ]

  flush_last-cases :
      (s0 s : t.State) (done : List (EventRow t.Datetime)) (read : ℕ) (p : Progress t.Datetime)
      → Counted t L s0 done read p s
      → Done s0 done read (flush_last t json digit_of batch_size p s)
  unfolding flush_last
  flush_last-cases s0 s done read p c =
      elim (Bool-cases (is_empty p.batch))
        as (λ o. Done s0 done read (flush_last t json digit_of batch_size p s)) [
          | inl nothing ↦ rw nothing (inr (p, refl, c, is_empty→nil p.batch nothing))
          | inr waiting ↦
              rw waiting
                (elim (flush-cases t L s0 done read p s c)
                  as (λ o. Done s0 done read (flush t p s)) [
                    | inl (e, failed, sound) ↦ inl (e, failed, sound)
                    | inr (p', went, c') ↦ inr (p', went, c', flush-empties p p' s went)
                  ])
        ]

  unchanged : (s : t.State) (done : List (EventRow t.Datetime)) → L.IsClean s → Sound t L s done s
  unchanged s done clean = record {
    clean = clean;
    kept = λ x h. h;
    only = λ x there. ground (arith, there);
  }

  pub fresh :
      (s : t.State) → L.IsClean s → Counted t L s [] 0 (no_progress t json digit_of batch_size) s
  fresh s clean = record {
    clean = clean;
    lines = refl;
    parsed = refl;
    balance = omega arith;
    size = omega arith;
    kept = λ x h. h;
    stored = λ x. refl;
  }

  import_csv-cases :
      (file : CsvFile) (header : List String) (s : t.State)
      → L.IsClean s
      → file.header ≡ ok header
      → Done s
          (parsed_rows t L json digit_of batch_size (file.rows (map strip header)))
          (readable t L json digit_of batch_size (file.rows (map strip header)))
          (import file s)
  unfolding import_csv
  import_csv-cases file header s clean h =
      elim (Bool-cases (file.header_line == "")) as (λ o. Outcome) [
        | inl empty ↦ rw empty (inl (runtime_error, refl, unchanged s done clean))
        | inr there ↦
            elim (Bool-cases (is_empty (missing required_fields (map strip header))))
              as (λ o. Outcome) [
                | inr lacking ↦
                    rw (there, h, lacking) (inl (runtime_error, refl, unchanged s done clean))
                | inl complete ↦
                    elim (import_rows-from_start t L json digit_of batch_size s
                        (file.rows (map strip header)) (no_progress t json digit_of batch_size) s
                        (fresh s clean))
                      as (λ o. Outcome) [
                        | inl (e, failed, sound) ↦
                            rw (there, h, complete, failed) (inl (e, refl, sound))
                        | inr (p, went, c) ↦
                            rw (there, h, complete, went) (flush_last-cases s _ done _ p c)
                      ]
              ]
      ]
    where
      done : List (EventRow t.Datetime)
      done = parsed_rows t L json digit_of batch_size (file.rows (map strip header))

      Outcome : Type 0
      Outcome =
          Done s done (readable t L json digit_of batch_size (file.rows (map strip header)))
            (import file s)

  import_csv-reads :
      (file : CsvFile) (header : List String) (s : t.State) (p : Progress t.Datetime)
      → file.header ≡ ok header
      → (import_csv t json digit_of batch_size file s).0 ≡ ok p
      → readable t L json digit_of batch_size (file.rows (map strip header))
        ≡ length (file.rows (map strip header))
  unfolding import_csv
  import_csv-reads file header s p h success = elim (Bool-cases (file.header_line == "")) [
    | inl empty ↦ let bad = rw empty at success in cc
    | inr there ↦ elim (Bool-cases (is_empty (missing required_fields (map strip header)))) [
      | inr lacking ↦ let bad = rw (there, h, lacking) at success in cc
      | inl complete ↦
          elim (Result-cases
            (import_rows t json digit_of batch_size (file.rows (map strip header))
              (no_progress t json digit_of batch_size) s).0) [
                | inl (e, failed) ↦ let bad = rw (there, h, complete, failed) at success in cc
                | inr (p', went) ↦
                    import_rows-reads t L json digit_of batch_size (file.rows (map strip header))
                      (no_progress t json digit_of batch_size) p' s went
              ]
    ]
  ]

  nothing_waits :
      (x : String) (rs : List (EventRow t.Datetime)) → rs ≡ [] → elem x (uuids t L rs) ≡ false
  nothing_waits x rs empty = rw empty refl

  -- What a successful import of rows reports, and what it has made of the table.
  pub record Imported (rows : List (Result CsvRow)) (s : t.State) (p : Progress t.Datetime)
      (s' : t.State) : Type 0 where
    pub read : p.total_read_lines ≡ length rows
    pub parsed : p.total_parsed_lines ≡ length (parsed_rows t L json digit_of batch_size rows)
    pub balance : p.total_inserted_lines + p.duplicate_lines ≡ p.total_parsed_lines
    pub grown : L.size s' ≡ L.size s + p.total_inserted_lines
    pub stored :
        (x : String)
        → L.stored x s'
          ≡ (L.stored x s || elem x (uuids t L (parsed_rows t L json digit_of batch_size rows)))

  -- An import that ends without an exception, in a session with nothing pending, of a file whose
  -- header has these columns, reports how many rows it read and how many of them parsed; the
  -- inserted and the duplicates it reports add up to the parsed; the table has grown by as many
  -- rows as were inserted, and has the ids that it had and those of the rows that parsed, and no
  -- others, whatever the batch size.
  pub import_csv-accounts :
      (file : CsvFile) (header : List String) (s : t.State) (p : Progress t.Datetime)
      → L.IsClean s
      → file.header ≡ ok header
      → (import_csv t json digit_of batch_size file s).0 ≡ ok p
      → Imported (file.rows (map strip header)) s p (import_csv t json digit_of batch_size file s).1
  import_csv-accounts file header s p clean h success =
      elim (import_csv-cases file header s clean h) [
        | inl (e, failed, sound) ↦ cc
        | inr (p', went, c, empty) ↦
            subst
              (λ q.
                Imported (file.rows (map strip header)) s q
                  (import_csv t json digit_of batch_size file s).1)
              (ok-injective (sym went ∙ success))
              (record {
                read = c.lines ∙ import_csv-reads file header s p h success;
                parsed = c.parsed;
                balance = omega (arith, c.balance, ap length empty);
                grown = c.size;
                stored = λ x. ground (arith, c.stored x, nothing_waits x p'.batch empty);
              })
      ]

  -- What an import of rows that raised has made of the table.
  abbrev pub Aborted : List (Result CsvRow) → t.State → t.State → Type 0
  Aborted rows s s' =
      (x : String)
      → (L.stored x s ≡ true → L.stored x s' ≡ true)
        × (L.stored x s' ≡ true
            → (L.stored x s || elem x (uuids t L (parsed_rows t L json digit_of batch_size rows)))
              ≡ true)

  -- An import that raises, in a session with nothing pending, of a file whose header has these
  -- columns, has taken no id from the table, and has added only ids of rows of the file that parse.
  pub import_csv-aborts :
      (file : CsvFile) (header : List String) (s : t.State) (e : Exception)
      → L.IsClean s
      → file.header ≡ ok header
      → (import_csv t json digit_of batch_size file s).0 ≡ raise e
      → Aborted (file.rows (map strip header)) s (import_csv t json digit_of batch_size file s).1
  import_csv-aborts file header s e clean h failure x =
      elim (import_csv-cases file header s clean h) [
        | inl (e', failed, sound) ↦ (sound.kept x, sound.only x)
        | inr (p', went, c, empty) ↦ (c.kept x, (Counted-Sound t L s _ _ _ p' c).only x)
      ]
