-- ===== src/Events/Import/Loop.antt =====
-- The loop of the import over the rows of the file.
use mathlib.Core.List.{append-nil, append_assoc}
use events_api.Common.{
  ℕ, suc, ◌+◌, ◌≡◌, refl, sym, ap, subst, Option, none, some, List, [], ◌∷◌, ◌++◌, arith, length,
  inl, inr, Bool-cases,
}
use events_api.Common.Int.{ℤ}
use events_api.Common.Result.{Result, ok, raise, Result-cases}
use events_api.External.Json.{JsonModule}
use events_api.External.EventTable.{EventTable, EventTableLaws}
use events_api.Events.Import.{
  CsvRow, EventRow, Progress, parse_row, append, read_line, reached, take_row, import_row,
  import_rows,
}
use events_api.Events.Import.Counters.{
  Counted, Step, flush-cases, Counted-append, Counted-read_line, Counted-Sound, Sound-more,
}

module _ (t : EventTable) (L : EventTableLaws t) (json : JsonModule) (digit_of : ℕ → Option ℕ)
    (batch_size : ℤ) where
  abbrev row_list : Option (EventRow t.Datetime) → List (EventRow t.Datetime)
  row_list none = []
  row_list (some r) = r ∷ []

  -- The rows that parse, up to the first that cannot be read; and the number of rows up to it.
  abbrev pub parsed_rows : List (Result CsvRow) → List (EventRow t.Datetime)
  parsed_rows [] = []
  parsed_rows (raise e ∷ rows) = []
  parsed_rows (ok row ∷ rows) = row_list (parse_row t json digit_of row) ++ parsed_rows rows

  abbrev pub readable : List (Result CsvRow) → ℕ
  readable [] = 0
  readable (raise e ∷ rows) = 0
  readable (ok row ∷ rows) = suc (readable rows)

  recount :
      (s0 s : t.State) (done done' : List (EventRow t.Datetime)) (read read' : ℕ)
      (p : Progress t.Datetime)
      → done ≡ done'
      → read ≡ read'
      → Counted t L s0 done read p s
      → Counted t L s0 done' read' p s
  recount s0 s done done' read read' p same same' c =
      subst (λ l. Counted t L s0 l read' p s) same (subst (λ n. Counted t L s0 done n p s) same' c)

  restep :
      (s0 : t.State) (done : List (EventRow t.Datetime)) (read read' : ℕ)
      (r : Result (Progress t.Datetime) × t.State)
      → read ≡ read'
      → Step t L s0 done read r
      → Step t L s0 done read' r
  restep s0 done read read' r same h = subst (λ n. Step t L s0 done n r) same h

  pub take_row-cases :
      (s0 : t.State) (done : List (EventRow t.Datetime)) (read : ℕ)
      (o : Option (EventRow t.Datetime)) (p : Progress t.Datetime) (s : t.State)
      → Counted t L s0 done read p s
      → Step t L s0 (done ++ row_list o) read (take_row t json digit_of batch_size o p s)
  unfolding take_row
  take_row-cases s0 done read none p s c =
      inr (p, refl, subst (λ l. Counted t L s0 l read p s) (sym (append-nil done)) c)
  take_row-cases s0 done read (some r) p s c =
      elim (Bool-cases (reached (length (append t r p).batch) batch_size))
        as (λ o.
          Step t L s0 (done ++ (r ∷ [])) read (take_row t json digit_of batch_size (some r) p s)) [
            | inl full ↦ rw full (flush-cases t L s0 (done ++ (r ∷ [])) read (append t r p) s more)
            | inr room ↦ rw room (inr (append t r p, refl, more))
          ]
    where
      more : Counted t L s0 (done ++ (r ∷ [])) read (append t r p) s
      more = Counted-append t L s0 done read p s r c

  pub import_rows-cases :
      (s0 : t.State) (rows : List (Result CsvRow)) (done : List (EventRow t.Datetime)) (read : ℕ)
      (p : Progress t.Datetime) (s : t.State)
      → Counted t L s0 done read p s
      → Step t L s0
          (done ++ parsed_rows rows)
          (read + readable rows)
          (import_rows t json digit_of batch_size rows p s)
  unfolding import_rows import_row
  import_rows-cases s0 [] done read p s c = inr (
    p,
    refl,
    recount s0 s done (done ++ []) read (read + 0) p (sym (append-nil done)) (omega arith) c,
  )
  import_rows-cases s0 (raise e ∷ rows) done read p s c =
      inl (e, refl, Sound-more t L s0 s done [] (Counted-Sound t L s0 s done read p c))
  import_rows-cases s0 (ok row ∷ rows) done read p s c =
      elim (take_row-cases s0 done (suc read) (parse_row t json digit_of row) (read_line t p) s
          (Counted-read_line t L s0 done read p s c))
        as (λ o.
          Step t L s0 (done ++ parsed_rows (ok row ∷ rows)) (read + suc (readable rows))
            (import_rows t json digit_of batch_size (ok row ∷ rows) p s)) [
              | inl (e, failed, sound) ↦ inl (
                e,
                rw failed refl,
                rw
                    (
                      failed,
                      sym (
                          append_assoc done (row_list (parse_row t json digit_of row))
                            (parsed_rows rows)),
                    )
                    (Sound-more t L s0 _ _ (parsed_rows rows) sound),
              )
              | inr (p', went, c') ↦
                  rw
                    (
                      went,
                      sym (
                          append_assoc done (row_list (parse_row t json digit_of row))
                            (parsed_rows rows)),
                    )
                    (restep s0 _ (suc read + readable rows) (read + suc (readable rows)) _
                      (omega arith)
                      (import_rows-cases s0 rows (done ++ row_list (parse_row t json digit_of row))
                        (suc read) p' _ c'))
            ]

  -- The same from the first row on.
  pub import_rows-from_start :
      (s0 : t.State) (rows : List (Result CsvRow)) (p : Progress t.Datetime) (s : t.State)
      → Counted t L s0 [] 0 p s
      → Step t L s0
          (parsed_rows rows)
          (readable rows)
          (import_rows t json digit_of batch_size rows p s)
  import_rows-from_start s0 rows p s c =
      restep s0 (parsed_rows rows) (0 + readable rows) (readable rows) _ (omega arith)
        (import_rows-cases s0 rows [] 0 p s c)

  -- A loop that ends without an exception has read every row.
  pub import_rows-reads :
      (rows : List (Result CsvRow)) (p p' : Progress t.Datetime) (s : t.State)
      → (import_rows t json digit_of batch_size rows p s).0 ≡ ok p'
      → readable rows ≡ length rows
  unfolding import_rows
  import_rows-reads [] p p' s h = refl
  import_rows-reads (raise e ∷ rows) p p' s h = cc
  import_rows-reads (ok row ∷ rows) p p' s h =
      elim (Result-cases (import_row t json digit_of batch_size row p s).0) [
        | inl (e, failed) ↦ cc
        | inr (p'', went) ↦ ap suc (
            import_rows-reads rows p'' p' (import_row t json digit_of batch_size row p s).1
              (rw went at h))
      ]
