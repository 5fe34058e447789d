-- ===== src/Events/Import/Counters.antt =====
-- The counters of the import and the table, step by step.
use events_api.Common.{
  ℕ, suc, ◌+◌, ◌-◌, String, ◌≡◌, refl, true, ◌||◌, List, [], ◌∷◌, ◌++◌, arith, length,
  length-append, elem, inl, inr, ◌⊎◌,
}
use events_api.Common.Result.{Exception, Result, ok, raise}
use events_api.External.EventTable.{EventTable, EventTableLaws}
use events_api.Events.Import.{EventRow, Progress, flush, append, read_line}
use events_api.Events.Import.Batches.{elem-snoc, uuids, insert_batch-cases}

module _ (t : EventTable) (L : EventTableLaws t) where
  -- The counters and the table when `read` rows are read and `done` are those that parsed, in an
  -- import that found the table as `s0`.
  pub record Counted (s0 : t.State) (done : List (EventRow t.Datetime)) (read : ℕ)
      (p : Progress t.Datetime) (s : t.State) : Type 0 where
    pub clean : L.IsClean s
    pub lines : p.total_read_lines ≡ read
    pub parsed : p.total_parsed_lines ≡ length done
    pub balance : p.total_inserted_lines + p.duplicate_lines + length p.batch ≡ p.total_parsed_lines
    pub size : L.size s ≡ L.size s0 + p.total_inserted_lines
    pub kept : (x : String) → L.stored x s0 ≡ true → L.stored x s ≡ true
    pub stored :
        (x : String)
        → (L.stored x s || elem x (uuids t L p.batch)) ≡ (L.stored x s0 || elem x (uuids t L done))

  -- The table has what it had, and nothing but that and some of these rows.
  pub record Sound (s0 : t.State) (done : List (EventRow t.Datetime)) (s : t.State) : Type 0 where
    pub clean : L.IsClean s
    pub kept : (x : String) → L.stored x s0 ≡ true → L.stored x s ≡ true
    pub only :
        (x : String) → L.stored x s ≡ true → (L.stored x s0 || elem x (uuids t L done)) ≡ true

  -- A part of the import fails and leaves a sound table, or counts.
  abbrev pub Step :
      t.State → List (EventRow t.Datetime) → ℕ → Result (Progress t.Datetime) × t.State → Type 0
  Step s0 done read r =
      ((e : Exception) × (r.0 ≡ raise e) × Sound s0 done r.1)
      ⊎ ((p : Progress t.Datetime) × (r.0 ≡ ok p) × Counted s0 done read p r.1)

  uuids-append :
      (x : String) (rs rs' : List (EventRow t.Datetime))
      → elem x (uuids t L (rs ++ rs')) ≡ (elem x (uuids t L rs) || elem x (uuids t L rs'))
  uuids-append x [] rs' = refl
  uuids-append x (r ∷ rs) rs' = ground (arith, uuids-append x rs rs')

  pub Sound-more :
      (s0 s : t.State) (done more : List (EventRow t.Datetime))
      → Sound s0 done s
      → Sound s0 (done ++ more) s
  Sound-more s0 s done more h = record {
    clean = h.clean;
    kept = h.kept;
    only = λ x there. ground (arith, h.only x there, uuids-append x done more);
  }

  -- While a batch waits, the table may lack its rows; what is stored is still of the rows read.
  pub Counted-Sound :
      (s0 s : t.State) (done : List (EventRow t.Datetime)) (read : ℕ) (p : Progress t.Datetime)
      → Counted s0 done read p s
      → Sound s0 done s
  Counted-Sound s0 s done read p c = record {
    clean = c.clean;
    kept = λ x there. c.kept x there;
    only = λ x there. ground (arith, c.stored x, there);
  }

  module _ (s0 : t.State) (done : List (EventRow t.Datetime)) (read : ℕ) where
    pub flush-cases :
        (p : Progress t.Datetime) (s : t.State)
        → Counted s0 done read p s
        → Step s0 done read (flush t p s)
    unfolding flush
    flush-cases p s c =
        elim (insert_batch-cases t L p.batch s c.clean) as (λ o. Step s0 done read (flush t p s)) [
          | inl (e, failed, same) ↦
              inl (e, rw failed refl, rw (failed, same) (Counted-Sound s0 s done read p c))
          | inr (n, ran, g) ↦ inr (
            record {
              total_read_lines = p.total_read_lines;
              total_parsed_lines = p.total_parsed_lines;
              total_inserted_lines = p.total_inserted_lines + n;
              duplicate_lines = p.duplicate_lines + (length p.batch - n);
              batch = [];
            },
            rw ran refl,
            rw ran (record {
              clean = g.clean;
              lines = c.lines;
              parsed = c.parsed;
              balance = omega (arith, c.balance, g.few);
              size = omega (arith, c.size, g.size);
              kept = λ x there. ground (arith, g.stored x, c.kept x there);
              stored = λ x. ground (arith, g.stored x, c.stored x);
            }),
          )
        ]

    pub Counted-append :
        (p : Progress t.Datetime) (s : t.State) (r : EventRow t.Datetime)
        → Counted s0 done read p s
        → Counted s0 (done ++ (r ∷ [])) read (append t r p) s
    unfolding append
    Counted-append p s r c = record {
      clean = c.clean;
      lines = c.lines;
      parsed = omega (arith, c.parsed, length-append done (r ∷ []));
      balance = omega (arith, c.balance, length-append p.batch (r ∷ []));
      size = c.size;
      kept = c.kept;
      stored = λ x.
          rw
            (
              elem-snoc (λ r. t.uuid r.event_id) x p.batch r,
              elem-snoc (λ r. t.uuid r.event_id) x done r,
            )
            (ground (arith, c.stored x));
    }

    pub Counted-read_line :
        (p : Progress t.Datetime) (s : t.State)
        → Counted s0 done read p s
        → Counted s0 done (suc read) (read_line t p) s
    unfolding read_line
    Counted-read_line p s c = record {
      clean = c.clean;
      lines = omega (arith, c.lines);
      parsed = c.parsed;
      balance = c.balance;
      size = c.size;
      kept = c.kept;
      stored = c.stored;
    }
