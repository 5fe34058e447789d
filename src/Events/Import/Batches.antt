-- ===== src/Events/Import/Batches.antt =====
-- Inserting one batch: what it makes of the table.
use events_api.Common.{
  ℕ, ◌+◌, ◌≤◌, String, ◌≡◌, refl, subst, ◌⊎◌, ◌||◌, List, [], ◌∷◌, ◌++◌, map, arith, length, elem,
  inl, inr, ◌==◌,
}
use events_api.Common.Result.{Exception, ok, raise, Result-cases}
use events_api.External.EventTable.{EventTable, EventTableLaws, NewEvent, uuid_of}
use events_api.Events.Import.{EventRow, payload_row, insert_batch}

pub elem-snoc :
    {A : Type 0} (f : A → String) (x : String) (xs : List A) (r : A)
    → elem x (map f (xs ++ (r ∷ []))) ≡ (elem x (map f xs) || (f r == x))
elem-snoc f x [] r = ground arith
elem-snoc f x (y ∷ ys) r = ground (arith, elem-snoc f x ys r)

module _ (t : EventTable) (L : EventTableLaws t) where
  -- The UUIDs of rows of the file.
  abbrev pub uuids : List (EventRow t.Datetime) → List String
  uuids rs = map (λ r. t.uuid r.event_id) rs

  uuids-payload :
      (rs : List (EventRow t.Datetime)) → map (uuid_of t) (map (payload_row t) rs) ≡ uuids rs
  uuids-payload [] = refl
  uuids-payload (r ∷ rs) = rw (uuids-payload rs) refl

  length-payload : (rs : List (EventRow t.Datetime)) → length (map (payload_row t) rs) ≡ length rs
  length-payload [] = refl
  length-payload (r ∷ rs) = omega (arith, length-payload rs)

  -- What inserting `n` of these rows has made of the table.
  pub record Grown (rs : List (EventRow t.Datetime)) (n : ℕ) (s s' : t.State) : Type 0 where
    pub clean : L.IsClean s'
    pub few : n ≤ length rs
    pub size : L.size s' ≡ L.size s + n
    pub stored : (x : String) → L.stored x s' ≡ (L.stored x s || elem x (uuids rs))

  -- Inserting a batch fails and leaves the table as it was, or grows it.
  abbrev pub Outcome : List (EventRow t.Datetime) → t.State → Type 0
  Outcome rs s =
      ((e : Exception) × ((insert_batch t rs s).0 ≡ raise e) × ((insert_batch t rs s).1 ≡ s))
      ⊎ ((n : ℕ) × ((insert_batch t rs s).0 ≡ ok n) × Grown rs n s (insert_batch t rs s).1)

  pub insert_batch-cases :
      (rs : List (EventRow t.Datetime)) (s : t.State) → L.IsClean s → Outcome rs s
  unfolding insert_batch
  insert_batch-cases [] s clean = inr (
    0,
    refl,
    record { clean = clean; few = omega arith; size = omega arith; stored = λ x. ground arith },
  )
  insert_batch-cases (r ∷ rs) s clean = elim (Result-cases (t.insert payload s).0) [
    | inl (e, failed) ↦
        inl (e, rw failed refl, rw failed (L.rollback-insert payload e s clean failed))
    | inr (ids, ran) ↦ elim (Result-cases (t.commit (t.insert payload s).1).0) [
      | inl (e, failed) ↦ inl (
        e,
        rw (ran, failed) refl,
        rw (ran, failed) (L.rollback-commit payload ids e s clean ran failed),
      )
      | inr (u, done) ↦
          let (distinct, few, which) = L.returned payload ids s clean ran in
          let (clean', grown, stored') = L.committed payload ids s clean ran done in
          inr (
            length ids,
            rw (ran, done) refl,
            rw (ran, done)
                (record {
                  clean = clean';
                  few = omega (arith, few, length-payload (r ∷ rs));
                  size = grown;
                  stored = λ x.
                      subst
                        (λ l.
                          L.stored x (t.commit (t.insert payload s).1).1
                          ≡ (L.stored x s || elem x l))
                        (uuids-payload (r ∷ rs)) (stored' x);
                }),
          )
    ]
  ]
    where
      payload : List (NewEvent t.Datetime)
      payload = map (payload_row t) (r ∷ rs)
