-- ===== src/Samples/MemoryEvents.antt =====
-- A table of events as the list of its ids; a statement takes effect when it is committed.
use events_api.Common.{
  ◌≤◌, String, ◌≡◌, refl, ap, not, ◌&&◌, ◌||◌, Option, none, some, List, [], ◌∷◌, ◌++◌, map, arith,
  length, length-append, elem, Distinct, subst, ◌≢◌, ◌==◌, if◌then◌else◌,
}
use events_api.Common.Sets.{
  dedupe, difference, elem-dedupe, dedupe-Distinct, elem-difference, difference-Distinct,
  elem-append,
}
use events_api.Common.Result.{Exception, ok, raise, ok-injective}
use events_api.External.EventTable.{EventTable, EventTableLaws, NewEvent}

pub record Rows : Type 0 where
  pub ids : List String
  pub pending : List String

abbrev pub ids_of : List (NewEvent String) → List String
ids_of = map (λ e. e.event_id)

abbrev pub new_ids : List String → List String → List String
new_ids ids stored = difference (dedupe ids) stored

-- A time is its text, and no text is refused but the empty one.
abbrev pub time : String → Option String
time s = if s == "" then none else some s

abbrev pub memory_events : EventTable
memory_events = record {
  Datetime = String;
  fromisoformat = time;
  uuid = λ x. x;
  State = Rows;
  insert = λ rows s.
      (ok (new_ids (ids_of rows) s.ids), record s { pending = new_ids (ids_of rows) s.ids });
  commit = λ s. (ok tt, record { ids = s.pending ++ s.ids; pending = [] });
  rollback = λ s. record s { pending = [] };
}

pub ok-ne-raise : {A : Type 0} {a : A} {e : Exception} → ok a ≢ raise e
ok-ne-raise h = cc

pub length-dedupe : (xs : List String) → length (dedupe xs) ≤ length xs
unfolding dedupe
length-dedupe [] = omega arith
length-dedupe (x ∷ xs) = ground (arith, length-dedupe xs)

pub length-difference : (xs ys : List String) → length (difference xs ys) ≤ length xs
unfolding difference
length-difference [] ys = omega arith
length-difference (x ∷ xs) ys = ground (arith, length-difference xs ys)

pub length-ids_of : (rows : List (NewEvent String)) → length (ids_of rows) ≡ length rows
length-ids_of [] = refl
length-ids_of (r ∷ rs) = omega (arith, length-ids_of rs)

pub elem-new_ids :
    (x : String) (ids stored : List String)
    → elem x (new_ids ids stored) ≡ (elem x ids && not (elem x stored))
elem-new_ids x ids stored = rw (elem-difference x (dedupe ids) stored, elem-dedupe x ids) refl

pub elem-stored :
    (x : String) (ids stored : List String)
    → elem x (new_ids ids stored ++ stored) ≡ (elem x stored || elem x ids)
elem-stored x ids stored =
    ground (arith, elem-append x (new_ids ids stored) stored, elem-new_ids x ids stored)

abbrev pub memory_events_laws : EventTableLaws memory_events
memory_events_laws = record {
  uuid-uuid = λ x. refl;
  IsClean = λ s. s.pending ≡ [];
  stored = λ x s. elem x s.ids;
  size = λ s. length s.ids;
  returned = λ rows ids s clean ran.
      subst
        (λ l.
          Distinct l
          × (length l ≤ length rows)
          × ((x : String) → elem x l ≡ (elem x (ids_of rows) && not (elem x s.ids))))
        (ok-injective ran)
        (
          difference-Distinct (dedupe (ids_of rows)) s.ids (dedupe-Distinct (ids_of rows)),
          omega (
            arith,
            length-difference (dedupe (ids_of rows)) s.ids,
            length-dedupe (ids_of rows),
            length-ids_of rows,
          ),
          λ x. elem-new_ids x (ids_of rows) s.ids,
        );
  committed = λ rows ids s clean ran done. (
    refl,
    omega (arith, length-append (new_ids (ids_of rows) s.ids) s.ids, ap length (ok-injective ran)),
    λ x. elem-stored x (ids_of rows) s.ids,
  );
  rollback-insert = λ rows e s clean failed. absurd (ok-ne-raise failed);
  rollback-commit = λ rows ids e s clean ran failed. absurd (ok-ne-raise failed);
}
