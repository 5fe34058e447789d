-- ===== src/Events/Routers/Intake.antt =====
-- What `POST /events/` answers and stores.
use events_api.Common.{
  String, ◌≡◌, refl, subst, Bool, false, not, ◌&&◌, ◌||◌, List, [], ◌∷◌, map, arith, elem, Distinct,
  elem-none→nil,
}
use events_api.Common.Result.{ok}
use events_api.Common.Sets.{
  dedupe, difference, elem-dedupe, dedupe-Distinct, elem-difference, difference-Distinct,
}
use events_api.External.EventTable.{EventTable, EventTableLaws, uuid_of}
use events_api.Events.Routers.{
  EventBase, EventsOut, EventWorld, add_unique_events, model_dump, id_of, events_out,
}

none_new : (a b : Bool) {c i : Bool} → i ≡ (a && not c) → c ≡ (b || a) → i ≡ false
none_new a b h k = ground arith

all_old : (a b : Bool) {c i : Bool} → i ≡ (a && c) → c ≡ (b || a) → i ≡ a
all_old a b h k = ground arith

still : (a b : Bool) {c d : Bool} → d ≡ (c || a) → c ≡ (b || a) → d ≡ c
still a b h k = ground arith

module _ (t : EventTable) (L : EventTableLaws t) where
  abbrev pub input_ids : List (EventBase t.Datetime) → List String
  input_ids = map (id_of t)

  -- Every event carries its UUID in standard form.
  abbrev pub AllStandard : List (EventBase t.Datetime) → Type 0
  AllStandard [] = Unit
  AllStandard (e ∷ es) = (t.uuid e.event_id ≡ e.event_id) × AllStandard es

  uuids-dumped :
      (es : List (EventBase t.Datetime))
      → AllStandard es
      → map (uuid_of t) (map (model_dump t) es) ≡ input_ids es
  uuids-dumped [] h = refl
  uuids-dumped (e ∷ es) h = rw (h.0, uuids-dumped es h.1) refl

  -- What the answer to a request lists, and the table after it.
  abbrev pub Partitioned :
      EventBase t.Datetime → List (EventBase t.Datetime) → EventWorld t → Type 0
  Partitioned e es w =
      (out : EventsOut) × ((add_unique_events t (e ∷ es) w).0 ≡ ok out)
      × Distinct out.inserted
      × Distinct out.duplicates
      × ((x : String)
          → (elem x out.inserted ≡ (elem x (input_ids (e ∷ es)) && not (L.stored x w.table)))
            × (elem x out.duplicates ≡ (elem x (input_ids (e ∷ es)) && L.stored x w.table))
            × (L.stored x (add_unique_events t (e ∷ es) w).1.table
                ≡ (L.stored x w.table || elem x (input_ids (e ∷ es)))))

  -- The state of the table once the statement for these events is committed.
  abbrev pub table_after : List (EventBase t.Datetime) → t.State → t.State
  table_after es s = (t.commit (t.insert (map (model_dump t) es) s).1).1

  module _ (e : EventBase t.Datetime) (es : List (EventBase t.Datetime)) (w : EventWorld t)
      (standard : AllStandard (e ∷ es)) (clean : L.IsClean w.table) (ids : List String)
      (ran : (t.insert (map (model_dump t) (e ∷ es)) w.table).0 ≡ ok ids)
      (done : (t.commit (t.insert (map (model_dump t) (e ∷ es)) w.table).1).0 ≡ ok tt) where
    new_ids : (x : String) → elem x ids ≡ (elem x (input_ids (e ∷ es)) && not (L.stored x w.table))
    new_ids x =
        subst (λ l. elem x ids ≡ (elem x l && not (L.stored x w.table)))
          (uuids-dumped (e ∷ es) standard)
          ((L.returned (map (model_dump t) (e ∷ es)) ids w.table clean ran).2 x)

    kept_ids :
        (x : String)
        → L.stored x (table_after (e ∷ es) w.table)
          ≡ (L.stored x w.table || elem x (input_ids (e ∷ es)))
    kept_ids x =
        subst (λ l. L.stored x (table_after (e ∷ es) w.table) ≡ (L.stored x w.table || elem x l))
          (uuids-dumped (e ∷ es) standard)
          ((L.committed (map (model_dump t) (e ∷ es)) ids w.table clean ran done).2 x)

    inserted_ids :
        (x : String)
        → elem x (dedupe ids) ≡ (elem x (input_ids (e ∷ es)) && not (L.stored x w.table))
    inserted_ids x = rw (elem-dedupe x ids) (new_ids x)

    duplicate_ids :
        (x : String)
        → elem x (difference (dedupe (input_ids (e ∷ es))) (dedupe ids))
          ≡ (elem x (input_ids (e ∷ es)) && L.stored x w.table)
    duplicate_ids x =
        rw
          (
            elem-difference x (dedupe (input_ids (e ∷ es))) (dedupe ids),
            elem-dedupe x (input_ids (e ∷ es)),
            inserted_ids x,
          )
          (ground arith)

    -- A request with one event at least, whose ids are in standard form, is answered when nothing
    -- is pending in its session and its statement and its commit succeed. Each id that was sent is
    -- listed once: as inserted if the table did not have it, and as a duplicate if it did; nothing
    -- else is listed. The table then has what it had and all that was sent, and nothing more.
    pub add_unique_events-partition : Partitioned e es w
    unfolding add_unique_events
    add_unique_events-partition = (
      events_out t (e ∷ es) ids,
      rw (ran, done) refl,
      dedupe-Distinct ids,
      difference-Distinct (dedupe (input_ids (e ∷ es))) (dedupe ids)
          (dedupe-Distinct (input_ids (e ∷ es))),
      λ x. (inserted_ids x, duplicate_ids x, rw (ran, done) (kept_ids x)),
    )

    table-clean : L.IsClean (add_unique_events t (e ∷ es) w).1.table
    unfolding add_unique_events
    table-clean =
        rw (ran, done) ((L.committed (map (model_dump t) (e ∷ es)) ids w.table clean ran done).0)

  -- The statement and the commit for these events succeed in this state of the table.
  abbrev pub Runs : List (EventBase t.Datetime) → List String → t.State → Type 0
  Runs es ids s =
      ((t.insert (map (model_dump t) es) s).0 ≡ ok ids)
      × ((t.commit (t.insert (map (model_dump t) es) s).1).0 ≡ ok tt)

  -- What the answer to a repeated request lists, and the table after it.
  abbrev pub Repeated : EventBase t.Datetime → List (EventBase t.Datetime) → EventWorld t → Type 0
  Repeated e es w =
      (out : EventsOut) × ((add_unique_events t (e ∷ es) (add_unique_events t (e ∷ es) w).1).0
        ≡ ok out)
      × (out.inserted ≡ [])
      × ((x : String)
          → (elem x out.duplicates ≡ elem x (input_ids (e ∷ es)))
            × (L.stored x (add_unique_events t (e ∷ es) (add_unique_events t (e ∷ es) w).1).1.table
                ≡ L.stored x (add_unique_events t (e ∷ es) w).1.table))

  -- A request with one event at least, whose ids are in standard form, and whose statement and
  -- commit succeeded in a session with nothing pending, is sent a second time, and its statement
  -- and commit succeed again. It is then answered: it inserts nothing, its duplicates are the ids
  -- that were sent, and it leaves the ids of the table as they were.
  pub add_unique_events-again :
      (e : EventBase t.Datetime) (es : List (EventBase t.Datetime)) (w : EventWorld t)
      (ids ids' : List String)
      → AllStandard (e ∷ es)
      → L.IsClean w.table
      → Runs (e ∷ es) ids w.table
      → Runs (e ∷ es) ids' (add_unique_events t (e ∷ es) w).1.table
      → Repeated e es w
  add_unique_events-again e es w ids ids' standard clean (ran, done) (ran', done') =
      let once = add_unique_events-partition e es w standard clean ids ran done in
      let (out, answered, d, d', lists) =
        add_unique_events-partition e es (add_unique_events t (e ∷ es) w).1 standard
          (table-clean e es w standard clean ids ran done) ids' ran' done' in
      (
        out,
        answered,
        elem-none→nil out.inserted (λ x.
            none_new (elem x (input_ids (e ∷ es))) (L.stored x w.table) (lists x).0 (once.4 x).2),
        λ x. (
          all_old (elem x (input_ids (e ∷ es))) (L.stored x w.table) (lists x).1 (once.4 x).2,
          still (elem x (input_ids (e ∷ es))) (L.stored x w.table) (lists x).2 (once.4 x).2,
        ),
      )
