-- ===== src/Events/Routers.antt =====
-- src/endpoint_events/routers.py and schemas.py: `POST /events/`. The check of the fields' types is
-- pydantic's; an event arrives with its UUID in standard form.
pub mod Intake
use Prim.Native.String.{count}
use events_api.Common.{
  String, Bool, true, false, not, Option, none, some, List, [], ◌∷◌, map, leb, if◌then◌else◌,
  is_empty,
}
use events_api.Common.Int.{ℤ}
use events_api.Common.Result.{Result, ok, raise}
use events_api.Common.Sets.{dedupe, difference}
use events_api.External.Json.{Members}
use events_api.External.EventTable.{NewEvent, EventTable}
use events_api.Metrics.{Metrics, record_event}

pub record EventBase (D : Type 0) : Type 0 where
  pub event_id : String
  pub occurred_at : D
  pub user_id : ℤ
  pub event_type : String
  pub properties : Members

-- `Field(..., max_length=100)`
unfoldable pub fits_event_type : String → Bool
fits_event_type event_type = leb (count event_type) 100

pub record EventsOut : Type 0 where
  pub inserted : List String
  pub duplicates : List String

module _ (t : EventTable) where
  pub record EventWorld : Type 0 where
    pub table : t.State
    pub metrics : Metrics

  -- `event.model_dump()`
  abbrev pub model_dump : EventBase t.Datetime → NewEvent t.Datetime
  model_dump e = record {
    event_id = e.event_id;
    occurred_at = e.occurred_at;
    user_id = e.user_id;
    event_type = e.event_type;
    properties = e.properties;
  }

  abbrev pub id_of : EventBase t.Datetime → String
  id_of e = e.event_id

  -- `list(inserted_ids)` and `list(duplicates_ids)`
  abbrev pub events_out : List (EventBase t.Datetime) → List String → EventsOut
  events_out events rows = record {
    inserted = dedupe rows;
    duplicates = difference (dedupe (map id_of events)) (dedupe rows);
  }

  abbrev count_main : Metrics → Metrics
  count_main = record_event (some (("name", "events_main") ∷ []))

  -- `await db.commit()` and what follows it
  abbrev answer :
      List (EventBase t.Datetime)
      → List String
      → Result (Unit {0}) × t.State
      → Metrics
      → Result EventsOut × EventWorld
  answer events rows (raise e, s) m = (raise e, record { table = s; metrics = m })
  answer events rows (ok u, s) m =
      (ok (events_out events rows), record { table = s; metrics = count_main m })

  abbrev executed :
      List (EventBase t.Datetime)
      → Result (List String) × t.State
      → Metrics
      → Result EventsOut × EventWorld
  executed events (raise e, s) m = (raise e, record { table = s; metrics = m })
  executed events (ok rows, s) m = answer events rows (t.commit s) m

  unfoldable pub add_unique_events :
      List (EventBase t.Datetime) → EventWorld → Result EventsOut × EventWorld
  add_unique_events [] w = (ok (record { inserted = []; duplicates = [] }), w)
  add_unique_events (e ∷ es) w =
      executed (e ∷ es) (t.insert (map model_dump (e ∷ es)) w.table) w.metrics
