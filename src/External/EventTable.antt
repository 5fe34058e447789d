-- ===== src/External/EventTable.antt =====
-- The table of events as SQLAlchemy over PostgreSQL offers it.
use events_api.Common.{
  ℕ, ◌+◌, ◌≤◌, String, ◌≡◌, Bool, not, ◌&&◌, ◌||◌, Option, List, map, length, elem, Distinct,
}
use events_api.Common.Int.{ℤ}
use events_api.Common.Result.{Exception, Result, ok, raise}
use events_api.External.Json.{Members}

-- The values of one row of an `INSERT`; `D` is the type of the timestamps.
pub record NewEvent (D : Type 0) : Type 0 where
  pub event_id : String
  pub occurred_at : D
  pub user_id : ℤ
  pub event_type : String
  pub properties : Members

-- A `UUID` is its standard text; `uuid` is the standard text of the UUID that a text denotes.
-- `insert` is `pg_insert(Events).values(…).on_conflict_do_nothing(index_elements=["event_id"])
-- .returning(Events.event_id)`, executed; `commit` and `rollback` end its transaction.
pub record EventTable : Type 1 where
  pub Datetime : Type 0
  pub fromisoformat : String → Option Datetime
  pub uuid : String → String
  pub State : Type 0
  pub insert : List (NewEvent Datetime) → State → Result (List String) × State
  pub commit : State → Result (Unit {0}) × State
  pub rollback : State → State

module _ (t : EventTable) where
  -- the UUIDs of the rows
  abbrev pub uuid_of : NewEvent t.Datetime → String
  uuid_of e = t.uuid e.event_id

  -- A statement that runs in a session with nothing pending, and the commit after it.
  pub record EventTableLaws : Type 1 where
    pub uuid-uuid : (x : String) → t.uuid (t.uuid x) ≡ t.uuid x
    -- nothing is pending
    pub IsClean : t.State → Type 0
    -- whether the table has a row of this id, and the number of its rows
    pub stored : String → t.State → Bool
    pub size : t.State → ℕ
    -- a statement that is executed returns, each once, the ids that are new
    pub returned :
        (rows : List (NewEvent t.Datetime)) (ids : List String) (s : t.State)
        → IsClean s
        → (t.insert rows s).0 ≡ ok ids
        → Distinct ids
          × (length ids ≤ length rows)
          × ((x : String) → elem x ids ≡ (elem x (map uuid_of rows) && not (stored x s)))
    -- once committed, the table has a row for each of them more
    pub committed :
        (rows : List (NewEvent t.Datetime)) (ids : List String) (s : t.State)
        → IsClean s
        → (t.insert rows s).0 ≡ ok ids
        → (t.commit (t.insert rows s).1).0 ≡ ok tt
        → IsClean (t.commit (t.insert rows s).1).1
          × (size (t.commit (t.insert rows s).1).1 ≡ size s + length ids)
          × ((x : String)
              → stored x (t.commit (t.insert rows s).1).1
                ≡ (stored x s || elem x (map uuid_of rows)))
    -- a transaction that fails is undone by the rollback
    pub rollback-insert :
        (rows : List (NewEvent t.Datetime)) (e : Exception) (s : t.State)
        → IsClean s
        → (t.insert rows s).0 ≡ raise e
        → t.rollback (t.insert rows s).1 ≡ s
    pub rollback-commit :
        (rows : List (NewEvent t.Datetime)) (ids : List String) (e : Exception) (s : t.State)
        → IsClean s
        → (t.insert rows s).0 ≡ ok ids
        → (t.commit (t.insert rows s).1).0 ≡ raise e
        → t.rollback (t.commit (t.insert rows s).1).1 ≡ s
