-- ===== src/Examples/Migrations.antt =====
-- The initial migration of a database that holds Alembic's table of versions.
use events_api.Common.{String, ◌≡◌, refl, none, some, [], ◌==◌, if◌then◌else◌}
use events_api.Common.Result.{ok}
use events_api.External.Schema.{Table, index_without}
use events_api.Migrations.Initial.{
  upgrade, downgrade, declared_users, declared_index, declared_events,
}
use events_api.Migrations.Initial.Tables.{downgrade-upgrade}
use events_api.Samples.MemorySchema.{Names, memory_schema, memory_schema_laws}

abbrev versions : Table
versions = record { columns = []; primary_key = "version_num"; foreign_keys = [] }

abbrev database : Names
database = record {
  tables = λ n. if n == "alembic_version" then some versions else none;
  indexes = λ n. none;
}

downgrade-upgrade_example :
    ((upgrade memory_schema database).0 ≡ ok tt)
    × (memory_schema.table "users" (upgrade memory_schema database).1 ≡ some declared_users)
    × (memory_schema.index "uq_users_email_active_only" (upgrade memory_schema database).1
        ≡ some declared_index)
    × (memory_schema.table "events" (upgrade memory_schema database).1
        ≡ some (record declared_events { foreign_keys = [] }))
    × ((downgrade memory_schema (upgrade memory_schema database).1).0 ≡ ok tt)
    × ((m : String)
        → memory_schema.table m (downgrade memory_schema (upgrade memory_schema database).1).1
          ≡ memory_schema.table m database)
    × ((i : String)
        → memory_schema.index i (downgrade memory_schema (upgrade memory_schema database).1).1
          ≡ index_without "events" (index_without "users" (memory_schema.index i database)))
downgrade-upgrade_example =
    downgrade-upgrade memory_schema memory_schema_laws database
      (record { events = refl; users = refl; index = refl })
