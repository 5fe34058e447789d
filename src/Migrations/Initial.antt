-- ===== src/Migrations/Initial.antt =====
-- migrations/versions/fd8bb983322f_initial.py, and the tables that src/data_base/models.py
-- declares. The `autoincrement` of `users.id`, which both have, is left out.
pub mod Tables
use events_api.Common.{String, Bool, true, false, List, [], ◌∷◌}
use events_api.Common.Action.{Action, ◌>>◌}
use events_api.External.Schema.{
  ColumnType, uuid, timestamptz, integer, json, string, Column, ForeignKey, Table, Index, Schema,
}

abbrev column : String → ColumnType → Bool → Column
column n c nullable = record {
  name = n;
  column_type = c;
  nullable = nullable;
  current_timestamp = false;
}

abbrev stamped : String → Bool → Column
stamped n nullable = record {
  name = n;
  column_type = timestamptz;
  nullable = nullable;
  current_timestamp = true;
}

-- `sa.Column`s and `sa.PrimaryKeyConstraint` of the migration
abbrev pub migrated_events : Table
migrated_events = record {
  columns =
      column "event_id" uuid false
      ∷ stamped "occurred_at" false
      ∷ column "user_id" integer false
      ∷ column "event_type" (string 100) false
      ∷ column "properties" json true
      ∷ [];
  primary_key = "event_id";
  foreign_keys = [];
}

abbrev pub migrated_users : Table
migrated_users = record {
  columns =
      column "id" integer false
      ∷ column "email" (string 320) false
      ∷ column "hashed_password" (string 255) false
      ∷ stamped "created_at" false
      ∷ stamped "updated_at" true
      ∷ column "last_activity_at" timestamptz true
      ∷ [];
  primary_key = "id";
  foreign_keys = [];
}

abbrev pub uq_users_email_active_only : Index
uq_users_email_active_only = record { on = "users"; indexed = "email" ∷ []; unique = true }

-- `User.__table__`, whose columns are those of `mapped_column`, and its index
abbrev pub declared_users : Table
declared_users = record {
  columns =
      column "id" integer false
      ∷ column "email" (string 320) false
      ∷ column "hashed_password" (string 255) false
      ∷ stamped "created_at" false
      ∷ stamped "updated_at" true
      ∷ column "last_activity_at" timestamptz true
      ∷ [];
  primary_key = "id";
  foreign_keys = [];
}

abbrev pub declared_index : Index
declared_index = record { on = "users"; indexed = "email" ∷ []; unique = true }

-- `Events.__table__`
abbrev pub declared_events : Table
declared_events = record {
  columns =
      column "event_id" uuid false
      ∷ stamped "occurred_at" false
      ∷ column "user_id" integer false
      ∷ column "event_type" (string 100) false
      ∷ column "properties" json true
      ∷ [];
  primary_key = "event_id";
  foreign_keys = record { column = "user_id"; target = "users" } ∷ [];
}

module _ (S : Schema) where
  unfoldable pub upgrade : Action S.State
  upgrade =
      S.create_table "events" migrated_events
      >> S.create_table "users" migrated_users
      >> S.create_index "uq_users_email_active_only" uq_users_email_active_only

  unfoldable pub downgrade : Action S.State
  downgrade =
      S.drop_index "uq_users_email_active_only" >> S.drop_table "users" >> S.drop_table "events"
