-- ===== src/DataBase/Models.antt =====
-- src/data_base/models.py. A `datetime` is its microseconds since the epoch.
use events_api.Common.{ℕ, String, Option}
use events_api.Common.Int.{ℤ}
use events_api.External.Json.{Json}

pub record User : Type 0 where
  pub id : ℤ
  pub email : String
  pub hashed_password : String
  pub created_at : ℕ
  pub updated_at : Option ℕ
  pub last_activity_at : Option ℕ

pub record Events : Type 0 where
  pub event_id : String
  pub occurred_at : ℕ
  pub user_id : ℤ
  pub event_type : String
  pub properties : Option Json
