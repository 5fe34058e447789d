-- ===== src/Samples/App.antt =====
-- An application on the small services: its clock advances by a millisecond with each reading.
use events_api.Common.{◌+◌, ◌*◌, true, none, [], ◌∷◌, eq_refl, ◌==◌}
use events_api.Common.Int.{pos}
use events_api.Common.Text.{decimal}
use events_api.Config.{default_settings}
use events_api.External.Redis.{absent}
use events_api.External.Services.{Services, CryptContext, CryptLaws}
use events_api.Handler.{World}
use events_api.DataBase.Models.{User}
use events_api.Samples.MemoryRedis.{Store, memory_redis}
use events_api.Samples.PlainJson.{plain_json}
use events_api.Samples.OpenJwt.{open_jwt}
use events_api.Samples.ListDatabase.{nothing, list_database}

-- a hash that is the password
abbrev pub plain_context : CryptContext
plain_context = record { hash = λ salt p. p; verify = λ p h. p == h }

pub plain_context_laws : CryptLaws plain_context
plain_context_laws = record { verify-hash = λ salt p. eq_refl p }

abbrev pub app : Services
app = record {
  redis = memory_redis;
  json = plain_json;
  jwt = open_jwt;
  db = list_database;
  pwd_context = plain_context;
  settings = default_settings "/srv";
  clock = λ n. 1700000000000000 + n * 1000;
  random = decimal;
  unicode_digit = λ c. none;
  unicode_word = λ c. true;
  lower = λ s. s;
}

abbrev pub ann : User
ann = record {
  id = pos 1;
  email = "ann@example.com";
  hashed_password = "Passw0rd!";
  created_at = 0;
  updated_at = none;
  last_activity_at = none;
}

abbrev pub empty_store : Store
empty_store = record { slots = λ k. absent; sets = λ k. [] }

abbrev pub start : World app
start = record {
  redis = empty_store;
  db = record { users = ann ∷ []; pending = nothing; added = none };
  reads = 0;
  draws = 0;
  metrics = record { total_events_seen = 0; events_total = [] };
}
