-- ===== src/External/Services.antt =====
-- All that a request handler is given: the services, the settings, and what Python reads from its
-- surroundings.
use events_api.Common.{ℕ, String, ◌≡◌, true, Bool, Option}
use events_api.Config.{Settings}
use events_api.External.Redis.{Redis}
use events_api.External.Json.{JsonModule}
use events_api.External.Jwt.{Jwt}
use events_api.External.Database.{Database}

-- `passlib.context.CryptContext(schemes=["bcrypt"])`; the salt of a hash is drawn at random.
pub record CryptContext : Type 0 where
  pub hash : String → String → String
  pub verify : String → String → Bool

pub record CryptLaws (c : CryptContext) : Type 0 where
  pub verify-hash : (salt p : String) → c.verify p (c.hash salt p) ≡ true

-- `clock n` is what the n-th reading of the clock gives, in microseconds since the epoch, and
-- `random n` the n-th text that is drawn at random: a `uuid4` or a salt. `unicode_digit`,
-- `unicode_word` and `lower` are Python's Unicode tables: the decimal digits and the letters
-- beyond ASCII, and `str.lower`.
pub record Services : Type 1 where
  pub redis : Redis
  pub json : JsonModule
  pub jwt : Jwt
  pub db : Database
  pub pwd_context : CryptContext
  pub settings : Settings
  pub clock : ℕ → ℕ
  pub random : ℕ → String
  pub unicode_digit : ℕ → Option ℕ
  pub unicode_word : ℕ → Bool
  pub lower : String → String
