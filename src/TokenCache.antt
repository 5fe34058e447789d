-- ===== src/TokenCache.antt =====
-- src/security/token_cache.py: class `TokenCache`, its keys, and its methods as functions of the
-- Redis server's state. A method that reads the clock takes what it reads, in microseconds since
-- the epoch, as `now`.
pub mod Keys
pub mod Slots
pub mod Revocation
pub mod Access
pub mod Sessions
pub mod Members
pub mod Ledger
pub mod Issue
use Prim.Native.String.{◌++◌}
use events_api.Common.{
  ℕ, zero, suc, ◌+◌, ◌-◌, ◌*◌, ◌/◌, String, Bool, true, false, Option, none, some, List, [], ◌∷◌,
  ltb, eqb, ◌==◌, is_empty, if◌then◌else◌, not,
}
use events_api.Common.Int.{ℤ, pos, negsuc, to_nat}
use events_api.Common.Result.{Result, ok, raise, value_error, ◌>>=◌}
use events_api.Common.Text.{str_int}
use events_api.External.Redis.{Redis}
use events_api.External.Json.{Json, JsonModule}

-- An expiry is a timestamp in seconds or a `datetime`, here its microseconds since the epoch. Not
-- modelled: a float, and a timestamp past the year 9999, on which `fromtimestamp` raises.
pub data Expiry : Type 0 where
  timestamp : ℕ → Expiry
  datetime : ℕ → Expiry

abbrev pub exp_micros : Expiry → ℕ
exp_micros (timestamp s) = s * 1000000
exp_micros (datetime us) = us

-- `int` truncates and `max` cuts off below 0, so the subtraction may stop at 0.
unfoldable pub ttl_from_exp : ℕ → Expiry → ℕ
ttl_from_exp now exp = (exp_micros exp - now) / 1000000

module _ (prefix : String) where
  unfoldable pub key_user_sessions : ℤ → String
  key_user_sessions user_id = prefix ++ (":user_sessions:" ++ str_int user_id)

  unfoldable pub key_access : String → String
  key_access jti = prefix ++ (":access:" ++ jti)

  unfoldable pub key_refresh : String → String
  key_refresh jti = prefix ++ (":refresh:" ++ jti)

  unfoldable pub key_revoked : String → String
  key_revoked jti = prefix ++ (":revoked:" ++ jti)

-- `json.loads(raw) if raw else None`
unfoldable pub load_payload : JsonModule → Option String → Result (Option Json)
load_payload json none = ok none
load_payload json (some raw) =
    if raw == ""
    then ok none
    else elim (json.loads raw) [ none ↦ raise value_error | some p ↦ ok (some p) ]

module _ (r : Redis) (json : JsonModule) (prefix : String) where
  unfoldable pub register_refresh : ℕ → ℤ → String → Json → Expiry → r.State → r.State
  register_refresh now user_id jti payload exp s =
      let ttl = ttl_from_exp now exp in
      if eqb ttl 0
      then s
      else r.sadd (key_user_sessions prefix user_id) jti
          (r.set (key_refresh prefix jti) (json.dumps payload) ttl s)

  unfoldable pub store_access : ℕ → String → Json → Expiry → r.State → r.State
  store_access now jti payload exp s =
      let ttl = ttl_from_exp now exp in
      if ltb 0 ttl then r.set (key_access prefix jti) (json.dumps payload) ttl s else s

  unfoldable pub store_refresh : ℕ → String → Json → Expiry → r.State → r.State
  store_refresh now jti payload exp s =
      let ttl = ttl_from_exp now exp in
      if ltb 0 ttl then r.set (key_refresh prefix jti) (json.dumps payload) ttl s else s

  unfoldable pub get_access : String → r.State → Result (Option Json)
  get_access jti s = load_payload json (r.get (key_access prefix jti) s)

  unfoldable pub get_refresh : String → r.State → Result (Option Json)
  get_refresh jti s = load_payload json (r.get (key_refresh prefix jti) s)

module _ (r : Redis) (prefix : String) where
  unfoldable pub ttl_of_refresh : String → r.State → ℤ
  ttl_of_refresh jti s = r.ttl (key_refresh prefix jti) s

  -- A TTL that is not positive, -1 and -2 among them, counts as 0 in `to_nat`.
  unfoldable pub revoke_refresh : String → r.State → Bool × r.State
  unfolding ttl_of_refresh
  revoke_refresh jti s =
      let ttl = to_nat (ttl_of_refresh jti s) in
      if eqb ttl 0
      then (false, s)
      else (true, r.delete (key_refresh prefix jti) (r.set (key_revoked prefix jti) "1" ttl s))

  -- The loop over the members: `revoked` counts, and each member leaves the set.
  unfoldable pub revoke_each : String → List String → ℕ → r.State → ℕ × r.State
  revoke_each key_set [] revoked s = (revoked, s)
  revoke_each key_set (jti ∷ rest) revoked s =
      let (done, s') = revoke_refresh jti s in
      revoke_each key_set rest (if done then revoked + 1 else revoked) (r.srem key_set jti s')

  unfoldable pub revoke_all_user_refresh : ℤ → r.State → ℕ × r.State
  unfolding revoke_each
  revoke_all_user_refresh user_id s =
      let key_set = key_user_sessions prefix user_id in
      let jtiset = r.smembers key_set s in
      if is_empty jtiset then (0, s) else revoke_each key_set jtiset 0 s

  unfoldable pub revoke : ℕ → String → Expiry → r.State → r.State
  revoke now jti exp s =
      let ttl = ttl_from_exp now exp in
      if ltb 0 ttl then r.set (key_revoked prefix jti) "1" ttl s else s

  unfoldable pub is_revoked : String → r.State → Bool
  is_revoked jti s = not (eqb (r.exists (key_revoked prefix jti) s) 0)

  unfoldable pub delete_access : String → r.State → r.State
  delete_access jti s = r.delete (key_access prefix jti) s

  unfoldable pub delete_refresh : String → r.State → r.State
  delete_refresh jti s = r.delete (key_refresh prefix jti) s
