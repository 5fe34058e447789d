-- ===== src/Examples/Sessions.antt =====
-- src/security/token_cache.py on a small server.
use events_api.Common.{◌≡◌, refl, none, arith}
use events_api.Common.Int.{pos}
use events_api.Common.Text.{str_int}
use events_api.Common.Result.{ok}
use events_api.External.Json.{sub_payload}
use events_api.External.Redis.{expiring}
use events_api.TokenCache.{
  timestamp, ttl_from_exp, key_user_sessions, key_refresh, key_revoked, get_refresh,
  register_refresh, revoke_refresh, revoke_all_user_refresh,
}
use events_api.TokenCache.Sessions.{revoke_all-closes}
use events_api.Samples.MemoryRedis.{Store, dedupe, memory_redis, memory_redis_laws}
use events_api.Samples.PlainJson.{plain_json}
use events_api.Samples.App.{empty_store}

-- a token of user 7 that is registered with ten seconds to live
abbrev registered : Store
registered =
    register_refresh memory_redis plain_json "t" 0 (pos 7) "a" (sub_payload (pos 7)) (timestamp 10)
      empty_store

revoke_all-closes_example :
    (get_refresh memory_redis plain_json "t" "a"
        (revoke_all_user_refresh memory_redis "t" (pos 7) registered).1
      ≡ ok none)
    × (memory_redis_laws.slot
          (key_revoked "t" "a")
          (revoke_all_user_refresh memory_redis "t" (pos 7) registered).1
        ≡ expiring "1" 10)
unfolding register_refresh ttl_from_exp key_refresh key_user_sessions str_int dedupe
revoke_all-closes_example =
    revoke_all-closes memory_redis memory_redis_laws "t" plain_json (pos 7) registered "a" refl
      (omega arith)

-- The registered token is the one that is revoked.
revoke_all_registered : (revoke_all_user_refresh memory_redis "t" (pos 7) registered).0 ≡ 1
unfolding revoke_all_user_refresh revoke_refresh register_refresh ttl_from_exp key_refresh
    key_user_sessions str_int dedupe
revoke_all_registered = refl
