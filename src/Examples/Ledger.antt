-- ===== src/Examples/Ledger.antt =====
-- A morning of the token cache: two sessions of user 7, one of user 8, and what is done with them.
use events_api.Common.{◌≡◌, refl, List, [], ◌∷◌, elem}
use events_api.Common.Int.{ℤ, pos}
use events_api.Common.Result.{ok}
use events_api.External.Jwt.{is_given}
use events_api.TokenCache.{timestamp, key_user_sessions, get_refresh, is_revoked}
use events_api.TokenCache.Ledger.{
  nothing_known, Call, registers, revokes, revokes_refresh, revokes_all, elapses, apply_all,
  perform_all,
}
use events_api.TokenCache.Ledger.Refinement.{Refines, payload, perform_all-observed}
use events_api.Samples.MemoryRedis.{Store, dedupe, memory_redis, memory_redis_laws}
use events_api.Samples.PlainJson.{plain_json, plain_json_laws}
use events_api.Samples.App.{empty_store}

abbrev morning : List Call
morning =
    registers 100 (pos 7) "a" (timestamp 160)
    ∷ registers 100 (pos 7) "b" (timestamp 130)
    ∷ registers 100 (pos 8) "c" (timestamp 160)
    ∷ elapses 20
    ∷ revokes 120 "d" (timestamp 150)
    ∷ revokes_refresh "c"
    ∷ elapses 15
    ∷ revokes_all (pos 7)
    ∷ []

abbrev evening : Store
evening = perform_all memory_redis plain_json "t" morning empty_store

empty_store-Refines :
    Refines memory_redis memory_redis_laws plain_json "t" nothing_known empty_store
unfolding dedupe
empty_store-Refines = record { payloads = λ j. refl; marks = λ j. refl; sets = λ u j. refl }

perform_all-observed_example :
    (get_refresh memory_redis plain_json "t" "a" evening
      ≡ ok (
          payload memory_redis memory_redis_laws plain_json "t"
            ((apply_all morning nothing_known).open_tokens "a")))
    × (is_revoked memory_redis "t" "a" evening
        ≡ is_given ((apply_all morning nothing_known).refused "a"))
    × ((u : ℤ)
        → elem "a" (memory_redis.smembers (key_user_sessions "t" u) evening)
          ≡ (apply_all morning nothing_known).registered u "a")
perform_all-observed_example =
    perform_all-observed memory_redis memory_redis_laws plain_json "t" plain_json_laws morning
      empty_store "a" empty_store-Refines
