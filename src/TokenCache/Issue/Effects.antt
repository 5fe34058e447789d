-- ===== src/TokenCache/Issue/Effects.antt =====
-- What `issue_tokens_for_user` returns, and what it leaves in the cache.
use events_api.Common.{
  ℕ, suc, ◌+◌, ◌-◌, ◌/◌, ◌<◌, String, ◌≡◌, true, some, eq_refl, lt→ltb, arith, ◌∙◌,
}
use events_api.Common.Int.{ℤ}
use events_api.Common.Text.{str_int}
use events_api.Common.Result.{ok}
use events_api.External.Json.{sub_payload}
use events_api.External.Jwt.{Claims}
use events_api.External.Redis.{RedisLaws, expiring}
use events_api.External.Services.{Services}
use events_api.Handler.{World}
use events_api.JwtService.{to_timestamp}
use events_api.TokenCache.{
  datetime, ttl_from_exp, store_access, store_refresh, is_revoked, key_user_sessions,
}
use events_api.TokenCache.Slots.{
  refresh_slot, revoked_slot-store_access, refresh_slot-store_refresh, revoked_slot-store_refresh,
  members-store_access, members-store_refresh,
}
use events_api.TokenCache.Revocation.{is_revoked_cong}
use events_api.TokenCache.Issue.{access_lifetime, refresh_lifetime, issue_tokens_for_user}

fifteen_minutes : (n : ℕ) → (n + access_lifetime - n) / 1000000 ≡ 900
fifteen_minutes n = omega arith

module _ (S : Services) (user_id : ℤ) (w : World S) where
  -- the instant of the call, the identifiers that are drawn, and the claims of the two tokens
  abbrev pub issued_at : ℕ
  issued_at = S.clock w.reads

  abbrev pub access_jti : String
  access_jti = S.random w.draws

  abbrev pub refresh_jti : String
  refresh_jti = S.random (suc w.draws)

  abbrev pub claims_of : String → String → ℕ → ℕ → Claims
  claims_of typ jti iat exp = record {
    sub = some (str_int user_id);
    token_type = some typ;
    jti = some jti;
    iat = some (to_timestamp iat);
    iss = some "your-auth";
    aud = some "auth_api";
    exp = some (to_timestamp exp);
  }

  abbrev pub access_claims : Claims
  access_claims =
      claims_of "access" access_jti (S.clock (suc w.reads)) (issued_at + access_lifetime)

  abbrev pub refresh_claims : Claims
  refresh_claims =
      claims_of "refresh" refresh_jti (S.clock (suc (suc (suc w.reads))))
        (issued_at + refresh_lifetime)

  abbrev pub access_token_of : S.jwt.Token
  access_token_of = S.jwt.encode access_claims S.settings.access_secret S.settings.jwt_alg

  abbrev pub refresh_token_of : S.jwt.Token
  refresh_token_of = S.jwt.encode refresh_claims S.settings.refresh_secret S.settings.jwt_alg

  -- the seconds for which the refresh token is stored: its lifetime, less the time that the call
  -- takes
  abbrev pub stored_ttl : ℕ
  stored_ttl =
      ttl_from_exp (S.clock (suc (suc (suc (suc w.reads)))))
        (datetime (issued_at + refresh_lifetime))

  abbrev pub cache_after : S.redis.State
  cache_after =
      store_refresh S.redis S.json S.settings.token_cache_prefix
        (S.clock (suc (suc (suc (suc w.reads))))) refresh_jti (sub_payload user_id)
        (datetime (issued_at + refresh_lifetime))
        (store_access S.redis S.json S.settings.token_cache_prefix (S.clock (suc (suc w.reads)))
          access_jti (sub_payload user_id) (datetime (issued_at + access_lifetime)) w.redis)

  abbrev pub world_after : World S
  world_after = record {
    redis = cache_after;
    db = w.db;
    reads = suc (suc (suc (suc (suc w.reads))));
    draws = suc (suc w.draws);
    metrics = w.metrics;
  }

  pub issue_both : issue_tokens_for_user S user_id true true w ≡ (
    ok (record {
      access_token = some access_token_of;
      refresh_token = some refresh_token_of;
      token_type = "bearer";
      expires_in = some 900;
    }),
    world_after,
  )
  unfolding issue_tokens_for_user
  issue_both = rw (fifteen_minutes issued_at)

  module _ (L : RedisLaws S.redis) where
    abbrev prefix : String
    prefix = S.settings.token_cache_prefix

    pub sessions-cache_after :
        (u : ℤ)
        → S.redis.smembers (key_user_sessions S.settings.token_cache_prefix u) cache_after
          ≡ S.redis.smembers (key_user_sessions S.settings.token_cache_prefix u) w.redis
    sessions-cache_after u =
        members-store_refresh S.redis L prefix S.json _ _ _ _ u _
        ∙ members-store_access S.redis L prefix S.json _ _ _ _ u _

    -- the state between the two writes
    abbrev with_access : S.redis.State
    with_access =
        store_access S.redis S.json S.settings.token_cache_prefix (S.clock (suc (suc w.reads)))
          access_jti (sub_payload user_id) (datetime (issued_at + access_lifetime)) w.redis

    pub revoked-cache_after :
        (jti : String)
        → is_revoked S.redis S.settings.token_cache_prefix jti cache_after
          ≡ is_revoked S.redis S.settings.token_cache_prefix jti w.redis
    revoked-cache_after jti = is_revoked_cong S.redis L prefix jti cache_after w.redis (
        revoked_slot-store_refresh S.redis L prefix S.json _ _ jti _ _ with_access
        ∙ revoked_slot-store_access S.redis L prefix S.json _ _ jti _ _ w.redis)

    pub refresh_slot-cache_after :
        0 < stored_ttl
        → refresh_slot S.redis L S.settings.token_cache_prefix refresh_jti cache_after
          ≡ expiring (S.json.dumps (sub_payload user_id)) stored_ttl
    refresh_slot-cache_after h = rw (
      refresh_slot-store_refresh S.redis L prefix S.json (S.clock (suc (suc (suc (suc w.reads)))))
          refresh_jti refresh_jti (sub_payload user_id) (datetime (issued_at + refresh_lifetime))
          with_access,
      eq_refl refresh_jti,
      lt→ltb _ _ h,
    )
