-- ===== src/UserAuth/Routers/ChangePassword.antt =====
-- `api_change_password` of src/user_auth/routers.py.
pub mod Exact
use events_api.Common.{
  suc, ◌<◌, String, ◌≡◌, refl, ◌⊎◌, true, false, none, some, arith, ap, ◌∙◌, sym, inl, inr, ◌==◌,
  [], ◌∷◌, elem, subst,
}
use events_api.Common.Int.{ℤ, eq_ℤ_refl}
use events_api.Common.Result.{Result, ok}
use events_api.External.Json.{sub_payload, JsonLaws}
use events_api.External.Redis.{RedisLaws}
use events_api.External.Database.{DatabaseLaws}
use events_api.External.Services.{Services, CryptLaws}
use events_api.Metrics.{record_event}
use events_api.Handler.{World}
use events_api.DataBase.Models.{User}
use events_api.TokenCache.{
  key_user_sessions, key_refresh, key_revoked, get_refresh, is_revoked, revoke_all_user_refresh,
}
use events_api.TokenCache.Slots.{ttl_left}
use events_api.External.Redis.{expiring}
use events_api.TokenCache.Sessions.{revoke_all-closes, revoke_all_others}
use events_api.TokenCache.Revocation.{get_refresh-stored}
use events_api.TokenCache.Issue.Effects.{
  stored_ttl, cache_after, sessions-cache_after, revoked-cache_after, refresh_slot-cache_after,
  refresh_jti,
}
use events_api.UserAuth.Schemas.{LoginIn, ChangePasswordIn, TokenPair}
use events_api.UserAuth.Routers.{api_login, api_change_password}
use events_api.UserAuth.Routers.Login.{api_login_lem}

module _ (S : Services) where
  abbrev prefix : String
  prefix = S.settings.token_cache_prefix

  module _ (payload : ChangePasswordIn) (current_user : User) (w : World S) where
    module _ (u : User) (there : S.db.get_user current_user.id w.db ≡ some u)
        (right : S.pwd_context.verify payload.current_password u.hashed_password ≡ true)
        (fresh : (payload.current_password == payload.new_password) ≡ false) where
      -- the new hash, and the outcome of the commit
      abbrev pub new_hash : String
      new_hash = S.pwd_context.hash (S.random w.draws) payload.new_password

      abbrev pub committed : Result (Unit {0}) × S.db.State
      committed = S.db.commit (S.db.set_hashed_password u.id new_hash w.db)

      api_change_password_done :
          committed.0 ≡ ok tt
          → api_change_password S current_user.id payload current_user w ≡ (
            ok tt,
            record {
              redis = (revoke_all_user_refresh S.redis prefix current_user.id w.redis).1;
              db = committed.1;
              reads = w.reads;
              draws = suc w.draws;
              metrics = record_event (some (("name", "auth_change_password") ∷ [])) w.metrics;
            },
          )
      unfolding api_change_password
      api_change_password_done done = rw (eq_ℤ_refl current_user.id, there, right, fresh, done)

      -- A change that is committed succeeds. The new password then verifies against what is
      -- stored, and every live refresh token of the user's session set has lost its payload and is
      -- marked as revoked for the seconds that it had left.
      pub api_change_password-closes :
          (L : RedisLaws S.redis) (D : DatabaseLaws S.db) (C : CryptLaws S.pwd_context)
          (jti : String)
          → D.IsClean w.db
          → u.id ≡ current_user.id
          → committed.0 ≡ ok tt
          → elem jti (
              S.redis.smembers
                (key_user_sessions S.settings.token_cache_prefix current_user.id)
                w.redis)
            ≡ true
          → 0 < ttl_left (L.slot (key_refresh S.settings.token_cache_prefix jti) w.redis)
          → ((api_change_password S current_user.id payload current_user w).0 ≡ ok tt)
            × ((u' : User) × (S.db.get_user current_user.id
                    (api_change_password S current_user.id payload current_user w).1.db
                  ≡ some u')
                × (S.pwd_context.verify payload.new_password u'.hashed_password ≡ true))
            × (get_refresh S.redis S.json S.settings.token_cache_prefix jti
                  (api_change_password S current_user.id payload current_user w).1.redis
                ≡ ok none)
            × (L.slot
                  (key_revoked S.settings.token_cache_prefix jti)
                  (api_change_password S current_user.id payload current_user w).1.redis
                ≡ expiring "1"
                    (ttl_left (L.slot (key_refresh S.settings.token_cache_prefix jti) w.redis)))
      api_change_password-closes L D C jti clean own done listed live =
          let (absent_now, marked) =
            revoke_all-closes S.redis L prefix S.json current_user.id w.redis jti listed live in
          rw (api_change_password_done done) (
            refl,
            (let there' : S.db.get_user u.id w.db ≡ some u =
                  subst (λ i. S.db.get_user i w.db ≡ some u) (sym own) there in
                let (u', found, hashed, same_id) =
                  D.updated u.id new_hash w.db u clean there' done in
                (
                  u',
                  subst (λ i. S.db.get_user i committed.1 ≡ some u') own found,
                  rw hashed (C.verify-hash (S.random w.draws) payload.new_password),
                )),
            absent_now,
            marked,
          )

    -- Whatever it answers, the method leaves the cache alone or revokes the user's session set.
    change-redis :
        (user_id : ℤ)
        → ((api_change_password S user_id payload current_user w).1.redis ≡ w.redis)
          ⊎ ((api_change_password S user_id payload current_user w).1.redis
              ≡ (revoke_all_user_refresh S.redis prefix current_user.id w.redis).1)
    unfolding api_change_password
    change-redis user_id = ground arith

  -- The session that a login opens is not in the user's session set: `issue_tokens_for_user` stores
  -- the refresh token and does not register it. So, of a user whose set was empty before the
  -- login, no change of password closes it, whatever it answers: the token's payload stays, and
  -- its mark is what it was before the login.
  pub api_change_password-api_login :
      (L : RedisLaws S.redis) (payloads : JsonLaws S.json) (payload : LoginIn) (w v : World S)
      (u current_user : User) (change : ChangePasswordIn) (user_id : ℤ)
      → S.db.select_by_email payload.email w.db ≡ some u
      → S.pwd_context.verify payload.password u.hashed_password ≡ true
      → 0 < stored_ttl S u.id w
      → S.redis.smembers (key_user_sessions S.settings.token_cache_prefix current_user.id) w.redis
        ≡ []
      → v.redis ≡ (api_login S payload w).1.redis
      → (get_refresh S.redis S.json S.settings.token_cache_prefix
            (S.random (suc w.draws))
            (api_change_password S user_id change current_user v).1.redis
          ≡ ok (some (sub_payload u.id)))
        × (is_revoked S.redis S.settings.token_cache_prefix
              (S.random (suc w.draws))
              (api_change_password S user_id change current_user v).1.redis
            ≡ is_revoked S.redis S.settings.token_cache_prefix (S.random (suc w.draws)) w.redis)
  api_change_password-api_login L payloads payload w v u current_user change user_id known right
        live unlisted opened =
      let jti = refresh_jti S u.id w in
      let after_login : v.redis ≡ cache_after S u.id w =
        opened
        ∙ ap (λ (x : Result (TokenPair S.jwt.Token) × World S). x.1.redis)
            (api_login_lem S payload w u known right) in
      let outside : elem jti (S.redis.smembers (key_user_sessions prefix current_user.id) v.redis)
          ≡ false =
        rw (after_login, sessions-cache_after S u.id w L current_user.id, unlisted) in
      let payload_there : get_refresh S.redis S.json prefix jti v.redis
          ≡ ok (some (sub_payload u.id)) =
        rw after_login (
          get_refresh-stored S.redis L prefix S.json payloads u.id (stored_ttl S u.id w) jti
            (cache_after S u.id w) (refresh_slot-cache_after S u.id w L live)) in
      let mark_same : is_revoked S.redis prefix jti v.redis
          ≡ is_revoked S.redis prefix jti w.redis =
        rw after_login (revoked-cache_after S u.id w L jti) in
      elim (change-redis change current_user v user_id) [
        | inl same ↦ rw same (payload_there, mark_same)
        | inr revoked ↦
            let (kept, kept_mark) =
              revoke_all_others S.redis L prefix S.json current_user.id v.redis jti outside in
            rw revoked (kept ∙ payload_there, kept_mark ∙ mark_same)
      ]
