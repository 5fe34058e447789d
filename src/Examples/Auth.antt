-- ===== src/Examples/Auth.antt =====
-- src/user_auth/routers.py and src/security/jwt_service.py on a small application.
use events_api.Common.{◌<◌, String, ◌≡◌, refl, true, false, none, some, arith, ap, inl, ◌⊎◌}
use events_api.Common.Int.{pos}
use events_api.Common.Text.{str_int, decimal, parse_int, digit_value}
use events_api.Common.Result.{Result, ok, raise, http_exception}
use events_api.Config.{default_settings}
use events_api.External.Jwt.{Claims, has_claim}
use events_api.External.Json.{sub_payload}
use events_api.Handler.{World}
use events_api.DataBase.Models.{User}
use events_api.DataBase.Crud.{get_current_user}
use events_api.JwtService.{make_refresh_token, decode_token}
use events_api.JwtService.Audience.{decode-make_refresh_token}
use events_api.TokenCache.{
  timestamp, ttl_from_exp, key_user_sessions, key_refresh, key_revoked, load_payload, get_refresh,
  is_revoked, store_refresh, register_refresh,
}
use events_api.TokenCache.Issue.{issue_tokens_for_user}
use events_api.UserAuth.Schemas.{LoginIn, TokenPair, ChangePasswordIn, UserRegister}
use events_api.UserAuth.Routers.{
  api_register, api_login, api_refresh, api_logout, api_change_password,
}
use events_api.UserAuth.Routers.Login.{
  api_login_exact, login_world, api_login_opens, get_current_user-api_login, api_refresh-api_login,
  login_pair, api_login_lem,
}
use events_api.UserAuth.Routers.Refresh.{api_refresh_once}
use events_api.UserAuth.Routers.Logout.{api_logout-closes}
use events_api.UserAuth.Routers.ChangePassword.{
  api_change_password-closes, api_change_password-api_login,
}
use events_api.UserAuth.Routers.Register.{api_register-conflict, api_login-api_register}
use events_api.TokenCache.Slots.{ttl_left}
use events_api.External.Redis.{expiring}
use events_api.Samples.MemoryRedis.{dedupe, memory_redis, memory_redis_laws}
use events_api.Samples.PlainJson.{read, write, plain_json_laws}
use events_api.Samples.OpenJwt.{decode, has_all, accepts, Signed, open_jwt_laws}
use events_api.Samples.ListDatabase.{find, list_database_laws}
use events_api.Samples.App.{app, ann, start, plain_context_laws}

abbrev ann_login : LoginIn
ann_login = record { email = "ann@example.com"; password = "Passw0rd!" }

abbrev wrong_login : LoginIn
wrong_login = record { email = "ann@example.com"; password = "Passw0rd?" }

ann_known : app.db.select_by_email "ann@example.com" start.db ≡ some ann
unfolding find
ann_known = refl

api_login_exact_example :
    ((u : User) × (known : app.db.select_by_email "ann@example.com" start.db ≡ some u)
      × (right : app.pwd_context.verify "Passw0rd?" u.hashed_password ≡ true) × (api_login app
            wrong_login start
          ≡ (
            ok (login_pair app wrong_login start u known right),
            login_world app wrong_login start u known right,
          )))
    ⊎ (((u : User)
          → app.db.select_by_email "ann@example.com" start.db ≡ some u
          → app.pwd_context.verify "Passw0rd?" u.hashed_password ≡ false)
        × (api_login app wrong_login start
            ≡ (raise (http_exception 401 "Wrong password or email"), start)))
api_login_exact_example = api_login_exact app wrong_login start

abbrev ann_pair : TokenPair Signed
ann_pair = login_pair app ann_login start ann ann_known refl

-- A refresh token for the audience that is expected, of user 1, and the state in which it is
-- stored.
abbrev pub claims : Claims
claims = record {
  sub = some "1";
  token_type = some "refresh";
  jti = some "j";
  iat = some 1699999000;
  iss = some "your-auth";
  aud = some "your-api";
  exp = some 1700000900;
}

abbrev pub token : Signed
token = (claims, "refresh-secret", "HS256")

abbrev pub stored : World app
stored = record start {
  redis =
      store_refresh memory_redis app.json "fapi-tokens" 1700000000000000 "j" (sub_payload (pos 1))
        (timestamp 1700000900) start.redis;
}

api_login_opens_example :
    ((api_login app ann_login start).0 ≡ ok ann_pair)
    × (get_refresh memory_redis app.json "fapi-tokens" "1" (api_login app ann_login start).1.redis
        ≡ ok (some (sub_payload (pos 1))))
    × ((jti : String)
        → is_revoked memory_redis "fapi-tokens" jti (api_login app ann_login start).1.redis
          ≡ is_revoked memory_redis "fapi-tokens" jti start.redis)
    × ((api_login app ann_login start).1.metrics.total_events_seen ≡ 1)
unfolding ttl_from_exp default_settings decimal
api_login_opens_example =
    api_login_opens app ann_login start ann ann_known refl memory_redis_laws plain_json_laws
      (omega arith)

get_current_user-api_login_example : (get_current_user app (some ann_pair.access) start).0 ≡ ok ann
unfolding default_settings find
get_current_user-api_login_example =
    get_current_user-api_login app ann_login start ann ann_known refl open_jwt_laws ann_pair start
      (ap (λ (x : Result (TokenPair Signed) × World app). x.0)
        (api_login_lem app ann_login start ann ann_known refl))
      refl refl (omega arith) refl

api_refresh-api_login_example :
    (api_refresh app ann_pair.refresh start
      ≡ (raise (http_exception 401 "Invalid or expired token."), record start { reads = 1 }))
    × (api_logout app (pos 1) ann_pair.refresh ann start
        ≡ (raise (http_exception 401 "Invalid or expired token."), record start { reads = 1 }))
api_refresh-api_login_example =
    api_refresh-api_login app ann_login start ann ann_known refl open_jwt_laws ann_pair start (
      ap (λ (x : Result (TokenPair Signed) × World app). x.0)
        (api_login_lem app ann_login start ann ann_known refl))

made : (t : Signed) × ((make_refresh_token app "1" (some "j") none 1 "refresh" start).0 ≡ ok t)
unfolding make_refresh_token
made = (_, refl)

decode-make_refresh_token_example :
    (decode_token app made.0 "refresh" start).0
    ≡ raise (http_exception 401 "Invalid or expired token.")
decode-make_refresh_token_example =
    decode-make_refresh_token app open_jwt_laws "1" (some "j") none 1 "refresh" "refresh" made.0
      start start (inl made.1)

unfoldable pub runs : Unit {0}
unfolding api_refresh decode_token decode accepts has_all has_claim issue_tokens_for_user parse_int
    digit_value is_revoked get_refresh load_payload key_refresh key_revoked store_refresh
    ttl_from_exp decimal read write default_settings
runs = tt

refresh_succeeds : (pair : TokenPair Signed) × ((api_refresh app token stored).0 ≡ ok pair)
unfolding runs str_int
refresh_succeeds = (_, refl)

abbrev refreshed : World app
refreshed = record (api_refresh app token stored).1 {
  redis = memory_redis.elapse 60 (api_refresh app token stored).1.redis;
  reads = 60000;
}

api_refresh_once_example :
    (api_refresh app token refreshed).0 ≡ raise (http_exception 401 "Refresh token revoked")
unfolding decode accepts has_all has_claim default_settings ttl_from_exp
api_refresh_once_example =
    api_refresh_once app token claims refl "j" refl 1700000900 refl memory_redis_laws stored
      refreshed refresh_succeeds.0 60 refl refl refresh_succeeds.1 refl (omega arith)

logout_succeeds : (api_logout app (pos 1) token ann stored).0 ≡ ok tt
unfolding runs str_int api_logout
logout_succeeds = refl

abbrev logged_out : World app
logged_out = record (api_logout app (pos 1) token ann stored).1 {
  redis = memory_redis.elapse 60 (api_logout app (pos 1) token ann stored).1.redis;
  reads = 60000;
}

api_logout-closes_example :
    ((api_logout app (pos 1) token ann logged_out).0
      ≡ raise (http_exception 409 "Session already closed or not found"))
    × (60 < ttl_from_exp 1700000000001000 (timestamp 1700000900)
        → is_revoked memory_redis "fapi-tokens" "j" logged_out.redis ≡ true)
unfolding decode accepts has_all has_claim default_settings
api_logout-closes_example =
    api_logout-closes app ann token claims refl "1" refl refl "j" refl refl 1700000900 refl
      (omega arith) memory_redis_laws stored logged_out 60 refl refl logout_succeeds refl

abbrev change : ChangePasswordIn
change = record {
  current_password = "Passw0rd!";
  new_password = "N3w-word!";
  new_password_confirm = "N3w-word!";
}

-- a state in which a session of user 1 is registered
abbrev with_session : World app
with_session = record start {
  redis =
      register_refresh memory_redis app.json "fapi-tokens" 1700000000000000 (pos 1) "a"
        (sub_payload (pos 1)) (timestamp 1700000900) start.redis;
}

api_change_password-closes_example :
    ((api_change_password app (pos 1) change ann with_session).0 ≡ ok tt)
    × ((u' : User) × (app.db.get_user
            (pos 1)
            (api_change_password app (pos 1) change ann with_session).1.db
          ≡ some u')
        × (app.pwd_context.verify "N3w-word!" u'.hashed_password ≡ true))
    × (get_refresh memory_redis app.json "fapi-tokens" "a"
          (api_change_password app (pos 1) change ann with_session).1.redis
        ≡ ok none)
    × (memory_redis_laws.slot
          (key_revoked "fapi-tokens" "a")
          (api_change_password app (pos 1) change ann with_session).1.redis
        ≡ expiring "1"
            (ttl_left (memory_redis_laws.slot (key_refresh "fapi-tokens" "a") with_session.redis)))
unfolding find register_refresh ttl_from_exp key_refresh key_user_sessions str_int dedupe
    default_settings
api_change_password-closes_example =
    api_change_password-closes app change ann with_session ann refl refl refl memory_redis_laws
      list_database_laws plain_context_laws "a" refl refl refl refl (omega arith)

api_change_password-api_login_example :
    (get_refresh memory_redis app.json "fapi-tokens" "1"
        (api_change_password app (pos 1) change ann (api_login app ann_login start).1).1.redis
      ≡ ok (some (sub_payload (pos 1))))
    × (is_revoked memory_redis "fapi-tokens" "1"
          (api_change_password app (pos 1) change ann (api_login app ann_login start).1).1.redis
        ≡ is_revoked memory_redis "fapi-tokens" "1" start.redis)
unfolding ttl_from_exp default_settings decimal dedupe
api_change_password-api_login_example =
    api_change_password-api_login app memory_redis_laws plain_json_laws ann_login start
      (api_login app ann_login start).1 ann ann change (pos 1) ann_known refl (omega arith) refl
      refl

abbrev newcomer : UserRegister
newcomer = record {
  email = "bob@example.com";
  password = "Passw0rd!";
  password_confirm = "Passw0rd!";
}

abbrev again : UserRegister
again = record { email = "ann@example.com"; password = "Passw0rd!"; password_confirm = "Passw0rd!" }

api_register-conflict_example :
    ((api_register app again start).0
      ≡ raise (http_exception 409 "User with this email already exists."))
    × ((api_register app again start).1.db ≡ start.db)
    × ((api_register app again start).1.redis ≡ start.redis)
    × ((api_register app again start).1.metrics ≡ start.metrics)
api_register-conflict_example =
    api_register-conflict app again list_database_laws start refl (inl (ann, ann_known))

api_login-api_register_example :
    (u : User) × (pair : TokenPair Signed) × ((api_register app newcomer start).0 ≡ ok u)
    × (u.email ≡ "bob@example.com")
    × ((api_login app
          (record { email = "bob@example.com"; password = "Passw0rd!" })
          (api_register app newcomer start).1).0
        ≡ ok pair)
unfolding find
api_login-api_register_example =
    api_login-api_register app newcomer list_database_laws plain_context_laws start
      (api_register app newcomer start).1 refl refl refl refl
