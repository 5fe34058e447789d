-- ===== src/UserAuth/Routers.antt =====
-- src/user_auth/routers.py: the endpoints under `/auth`. Rate limits are fastapi_limiter's, and
-- log lines are left out.
pub mod Login
pub mod Refresh
pub mod ChangePassword
pub mod Register
pub mod Logout
pub mod Overlap
use events_api.Common.{
  ℕ, ◌*◌, String, Bool, true, false, not, ◌||◌, Option, none, some, ◌==◌, eqb, if◌then◌else◌,
}
use events_api.Common.Int.{ℤ}
use events_api.Common.Result.{
  Exception, http_exception, integrity_error, sqlalchemy_error, value_error, key_error, Result, ok,
  raise,
}
use events_api.Common.Text.{strip, parse_int, digit_value}
use events_api.External.Json.{Json, is_truthy}
use events_api.External.Jwt.{Claims, is_given}
use events_api.External.Services.{Services}
use events_api.Handler.{
  Handler, pure, fail, lift, catch, utc_now, ask_redis, on_redis, ask_db, on_db, commit, reject_if,
  record_name, ◌>>=◌, ◌>>◌,
}
use events_api.DataBase.Models.{User}
use events_api.DataBase.Crud.{get_user_by_email, create_user, to_int}
use events_api.JwtService.{decode_token}
use events_api.TokenCache.{
  timestamp, datetime, is_revoked, get_refresh, revoke, delete_refresh, revoke_all_user_refresh,
}
use events_api.TokenCache.Issue.{IssuedTokens, issue_tokens_for_user}
use events_api.UserAuth.Schemas.{UserRegister, LoginIn, ChangePasswordIn, OAuth2LoginOut, TokenPair}
use events_api.UserAuth.Utils.{get_password_hash, verify_password, check_authorization}

-- A field of type `str` of a response: `None` fails its validation.
abbrev required {ℓ} : {A : Type ℓ} → Option A → Result A
required none = raise value_error
required (some a) = ok a

-- `payload[key]`
abbrev item {ℓ} : {A : Type ℓ} → Option A → Result A
item none = raise key_error
item (some a) = ok a

-- `not payload.get(key)`, of a text and of a number
abbrev lacks_text : Option String → Bool
lacks_text none = true
lacks_text (some s) = s == ""

abbrev lacks_number : Option ℕ → Bool
lacks_number none = true
lacks_number (some n) = eqb n 0

abbrev text_or_empty : Option String → String
text_or_empty none = ""
text_or_empty (some s) = s

abbrev number_or_zero : Option ℕ → ℕ
number_or_zero none = 0
number_or_zero (some n) = n

-- `not payload`, of what `get_refresh` returns
abbrev pub is_falsy : Option Json → Bool
is_falsy none = true
is_falsy (some p) = not (is_truthy p)

module _ (S : Services) where
  -- `not user or not verify_password(password, user.hashed_password)`
  checked_user : Option User → String → String → Handler S User
  unfolding verify_password
  checked_user none password detail = fail (http_exception 401 detail)
  checked_user (some user) password detail =
      if verify_password S password user.hashed_password
      then pure user
      else fail (http_exception 401 detail)

  token_pair : IssuedTokens S.jwt.Token → Result (TokenPair S.jwt.Token)
  token_pair tokens = elim tokens.access_token [
    | none ↦ raise value_error
    | some access ↦ elim tokens.refresh_token [
      | none ↦ raise value_error
      | some refresh ↦ ok (record {
        access = access;
        refresh = refresh;
        token_type = "bearer";
        redirect_url = some "/";
      })
    ]
  ]

  exists_already : Exception
  exists_already = http_exception 409 "User with this email already exists."

  -- `except IntegrityError`
  conflict : Exception → Handler S User
  unfolding exists_already
  conflict integrity_error = fail exists_already
  conflict e = fail e

  unfoldable pub api_register : UserRegister → Handler S User
  unfolding conflict get_user_by_email
  api_register payload = do
    existing ← get_user_by_email S payload.email
    reject_if (is_given existing) 409 "User with this email already exists."
    user ← catch (create_user S payload) conflict
    record_name "auth_register"
    pure user

  unfoldable pub api_login : LoginIn → Handler S (TokenPair S.jwt.Token)
  unfolding checked_user token_pair get_user_by_email
  api_login payload = do
    found ← get_user_by_email S payload.email
    user ← checked_user found payload.password "Wrong password or email"
    tokens ← issue_tokens_for_user S user.id true true
    record_name "auth_login"
    lift (token_pair tokens)

  -- `form` is the username and the password of the OAuth2 form
  unfoldable pub issue_token : String × String → Handler S (OAuth2LoginOut S.jwt.Token)
  unfolding checked_user get_user_by_email
  issue_token form = do
    found ← get_user_by_email S (S.lower (strip form.0))
    user ← checked_user found form.1 "Невірний email або пароль."
    tokens ← issue_tokens_for_user S user.id true false
    access ← lift (required tokens.access_token)
    pure (record { access_token = access; token_type = tokens.token_type; refresh = none })

  unfoldable pub api_refresh : S.jwt.Token → Handler S (TokenPair S.jwt.Token)
  unfolding token_pair
  api_refresh refresh = do
    payload ← decode_token S refresh "refresh"
    jti ← lift (item payload.jti)
    sub ← lift (item payload.sub)
    exp ← lift (item payload.exp)
    let prefix = S.settings.token_cache_prefix
    revoked ← ask_redis (is_revoked S.redis prefix jti)
    reject_if revoked 401 "Refresh token revoked"
    stored ← ask_redis (get_refresh S.redis S.json prefix jti)
    known ← lift stored
    reject_if (is_falsy known) 401 "Refresh token invalid/expired"
    user_id ← lift (to_int (parse_int (digit_value S.unicode_digit) sub))
    new_tokens ← issue_tokens_for_user S user_id true true
    revoked_at ← utc_now
    on_redis (revoke S.redis prefix revoked_at jti (datetime (exp * 1000000)))
    lift (token_pair new_tokens)

  -- `except ValueError`
  bad_refresh : Exception → Handler S Claims
  bad_refresh value_error = fail (http_exception 401 "Invalid refresh token")
  bad_refresh e = fail e

  unfoldable pub api_logout : ℤ → S.jwt.Token → User → Handler S (Unit {0})
  unfolding bad_refresh check_authorization
  api_logout user_id refresh current_user = do
    check_authorization S user_id current_user.id
    payload ← catch (decode_token S refresh "refresh") bad_refresh
    reject_if (not (text_or_empty payload.token_type == "refresh")) 400 "Invalid token type"
    reject_if (lacks_text payload.sub || lacks_text payload.jti || lacks_number payload.exp) 400
        "Malformed refresh token"
    let jti = text_or_empty payload.jti
    let prefix = S.settings.token_cache_prefix
    revoked ← ask_redis (is_revoked S.redis prefix jti)
    reject_if revoked 409 "Session already closed or not found"
    stored ← ask_redis (get_refresh S.redis S.json prefix jti)
    known ← lift stored
    reject_if (is_falsy known) 409 "Session already closed or not found"
    revoked_at ← utc_now
    on_redis (revoke S.redis prefix revoked_at jti (timestamp (number_or_zero payload.exp)))
    on_redis (delete_refresh S.redis prefix jti)
    record_name "auth_logout"

  -- `except IntegrityError` of the change of a password
  undo_change : Exception → Handler S (Unit {0})
  undo_change integrity_error = do
    on_db S.db.rollback
    fail (http_exception 500 "Could not change password due to a database error.")
  undo_change e = fail e

  known_user : Option User → Result User
  known_user none = raise (http_exception 404 "User not found.")
  known_user (some u) = ok u

  unfoldable pub api_change_password : ℤ → ChangePasswordIn → User → Handler S (Unit {0})
  unfolding undo_change known_user check_authorization verify_password get_password_hash
  api_change_password user_id payload current_user = do
    check_authorization S user_id current_user.id
    found ← ask_db (S.db.get_user current_user.id)
    user ← lift (known_user found)
    reject_if (not (verify_password S payload.current_password user.hashed_password)) 401
        "Current password is incorrect."
    reject_if (payload.current_password == payload.new_password) 400
        "New password must differ from current password."
    hashed ← get_password_hash S payload.new_password
    on_db (S.db.set_hashed_password user.id hashed)
    catch commit undo_change
    on_redis
        (λ s. (revoke_all_user_refresh S.redis S.settings.token_cache_prefix current_user.id s).1)
    record_name "auth_change_password"
