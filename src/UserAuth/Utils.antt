-- ===== src/UserAuth/Utils.antt =====
-- src/user_auth/utils.py
use events_api.Common.{String, Bool, not}
use events_api.Common.Int.{ℤ, eq_ℤ}
use events_api.External.Services.{Services}
use events_api.Handler.{Handler, pure, draw, reject_if, ◌>>=◌}

module _ (S : Services) where
  -- bcrypt draws a salt for each hash
  unfoldable pub get_password_hash : String → Handler S String
  get_password_hash password = do salt ← draw; pure (S.pwd_context.hash salt password)

  unfoldable pub verify_password : String → String → Bool
  verify_password plain_password hashed_password =
      S.pwd_context.verify plain_password hashed_password

  unfoldable pub check_authorization : ℤ → ℤ → Handler S (Unit {0})
  check_authorization user_id current_user_id =
      reject_if (not (eq_ℤ user_id current_user_id)) 403 "You can only access your own data."
