-- ===== src/UserAuth/Routers/ChangePassword/Exact.antt =====
-- When `api_change_password` of src/user_auth/routers.py changes a password.
use events_api.Common.{◌≡◌, ◌≢◌, true, some}
use events_api.Common.Int.{ℤ}
use events_api.Common.Result.{Result, ok}
use events_api.External.Services.{Services}
use events_api.Handler.{World}
use events_api.DataBase.Models.{User}
use events_api.UserAuth.Schemas.{ChangePasswordIn}

module _ (S : Services) (payload : ChangePasswordIn) (current_user : User) (w : World S) where
  -- what the commit of the new hash does
  abbrev outcome : User → Result (Unit {0}) × S.db.State
  outcome u = S.db.commit (
      S.db.set_hashed_password u.id (S.pwd_context.hash (S.random w.draws) payload.new_password)
        w.db)

  -- The request may change the password of this user, and the commit of the new hash succeeds.
  abbrev pub MayChange : ℤ → User → Type 0
  MayChange user_id u =
      (user_id ≡ current_user.id)
      × (S.db.get_user current_user.id w.db ≡ some u)
      × (S.pwd_context.verify payload.current_password u.hashed_password ≡ true)
      × (payload.current_password ≢ payload.new_password)
      × ((outcome u).0 ≡ ok tt)
