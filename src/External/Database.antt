-- ===== src/External/Database.antt =====
-- SQLAlchemy's `AsyncSession` over PostgreSQL, as far as the table of users goes.
use events_api.Common.{String, ◌≡◌, Option, some}
use events_api.Common.Int.{ℤ}
use events_api.Common.Result.{Exception, Result, ok, raise, integrity_error}
use events_api.DataBase.Models.{User}

-- A state is what is committed and what the session has pending.
pub record Database : Type 1 where
  pub State : Type 0
  -- `select(User).where(User.email == email).limit(1)` and `select(User).where(User.id == id)`,
  -- each with `scalar_one_or_none`, and `db.get(User, id)`
  pub select_by_email : String → State → Option User
  pub select_by_id : ℤ → State → Option User
  pub get_user : ℤ → State → Option User
  -- `db.add(User(email=…, hashed_password=…))`, and the assignment to `user.hashed_password`
  pub add_user : String → String → State → State
  pub set_hashed_password : ℤ → String → State → State
  pub commit : State → Result (Unit {0}) × State
  pub rollback : State → State
  -- `db.refresh(user)`, of the user that was added last
  pub refresh_added : State → Result User

-- `IsClean s`: the session of `s` has nothing pending.
pub record DatabaseLaws (d : Database) : Type 1 where
  pub IsClean : d.State → Type 0
  -- the unique index on `users.email`
  pub add-duplicate :
      (email hash : String) (s : d.State) (u : User)
      → IsClean s
      → d.select_by_email email s ≡ some u
      → (d.commit (d.add_user email hash s)).0 ≡ raise integrity_error
  -- a transaction that fails is undone by the rollback
  pub rollback-add :
      (email hash : String) (s : d.State) (e : Exception)
      → IsClean s
      → (d.commit (d.add_user email hash s)).0 ≡ raise e
      → d.rollback (d.commit (d.add_user email hash s)).1 ≡ s
  -- a user that is committed is found by email and by id, with the columns that were given
  pub added :
      (email hash : String) (s : d.State)
      → IsClean s
      → (d.commit (d.add_user email hash s)).0 ≡ ok tt
      → (u : User) × (d.refresh_added (d.commit (d.add_user email hash s)).1 ≡ ok u)
        × (d.select_by_email email (d.commit (d.add_user email hash s)).1 ≡ some u)
        × (d.select_by_id u.id (d.commit (d.add_user email hash s)).1 ≡ some u)
        × (u.email ≡ email)
        × (u.hashed_password ≡ hash)
  -- a new password hash that is committed is found, in a user with the same id
  pub updated :
      (id : ℤ) (hash : String) (s : d.State) (u : User)
      → IsClean s
      → d.get_user id s ≡ some u
      → (d.commit (d.set_hashed_password id hash s)).0 ≡ ok tt
      → (u' : User) × (d.get_user id (d.commit (d.set_hashed_password id hash s)).1 ≡ some u')
        × (u'.hashed_password ≡ hash)
        × (u'.id ≡ u.id)
