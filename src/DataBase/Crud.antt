-- ===== src/DataBase/Crud.antt =====
-- src/data_base/crud.py: users by email, their creation, and the user of a bearer token.
use events_api.Common.{
  suc, ◌≡◌, refl, String, Bool, Option, none, some, [], ◌∷◌, ◌==◌, if◌then◌else◌,
}
use events_api.Common.Int.{ℤ, pos}
use events_api.Common.Result.{
  Exception, http_exception, integrity_error, sqlalchemy_error, value_error, runtime_error,
  key_error, jwt_error, arithmetic_error, other_error, Result, ok, raise,
}
use events_api.Common.Text.{str_int, parse_int, digit_value}
use events_api.Common.Text.Numbers.{parse_int-str_int, str_int-ne-empty}
use events_api.External.Jwt.{Claims, JwtLaws}
use events_api.External.Services.{Services}
use events_api.Handler.{
  World, Handler, pure, fail, lift, catch, utc_now, ask_db, on_db, commit, ◌>>=◌, ◌>>◌,
}
use events_api.DataBase.Models.{User}
use events_api.UserAuth.Schemas.{UserRegister}
use events_api.UserAuth.Utils.{get_password_hash}

abbrev pub cred_exc : Exception
cred_exc = http_exception 401 "Could not validate credentials"

-- `payload.get("sub")`, where a missing or empty subject raises
-- and `except JWTError`; any other exception of the decoding passes
subject : Result Claims → Result String
subject (raise jwt_error) = raise cred_exc
subject (raise e) = raise e
subject (ok c) = elim c.sub [
  | none ↦ raise cred_exc
  | some sub ↦ if sub == "" then raise cred_exc else ok sub
]

subject-raise : (e : Exception) → (e' : Exception) × (subject (raise e) ≡ raise e')
unfolding subject
subject-raise (http_exception s d) = (_, refl)
subject-raise integrity_error = (_, refl)
subject-raise sqlalchemy_error = (_, refl)
subject-raise value_error = (_, refl)
subject-raise runtime_error = (_, refl)
subject-raise key_error = (_, refl)
subject-raise jwt_error = (_, refl)
subject-raise arithmetic_error = (_, refl)
subject-raise other_error = (_, refl)

-- `int(text)`, which raises `ValueError`
abbrev pub to_int : Option ℤ → Result ℤ
to_int none = raise value_error
to_int (some n) = ok n

found : Option User → Result User
found none = raise cred_exc
found (some u) = ok u

module _ (S : Services) where
  unfoldable pub get_user_by_email : String → Handler S (Option User)
  get_user_by_email email = ask_db (S.db.select_by_email email)

  -- both `except` clauses roll back and raise again; other exceptions pass
  undo : Exception → Handler S User
  undo integrity_error = do on_db S.db.rollback; fail integrity_error
  undo sqlalchemy_error = do on_db S.db.rollback; fail sqlalchemy_error
  undo e = fail e

  unfoldable pub create_user : UserRegister → Handler S User
  unfolding undo get_password_hash
  create_user payload = do
    hashed ← get_password_hash S payload.password
    on_db (S.db.add_user payload.email hashed)
    catch (do commit; user ← ask_db S.db.refresh_added; lift user) undo

  unfoldable pub get_current_user : Option S.jwt.Token → Handler S User
  unfolding subject found
  get_current_user token = do
    now ← utc_now
    let payload =
        S.jwt.jose_decode now token S.settings.access_secret (S.settings.jwt_alg ∷ [])
          S.settings.jwt_audience S.settings.jwt_issuer 30
    user_id ← lift (subject payload)
    id ← lift (to_int (parse_int (digit_value S.unicode_digit) user_id))
    user ← ask_db (S.db.select_by_id id)
    lift (found user)

-- `User | BenchmarkUser`, what the statistics endpoints take as the current user
pub data CurrentUser : Type 0 where
  user : User → CurrentUser
  benchmark_user : CurrentUser

abbrev pub current_id : CurrentUser → ℤ
current_id (user u) = u.id
current_id benchmark_user = pos 0

module _ (S : Services) where
  -- `token` is none where the request has no bearer token
  unfoldable pub benchmark_or_auth : Bool → Option S.jwt.Token → Handler S CurrentUser
  benchmark_or_auth is_benchmark token =
      if is_benchmark then pure benchmark_user else (do u ← get_current_user S token; pure (user u))

module _ (S : Services) where
  -- An access token whose claims name the id of a user in the table identifies that user.
  -- a request without a token has no user
  pub get_current_user-none :
      (tokens : JwtLaws S.jwt) (w : World S)
      → (e : Exception) × ((get_current_user S none w).0 ≡ raise e)
  unfolding get_current_user
  get_current_user-none tokens w =
      let (e, fails) =
        tokens.jose-none (S.clock w.reads) S.settings.access_secret (S.settings.jwt_alg ∷ [])
          S.settings.jwt_audience S.settings.jwt_issuer 30 in
      let (e', refused) = subject-raise e in (e', rw (fails, refused) refl)

  pub get_current_user-decoded :
      (token : Option S.jwt.Token) (w : World S) (c : Claims) (id : ℤ) (u : User)
      → S.jwt.jose_decode
          (S.clock w.reads)
          token
          S.settings.access_secret
          (S.settings.jwt_alg ∷ [])
          S.settings.jwt_audience
          S.settings.jwt_issuer
          30
        ≡ ok c
      → c.sub ≡ some (str_int id)
      → S.db.select_by_id id w.db ≡ some u
      → get_current_user S token w ≡ (ok u, record w { reads = suc w.reads })
  unfolding get_current_user
  get_current_user-decoded token w c id u decoded sub there =
      rw (decoded, sub, str_int-ne-empty id, parse_int-str_int S.unicode_digit id, there)
