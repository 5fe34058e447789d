-- ===== src/UserAuth/Routers/Register.antt =====
-- `api_register` of src/user_auth/routers.py.
use events_api.Common.{suc, String, ◌≡◌, refl, ◌⊎◌, true, none, some, ap, ◌∙◌, inl, inr, [], ◌∷◌}
use events_api.Common.Result.{Result, ok, raise, http_exception, integrity_error}
use events_api.External.Database.{DatabaseLaws}
use events_api.External.Services.{Services, CryptLaws}
use events_api.Metrics.{record_event}
use events_api.Handler.{World}
use events_api.DataBase.Models.{User}
use events_api.DataBase.Crud.{create_user}
use events_api.UserAuth.Schemas.{UserRegister, LoginIn, TokenPair}
use events_api.UserAuth.Routers.{api_register, api_login}
use events_api.UserAuth.Routers.Login.{login_pair, api_login_lem}

module _ (S : Services) (payload : UserRegister) where
  abbrev pub new_hash : World S → String
  new_hash w = S.pwd_context.hash (S.random w.draws) payload.password

  -- the outcome of the commit of the new user
  abbrev pub committed : World S → Result (Unit {0}) × S.db.State
  committed w = S.db.commit (S.db.add_user payload.email (new_hash w) w.db)

  -- An email that is taken is refused with 409, whether it is found beforehand or the unique index
  -- finds it at the commit; neither the database nor the cache nor the metrics have changed then.
  pub api_register-conflict :
      (D : DatabaseLaws S.db) (w : World S)
      → D.IsClean w.db
      → ((u : User) × (S.db.select_by_email payload.email w.db ≡ some u))
        ⊎ ((S.db.select_by_email payload.email w.db ≡ none)
            × ((committed w).0 ≡ raise integrity_error))
      → ((api_register S payload w).0
          ≡ raise (http_exception 409 "User with this email already exists."))
        × ((api_register S payload w).1.db ≡ w.db)
        × ((api_register S payload w).1.redis ≡ w.redis)
        × ((api_register S payload w).1.metrics ≡ w.metrics)
  unfolding api_register create_user
  api_register-conflict D w clean (inl (u, taken)) = rw taken (refl, refl, refl, refl)
  api_register-conflict D w clean (inr (free, clash)) =
      rw (free, clash)
        (
          refl,
          D.rollback-add payload.email (new_hash w) w.db integrity_error clean clash,
          refl,
          refl,
        )

  -- the state that a registration leaves
  abbrev registered : World S → World S
  registered w = record {
    redis = w.redis;
    db = (committed w).1;
    reads = w.reads;
    draws = suc w.draws;
    metrics = record_event (some (("name", "auth_register") ∷ [])) w.metrics;
  }

  api_register_done :
      (w : World S) (u : User)
      → S.db.select_by_email payload.email w.db ≡ none
      → (committed w).0 ≡ ok tt
      → S.db.refresh_added (committed w).1 ≡ ok u
      → api_register S payload w ≡ (ok u, registered w)
  unfolding api_register create_user
  api_register_done w u free done refreshed = rw (free, done, refreshed)

  -- A registration that is committed returns the new user, and that user can log in with the
  -- password that was sent: in any state with the database that the registration left, the login
  -- returns a token pair.
  pub api_login-api_register :
      (D : DatabaseLaws S.db) (C : CryptLaws S.pwd_context) (w v : World S)
      → D.IsClean w.db
      → S.db.select_by_email payload.email w.db ≡ none
      → (committed w).0 ≡ ok tt
      → v.db ≡ (api_register S payload w).1.db
      → (u : User) × (pair : TokenPair S.jwt.Token) × ((api_register S payload w).0 ≡ ok u)
        × (u.email ≡ payload.email)
        × ((api_login S (record { email = payload.email; password = payload.password }) v).0
            ≡ ok pair)
  api_login-api_register D C w v clean free done later =
      let (u, refreshed, by_email, by_id, same_email, same_hash) =
        D.added payload.email (new_hash w) w.db clean done in
      let outcome = api_register_done w u free done refreshed in
      let login : LoginIn = record { email = payload.email; password = payload.password } in
      let here : v.db ≡ (committed w).1 =
        later ∙ ap (λ (x : Result User × World S). x.1.db) outcome in
      let known : S.db.select_by_email payload.email v.db ≡ some u =
        ap (S.db.select_by_email payload.email) here ∙ by_email in
      let right : S.pwd_context.verify payload.password u.hashed_password ≡ true =
        rw same_hash (C.verify-hash (S.random w.draws) payload.password) in
      (
        u,
        login_pair S login v u known right,
        ap (λ (x : Result User × World S). x.0) outcome,
        same_email,
        ap (λ (x : Result (TokenPair S.jwt.Token) × World S). x.0)
            (api_login_lem S login v u known right),
      )
