-- ===== src/App/Endpoints.antt =====
-- What the routes are given: the values that pydantic takes from a request, the schemas of
-- src/user_auth/schemas.py and src/endpoint_events/schemas.py that check them, and the user of the
-- request. A number below 0 is not one of the values of a parameter with `ge=1`.
use events_api.Common.{
  ℕ, String, Bool, true, false, ◌&&◌, Option, none, some, List, [], ◌∷◌, if◌then◌else◌,
}
use events_api.Common.Int.{ℤ}
use events_api.Common.Result.{http_exception, Result}
use events_api.DataBase.Crud.{CurrentUser, get_current_user, benchmark_or_auth}
use events_api.DataBase.Models.{User}
use events_api.Events.Routers.{EventBase, fits_event_type, EventsOut}
use events_api.External.EventStats.{EventStats}
use events_api.External.EventTable.{EventTable}
use events_api.External.FastApi.{HttpRequest, Limiter}
use events_api.External.Services.{Services}
use events_api.Handler.{Handler, pure, fail}
use events_api.Stats.Routers.{Retention, in_bounds}
use events_api.Stats.Utils.{Floats}
use events_api.UserAuth.Schemas.{
  UserRegister, LoginIn, ChangePasswordIn, UserOut, OAuth2LoginOut, TokenPair, TokenRefreshIn,
  LogoutIn, Validated, valid, invalid, user_register, login_in, change_password_in,
}
use events_api.App.Routes.{
  Endpoint, register, login, token, refresh, logout, change_password, add_events, dau, top_events,
  retention, root, Routing,
}

-- All that the application runs on. `view` is the table of events as the statistics read it, and
-- `today` is `date.today()` by a reading of the clock. `static_files` is the answer of `StaticFiles`,
-- a status code or an exception.
pub record Parts : Type 1 where
  pub services : Services
  pub event_table : EventTable
  pub event_stats : EventStats
  pub floats : Floats
  pub limiter : Limiter
  pub view : event_table.State → event_stats.State
  pub isoformat : ℕ → String
  pub today : ℕ → ℕ
  pub routing : Routing
  pub static_files : HttpRequest → Result ℕ

-- what the routes return
pub data Answer (Token F : Type 0) : Type 0 where
  user_out : UserOut → Answer Token F
  token_pair : TokenPair Token → Answer Token F
  oauth2_login_out : OAuth2LoginOut Token → Answer Token F
  events_out : EventsOut → Answer Token F
  days : List (String × ℕ) → Answer Token F
  event_types : List (String × ℕ) → Answer Token F
  cohorts : Retention F → Answer Token F
  no_content redirect_docs status_ok static_file : Answer Token F

abbrev optional : {A : Type 0} → Validated A → Option A
optional (valid a) = some a
optional (invalid e) = none

abbrev pub or_default : ℕ → Option ℕ → ℕ
or_default n none = n
or_default n (some m) = m

abbrev pub all_fit : {D : Type 0} → List (EventBase D) → Bool
all_fit [] = true
all_fit (e ∷ es) = fits_event_type e.event_type && all_fit es

-- `dependencies=[Depends(RateLimiter(times=5, seconds=60))]`
abbrev pub is_limited : Endpoint → Bool
is_limited register = true
is_limited login = true
is_limited add_events = true
is_limited dau = true
is_limited top_events = true
is_limited retention = true
is_limited e = false

-- `Depends(resources.get_session)`, of the route or of its user
abbrev pub has_session : Endpoint → Bool
has_session refresh = false
has_session root = false
has_session e = true

module _ (p : Parts) where
  -- the fields that are sent; of a refresh the id in the path is not read
  abbrev pub Fields : Endpoint → Type 0
  Fields register = String × String × String
  Fields login = String × String
  Fields token = String × String
  Fields refresh = TokenRefreshIn p.services.jwt.Token
  Fields logout = ℤ × LogoutIn p.services.jwt.Token
  Fields change_password = ℤ × (String × String × String)
  Fields add_events = List (EventBase p.event_table.Datetime)
  Fields dau = ℕ × ℕ × Option String
  Fields top_events = Option ℕ
  Fields retention = ℕ × Option ℕ
  Fields root = Unit

  -- what the functions of the routes get of them
  abbrev pub Payload : Endpoint → Type 0
  Payload register = UserRegister
  Payload login = LoginIn
  Payload token = String × String
  Payload refresh = TokenRefreshIn p.services.jwt.Token
  Payload logout = ℤ × LogoutIn p.services.jwt.Token
  Payload change_password = ℤ × ChangePasswordIn
  Payload add_events = List (EventBase p.event_table.Datetime)
  Payload dau = ℕ × ℕ × Option String
  Payload top_events = ℕ
  Payload retention = ℕ × ℕ
  Payload root = Unit

  abbrev with_id : {A : Type 0} → ℤ → Option A → Option (ℤ × A)
  with_id id none = none
  with_id id (some a) = some (id, a)

  abbrev pub validate : (e : Endpoint) → Fields e → Option (Payload e)
  validate register (email, password, confirm) =
      optional (user_register p.services.unicode_word email password confirm)
  validate login (email, password) = optional (login_in email password)
  validate token form = some form
  validate refresh payload = some payload
  validate logout fields = some fields
  validate change_password (id, (current, new, confirm)) =
      with_id id (optional (change_password_in p.services.unicode_word current new confirm))
  validate add_events events = if all_fit events then some events else none
  validate dau query = some query
  validate top_events limit =
      if in_bounds 1 100 (or_default 10 limit) then some (or_default 10 limit) else none
  validate retention (start, window) =
      if in_bounds 1 52 (or_default 4 window) then some (start, or_default 4 window) else none
  validate root sent = some tt

  -- `current_user` of the routes that have one
  abbrev pub Caller : Endpoint → Type 0
  Caller logout = User
  Caller change_password = User
  Caller dau = CurrentUser
  Caller top_events = User
  Caller retention = User
  Caller e = Unit

  -- `OAuth2PasswordBearer`, which refuses a request without a bearer token
  abbrev pub required_user : Option p.services.jwt.Token → Handler p.services User
  required_user none = fail (http_exception 401 "Not authenticated")
  required_user (some bearer) = get_current_user p.services (some bearer)

  abbrev pub caller :
      (e : Endpoint) → Bool → Option p.services.jwt.Token → Handler p.services (Caller e)
  caller logout is_benchmark bearer = required_user bearer
  caller change_password is_benchmark bearer = required_user bearer
  caller dau is_benchmark bearer = benchmark_or_auth p.services is_benchmark bearer
  caller top_events is_benchmark bearer = required_user bearer
  caller retention is_benchmark bearer = required_user bearer
  caller register is_benchmark bearer = pure tt
  caller login is_benchmark bearer = pure tt
  caller token is_benchmark bearer = pure tt
  caller refresh is_benchmark bearer = pure tt
  caller add_events is_benchmark bearer = pure tt
  caller root is_benchmark bearer = pure tt
