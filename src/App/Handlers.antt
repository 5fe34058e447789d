-- ===== src/App/Handlers.antt =====
-- The application as a whole: a request that has a route runs the limiter, the dependencies and the
-- checks of its fields, and then the route's function, on the state that the routes share.
pub mod Guessing
pub mod Users
pub mod Measured
pub mod Sessions
use events_api.Common.{
  ℕ, suc, String, Bool, true, false, Option, none, some, List, [], ◌∷◌, if◌then◌else◌,
}
use events_api.Common.Result.{Exception, http_exception, Result, ok, raise}
use events_api.Config.{Settings}
use events_api.DataBase.Models.{User}
use events_api.Events.Routers.{EventBase, EventWorld, EventsOut, add_unique_events}
use events_api.External.FastApi.{HttpRequest, Parsed, malformed, unfit, fields}
use events_api.Handler.{World, Handler}
use events_api.Metrics.{Metrics}
use events_api.Stats.Routers.{get_dau, get_top_events, get_cohort_analysis}
use events_api.UserAuth.Schemas.{UserOut}
use events_api.UserAuth.Routers.{
  api_register, api_login, issue_token, api_refresh, api_logout, api_change_password,
}
use events_api.App.Routes.{
  Endpoint, register, login, token, refresh, logout, change_password, add_events, dau, top_events,
  retention, root, Found, found, mounted, other_method, nothing, dispatch,
}
use events_api.App.Endpoints.{
  Parts, Answer, user_out, token_pair, oauth2_login_out, events_out, days, event_types, cohorts,
  no_content, redirect_docs, status_ok, static_file, Fields, Payload, Caller, validate, caller,
  is_limited, has_session,
}
use events_api.App.Pipeline.{Routed, answered, raised, invalid, no_route, wrong_method}

-- `response_model=schemas.UserOut`
abbrev pub shown_user : User → UserOut
shown_user u = record { id = u.id; email = u.email; created_at = u.created_at }

module _ (p : Parts) where
  abbrev pub AppAnswer : Type 0
  AppAnswer = Answer p.services.jwt.Token p.floats.Float

  -- the state that the routes share
  pub record Backend : Type 0 where
    pub world : World p.services
    pub table : p.event_table.State
    pub limits : p.limiter.State

  abbrev give : {A : Type 0} → ℕ → (A → AppAnswer) → Result A → Routed AppAnswer
  give status show (ok a) = answered status (show a)
  give status show (raise e) = raised e

  -- a handler of src/user_auth
  abbrev on_world :
      {A : Type 0}
      → ℕ
      → (A → AppAnswer)
      → Handler p.services A
      → Backend
      → Routed AppAnswer × Backend
  on_world status show m b = let r = m b.world in (give status show r.0, record b { world = r.1 })

  -- a route of the statistics, which reads the events and records one of its own
  abbrev on_stats :
      {A : Type 0}
      → (A → AppAnswer)
      → (Metrics → Result A × Metrics)
      → Backend
      → Routed AppAnswer × Backend
  on_stats show m b =
      let r = m b.world.metrics in
      (give 200 show r.0, record b { world = record b.world { metrics = r.1 } })

  abbrev on_table : List (EventBase p.event_table.Datetime) → Backend → Routed AppAnswer × Backend
  on_table events b =
      let r =
        add_unique_events p.event_table events
          (record { table = b.table; metrics = b.world.metrics }) in
      (
        give 201 events_out r.0,
        record b { world = record b.world { metrics = r.1.metrics }; table = r.1.table },
      )

  -- `root`
  abbrev pub root_answer : Bool → Routed AppAnswer
  root_answer debug = if debug then answered 302 redirect_docs else answered 200 status_ok

  -- `StaticFiles`
  abbrev static_answer : Result ℕ → Routed AppAnswer
  static_answer (ok status) = answered status static_file
  static_answer (raise e) = raised e

  -- the function of a route
  unfoldable pub call :
      (e : Endpoint) → Payload p e → Caller p e → Backend → Routed AppAnswer × Backend
  call register payload u b =
      on_world 201 (λ user. user_out (shown_user user)) (api_register p.services payload) b
  call login payload u b = on_world 200 token_pair (api_login p.services payload) b
  call token form u b = on_world 200 oauth2_login_out (issue_token p.services form) b
  call refresh payload u b = on_world 200 token_pair (api_refresh p.services payload.refresh) b
  call logout (id, payload) u b =
      on_world 204 (λ done. no_content) (api_logout p.services id payload.refresh u) b
  call change_password (id, payload) u b =
      on_world 204 (λ done. no_content) (api_change_password p.services id payload u) b
  call add_events events u b = on_table events b
  call dau (from_date, to_date, segment) u b =
      on_stats days (get_dau p.event_stats p.isoformat from_date to_date segment (p.view b.table)) b
  call top_events limit u b =
      on_stats event_types (get_top_events p.event_stats p.isoformat limit (p.view b.table)) b
  call retention (start_date, window) u b =
      on_stats cohorts
        (get_cohort_analysis p.event_stats p.floats (p.today (p.services.clock b.world.reads))
          start_date window (p.view b.table))
        (record b { world = record b.world { reads = suc b.world.reads } })
  call root payload u b = (root_answer p.services.settings.debug, b)

  abbrev checked :
      (e : Endpoint) → Option (Payload p e) → Caller p e → Backend → Routed AppAnswer × Backend
  checked e none u b = (invalid, b)
  checked e (some payload) u b = call e payload u b

  -- the dependencies are solved before the fields are checked
  abbrev known :
      (e : Endpoint)
      → Option (Payload p e)
      → Result (Caller p e)
      → Backend
      → Routed AppAnswer × Backend
  known e payload (raise x) b = (raised x, b)
  known e payload (ok u) b = checked e payload u b

  -- The session is closed after the request, which drops what it has not committed.
  abbrev pub close_session : Backend → Backend
  close_session b = record b {
    world = record b.world { db = p.services.db.rollback b.world.db };
    table = p.event_table.rollback b.table;
  }

  abbrev close_after : Bool → Routed AppAnswer × Backend → Routed AppAnswer × Backend
  close_after true (r, b) = (r, close_session b)
  close_after false (r, b) = (r, b)

  module _ (bearer : HttpRequest → Option p.services.jwt.Token)
      (parse : (e : Endpoint) → List String → HttpRequest → Parsed (Fields p e)) where
    abbrev solved :
        (e : Endpoint)
        → Option (Payload p e)
        → Bool
        → HttpRequest
        → Backend
        → Routed AppAnswer × Backend
    solved e payload is_benchmark r b =
        let c = caller p e is_benchmark (bearer r) b.world in
        close_after (has_session e) (known e payload c.0 (record b { world = c.1 }))

    abbrev passed :
        (e : Endpoint)
        → Option (Payload p e)
        → Bool
        → HttpRequest
        → Bool × p.limiter.State
        → Backend
        → Routed AppAnswer × Backend
    passed e payload is_benchmark r (false, l) b =
        (raised (http_exception 429 "Too Many Requests"), record b { limits = l })
    passed e payload is_benchmark r (true, l) b =
        solved e payload is_benchmark r (record b { limits = l })

    unfoldable pub limited :
        (e : Endpoint)
        → Option (Payload p e)
        → Bool
        → HttpRequest
        → Backend
        → Routed AppAnswer × Backend
    limited e payload is_benchmark r b =
        if is_limited e
        then passed e payload is_benchmark r (p.limiter.admit 5 60 r b.limits) b
        else solved e payload is_benchmark r b

    abbrev fitting :
        (e : Endpoint)
        → Bool
        → HttpRequest
        → Parsed (Fields p e)
        → Backend
        → Routed AppAnswer × Backend
    fitting e is_benchmark r malformed b = (invalid, b)
    fitting e is_benchmark r unfit b = limited e none is_benchmark r b
    fitting e is_benchmark r (fields sent) b = limited e (validate p e sent) is_benchmark r b

    abbrev reached : Found → Bool → HttpRequest → Backend → Routed AppAnswer × Backend
    reached nothing is_benchmark r b = (no_route, b)
    reached mounted is_benchmark r b = (static_answer (p.static_files r), b)
    reached other_method is_benchmark r b = (wrong_method, b)
    reached (found e ids) is_benchmark r b = fitting e is_benchmark r (parse e ids r) b

    -- the router of the application
    unfoldable pub app_router : Bool → HttpRequest → Backend → Routed AppAnswer × Backend
    app_router is_benchmark r b =
        reached (dispatch p.routing p.services.settings.api_prefix r.method r.path) is_benchmark r b
