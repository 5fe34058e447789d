-- ===== src/App/Handlers/Sessions.antt =====
-- A user who logs in and then asks for statistics.
use events_api.Common.{ℕ, ◌+◌, ◌/◌, ◌≤◌, String, ◌≡◌, refl, ap, Bool, true, Option, some, List}
use events_api.Common.Result.{Result, ok}
use events_api.DataBase.Models.{User}
use events_api.External.FastApi.{HttpRequest, Parsed, fields}
use events_api.External.Jwt.{JwtLaws}
use events_api.Handler.{World}
use events_api.Stats.Routers.{get_top_events}
use events_api.TokenCache.Issue.{access_lifetime}
use events_api.UserAuth.Routers.Login.{
  login_pair, login_world, api_login_lem, get_current_user-api_login,
}
use events_api.UserAuth.Schemas.{LoginIn, TokenPair}
use events_api.App.Routes.{Endpoint, login, top_events, found, dispatch}
use events_api.App.Endpoints.{Parts, Fields, validate, token_pair, event_types}
use events_api.App.Handlers.{AppAnswer, Backend, call, limited, app_router, close_session}
use events_api.App.Pipeline.{Routed, answered}

module _ (p : Parts) (bearer : HttpRequest → Option p.services.jwt.Token)
    (parse : (e : Endpoint) → List String → HttpRequest → Parsed (Fields p e)) where
  -- The request has its route, passes the limiter, and its fields are valid.
  pub record Sent (e : Endpoint) (r : HttpRequest) (b : Backend p) : Type 0 where
    pub ids : List String
    pub way : dispatch p.routing p.services.settings.api_prefix r.method r.path ≡ found e ids
    pub sent : Fields p e
    pub parsed : parse e ids r ≡ fields sent
    pub limits : p.limiter.State
    pub passes : p.limiter.admit 5 60 r b.limits ≡ (true, limits)

  module _ (r : HttpRequest) (b : Backend p) (s : Sent login r b) (payload : LoginIn) (u : User)
      (fits : validate p login s.sent ≡ some payload)
      (known : p.services.db.select_by_email payload.email b.world.db ≡ some u)
      (right : p.services.pwd_context.verify payload.password u.hashed_password ≡ true) where
    abbrev pub pair : TokenPair p.services.jwt.Token
    pair = login_pair p.services payload b.world u known right

    -- the state after the login
    abbrev pub logged_in : Backend p
    logged_in = close_session p (record b {
      world = login_world p.services payload b.world u known right;
      limits = s.limits;
    })

    login_answered :
        (is_benchmark : Bool)
        → app_router p bearer parse is_benchmark r b ≡ (answered 200 (token_pair pair), logged_in)
    unfolding app_router limited call
    login_answered is_benchmark =
        rw (s.way, s.parsed, s.passes, fits, api_login_lem p.services payload b.world u known right)
          refl

    -- A request for a login with the right password is answered with a token pair, and a later
    -- request for the most frequent events that bears the access token of the pair is answered
    -- with the rows of the query, up to 30 seconds past the expiry of the token, whatever has
    -- become of the cache, the database, the table of events, the limiter and the metrics since:
    -- where both pass the limiter with valid fields, the settings name the issuer and the audience
    -- that tokens are made with, and the user is then still in the table.
    pub top_events-api_login :
        (is_benchmark : Bool) (tokens : JwtLaws p.services.jwt) (r' : HttpRequest) (b' : Backend p)
        (s' : Sent top_events r' b') (limit : ℕ) (rows : List (String × ℕ))
        → bearer r' ≡ some pair.access
        → validate p top_events s'.sent ≡ some limit
        → p.services.settings.jwt_audience ≡ "auth_api"
        → p.services.settings.jwt_issuer ≡ "your-auth"
        → p.services.clock b'.world.reads / 1000000
          ≤ (p.services.clock b.world.reads + access_lifetime) / 1000000 + 30
        → p.services.db.select_by_id u.id b'.world.db ≡ some u
        → p.event_stats.top limit (p.view b'.table) ≡ ok rows
        → ((app_router p bearer parse is_benchmark r b).0 ≡ answered 200 (token_pair pair))
          × ((app_router p bearer parse is_benchmark r' b').0 ≡ answered 200 (event_types rows))
    unfolding app_router limited call get_top_events
    top_events-api_login is_benchmark tokens r' b' s' limit rows bears fits' audience issuer early
          there top =
        (
          ap (λ (x : Routed (AppAnswer p) × Backend p). x.0) (login_answered is_benchmark),
          rw
              (
                s'.way,
                s'.parsed,
                s'.passes,
                bears,
                fits',
                get_current_user-api_login p.services payload b.world u known right tokens pair
                    b'.world
                    (ap (λ (x : Result (TokenPair p.services.jwt.Token) × World p.services). x.0)
                      (api_login_lem p.services payload b.world u known right))
                    audience issuer early there,
                top,
              )
              refl,
        )
