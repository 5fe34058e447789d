-- ===== src/Examples/Site.antt =====
-- Requests to the application, from the middleware to the routes.
use events_api.Common.{
  String, ◌≡◌, refl, inr, false, Option, none, some, arith, List, [], ◌∷◌, ◌==◌, length,
}
use events_api.Common.Text.{any_char, strip, str_int, parse_int, digit_value}
use events_api.Config.{default_settings}
use events_api.DataBase.Crud.{get_current_user}
use events_api.Common.Split.{after_prefix}
use events_api.Infrastructure.Benchmark.{benchmark_token_middleware}
use events_api.Metrics.{http_metrics_middleware}
use events_api.UserAuth.Routers.{issue_token}
use events_api.Logs.{http_exception_handler}
use events_api.App.Routes.{
  login, found, dispatch, top_events, api_router, app_entries, auth_router, event_router,
  stats_router, is_reserved,
}
use events_api.Logs.{entry_of, warning}
use events_api.Samples.Routing.{literal_routing, literal_routing_laws, search, find as find_route}
use events_api.App.Handlers.Sessions.{Sent, pair, top_events-api_login}
use events_api.UserAuth.Routers.Login.{login_pair}
use events_api.UserAuth.Schemas.{LoginIn, login_in, check_length}
use events_api.External.FastApi.{HttpRequest}
use events_api.Samples.OpenJwt.{Signed, open_jwt_laws}
use events_api.App.Endpoints.{validate, token_pair, event_types}
use events_api.App.Handlers.{Backend, limited, call, app_router}
use events_api.App.Handlers.Guessing.{Guess, serve_all-Guesses}
use events_api.App.Handlers.Users.{Identified, app_router-Admitted}
use events_api.App.Pipeline.{Timed, handle_exceptions, middleware, serve_all, answered}
use events_api.App.Pipeline.Outcomes.{visits, responses, counted, timed, noted}
use events_api.App.Pipeline.Accounts.{serve_all-accounts}
use events_api.Stats.Routers.{get_top_events, in_bounds}
use events_api.Samples.App.{app, start, ann}
use events_api.Samples.ListDatabase.{find}
use events_api.Samples.OpenJwt.{jose_decode, accepts}
use events_api.Samples.Site.{site, statuses, bearer, parse, backend, no_requests, request}

abbrev five_requests : List Timed
five_requests =
    request "GET" "/" none "" ""
    ∷ request "POST" "/auth/token" none "ann@example.com" "Passw0rd?"
    ∷ request "GET" "/stats/top-events" none "" ""
    ∷ request "GET" "/stats/top-events" none "" ""
    ∷ request "GET" "/nowhere" none "" ""
    ∷ []

serve_all-accounts_example :
    serve_all statuses site.services.settings
      (app_router site bearer parse)
      five_requests
      (no_requests, record { backend = backend; log = [] })
    ≡ (
      responses statuses site.services.settings
          (app_router site bearer parse)
          (visits statuses site.services.settings
            (app_router site bearer parse)
            five_requests
            backend).0,
      (
        record {
          requests_total =
              counted
                (visits statuses site.services.settings
                  (app_router site bearer parse)
                  five_requests
                  backend).0
                [];
          request_durations =
              timed
                (visits statuses site.services.settings
                  (app_router site bearer parse)
                  five_requests
                  backend).0
                [];
        },
        record {
          backend =
              (visits statuses site.services.settings
                (app_router site bearer parse)
                five_requests
                backend).1;
          log =
              noted
                (visits statuses site.services.settings
                  (app_router site bearer parse)
                  five_requests
                  backend).0
                [];
        },
      ),
    )
serve_all-accounts_example =
    serve_all-accounts statuses site.services.settings (app_router site bearer parse) five_requests
      no_requests (record { backend = backend; log = [] })

-- the five responses
five_responses :
    (serve_all statuses site.services.settings
      (app_router site bearer parse)
      five_requests
      (no_requests, record { backend = backend; log = [] })).0
    ≡ 200 ∷ 401 ∷ 401 ∷ 429 ∷ 404 ∷ []
unfolding find default_settings app_router limited call dispatch app_entries search find_route
    api_router auth_router event_router stats_router after_prefix middleware
    benchmark_token_middleware http_metrics_middleware handle_exceptions http_exception_handler
    issue_token get_current_user strip
five_responses = refl

ann-Guess :
    (password : String)
    → (password == ann.hashed_password) ≡ false
    → Guess site statuses bearer parse backend
        (request "POST" "/auth/token" none "ann@example.com" password)
unfolding find default_settings strip
ann-Guess password wrong = record {
  form = ("ann@example.com", password);
  method_eq = refl;
  path_eq = refl;
  sent = refl;
  plain = refl;
  wrong = inr (ann, refl, wrong);
}

serve_all-Guesses_example :
    let guesses =
      request "POST" "/auth/token" none "ann@example.com" "1"
      ∷ request "POST" "/auth/token" none "ann@example.com" "2"
      ∷ [] in
    let served =
      serve_all statuses site.services.settings
        (app_router site bearer parse)
        guesses
        (no_requests, record { backend = backend; log = [] }) in
    (served.0 ≡ 401 ∷ 401 ∷ [])
    × (served.1.1.backend ≡ backend)
    × (length served.1.0.requests_total ≡ 2)
    × (served.1.1.log
        ≡ entry_of warning 401
            (request "POST" "/auth/token" none "ann@example.com" "2").request
            (some "Невірний email або пароль.")
          ∷ entry_of warning 401
              (request "POST" "/auth/token" none "ann@example.com" "1").request
              (some "Невірний email або пароль.")
          ∷ [])
unfolding default_settings is_reserved any_char after_prefix
serve_all-Guesses_example =
    serve_all-Guesses site statuses bearer parse backend refl refl literal_routing_laws refl refl
      no_requests []
      (request "POST" "/auth/token" none "ann@example.com" "1"
        ∷ request "POST" "/auth/token" none "ann@example.com" "2"
        ∷ [])
      (ann-Guess "1" refl, (ann-Guess "2" refl, tt))

-- a request with a token
abbrev top_request : Timed
top_request = request "GET" "/stats/top-events" (some "Bearer t") "" ""

top_way : dispatch literal_routing "" "GET" "/stats/top-events" ≡ found top_events []
unfolding dispatch app_entries search find_route api_router auth_router event_router stats_router
    after_prefix
top_way = refl

login_way : dispatch literal_routing "" "POST" "/auth/login" ≡ found login []
unfolding dispatch app_entries search find_route api_router auth_router event_router stats_router
    after_prefix
login_way = refl

top_answered :
    (benchmark_token_middleware none "/stats/top-events"
      (some "Bearer t")
      (λ is_benchmark. app_router site bearer parse is_benchmark top_request.request backend)).0
    ≡ answered 200 (event_types [])
unfolding find default_settings app_router limited call dispatch app_entries search find_route
    api_router auth_router event_router stats_router after_prefix benchmark_token_middleware
    get_current_user jose_decode accepts get_top_events in_bounds str_int parse_int digit_value
top_answered = refl

app_router-Admitted_example : Identified site bearer parse top_request.request backend
unfolding default_settings
app_router-Admitted_example =
    app_router-Admitted site bearer parse open_jwt_laws top_request.request backend top_events []
      200 (event_types []) top_way top_answered

-- ann logs in, and asks for the most frequent events with the token of her login
abbrev twice : Backend site
twice = record backend { limits = 2 }

abbrev login_request : Timed
login_request = request "POST" "/auth/login" none "ann@example.com" "Passw0rd!"

abbrev ann_login : LoginIn
ann_login = record { email = "ann@example.com"; password = "Passw0rd!" }

ann_known : app.db.select_by_email "ann@example.com" start.db ≡ some ann
unfolding find
ann_known = refl

abbrev bearing : HttpRequest → Option Signed
bearing r = some (login_pair app ann_login start ann ann_known refl).access

login_sent : Sent site bearing parse login login_request.request twice
unfolding default_settings
login_sent = record {
  ids = [];
  way = login_way;
  sent = ("ann@example.com", "Passw0rd!");
  parsed = refl;
  limits = 1;
  passes = refl;
}

ann_fits : validate site login login_sent.sent ≡ some ann_login
unfolding login_sent login_in check_length
ann_fits = refl

-- the state at the second request: other clients have been served since, with new tokens, events
-- and a limiter that has been reset
abbrev busy : Backend site
busy = record backend {
  world = record start {
    reads = 9;
    draws = 7;
    metrics = record { total_events_seen = 3; events_total = [] };
  };
  limits = 1;
}

top_sent : Sent site bearing parse top_events top_request.request busy
unfolding default_settings
top_sent = record { ids = []; way = top_way; sent = none; parsed = refl; limits = 0; passes = refl }

top_events-api_login_example :
    ((app_router site bearing parse false login_request.request twice).0
      ≡ answered 200 (
          token_pair (
            pair site bearing parse login_request.request twice login_sent ann_login ann ann_fits
              ann_known refl)))
    × ((app_router site bearing parse false top_request.request busy).0
        ≡ answered 200 (event_types []))
unfolding default_settings find in_bounds top_sent login_sent
top_events-api_login_example =
    top_events-api_login site bearing parse login_request.request twice login_sent ann_login ann
      ann_fits ann_known refl false open_jwt_laws top_request.request busy top_sent 10 [] refl refl
      refl refl (omega arith) refl refl
