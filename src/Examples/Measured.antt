-- ===== src/Examples/Measured.antt =====
-- The benchmark against the application on the small services, with a token.
use events_api.Common.{◌≡◌, ◌≢◌, String, refl, none, some, eq_iff, List, [], ℕ}
use events_api.Common.Result.{ok}
use events_api.Common.Split.{up_to, after_prefix}
use events_api.Config.{default_settings}
use events_api.External.Services.{Services}
use events_api.External.FastApi.{FastApi, HttpRequest, Parsed, malformed, fields}
use events_api.Benchmarks.Request.{dau_request, start_date, end_date}
use events_api.App.Routes.{Endpoint, dau}
use events_api.App.Endpoints.{Parts, Fields}
use events_api.App.Handlers.{AppAnswer, Backend, app_router}
use events_api.App.Handlers.Measured.{middleware-dau_request}
use events_api.App.Pipeline.{Timed, middleware}
use events_api.Samples.App.{app, start}
use events_api.Samples.FewEvents.{users_on, days_below}
use events_api.Samples.Routing.{literal_routing, literal_routing_laws}
use events_api.Samples.Site.{site, no_requests}

abbrev measured : Services
measured = record app { settings = record app.settings { benchmark_token = some "let-me-in" } }

abbrev measured_site : Parts
measured_site = record {
  services = measured;
  event_table = site.event_table;
  event_stats = site.event_stats;
  floats = site.floats;
  limiter = site.limiter;
  view = λ s. tt;
  isoformat = site.isoformat;
  today = site.today;
  routing = literal_routing;
  static_files = site.static_files;
}

abbrev responses : FastApi (AppAnswer measured_site)
responses = record {
  Response = ℕ;
  serialize = λ s body. s;
  http_exception_response = λ s detail. s;
  validation_response = 422;
  no_route = λ r. 404;
  method_not_allowed = 405;
  server_error = 500;
  preflight = λ origins r. none;
}

abbrev parse_dau : (e : Endpoint) → List String → HttpRequest → Parsed (Fields measured_site e)
parse_dau dau ids r = fields (start_date, end_date, none)
parse_dau e ids r = malformed

abbrev idle : Backend measured_site
idle = record {
  world = record {
    redis = start.redis;
    db = start.db;
    reads = 0;
    draws = 0;
    metrics = start.metrics;
  };
  table = record { ids = []; pending = [] };
  limits = 1;
}

abbrev asking : Timed
asking = record { request = dau_request (λ from to. "") (some "let-me-in"); t0 = 0; t1 = 7 }

token-ne-empty : ◌≢◌ {A = String} "let-me-in" ""
token-ne-empty e = let same = (eq_iff "let-me-in" "").1 e in cc

middleware-dau_request_example :
    (middleware responses measured.settings
      (app_router measured_site (λ r. none) parse_dau)
      asking
      (no_requests, record { backend = idle; log = [] })).0
    ≡ ok 200
unfolding up_to after_prefix default_settings
middleware-dau_request_example =
    middleware-dau_request measured_site responses (λ r. none) parse_dau (λ from to. "") "let-me-in"
      asking refl refl token-ne-empty refl literal_routing_laws no_requests
      (record { backend = idle; log = [] }) 0 (days_below (users_on start_date end_date none) 3)
      refl refl refl refl refl
