-- ===== src/Samples/Site.antt =====
-- The application on the small services: a response is its status code, and the limiter admits a
-- number of requests.
use events_api.Common.{
  ℕ, zero, suc, ◌+◌, ◌/◌, String, Bool, true, false, Option, none, some, List, [], ◌==◌,
  if◌then◌else◌,
}
use events_api.Common.Int.{pos}
use events_api.Common.Text.{str_int}
use events_api.External.FastApi.{HttpRequest, FastApi, Parsed, malformed, fields, Limiter}
use events_api.External.Jwt.{Claims}
use events_api.Metrics.{HttpMetrics}
use events_api.App.Routes.{Endpoint, root, token, login, dau, top_events}
use events_api.App.Endpoints.{Parts, Fields}
use events_api.App.Handlers.{AppAnswer, Backend}
use events_api.App.Pipeline.{Timed}
use events_api.Samples.App.{app, start}
use events_api.Samples.FewEvents.{few_events}
use events_api.Samples.MemoryEvents.{memory_events}
use events_api.Samples.OpenJwt.{Signed}
use events_api.Samples.Routing.{literal_routing}
use events_api.Common.Result.{http_exception, raise}

abbrev admit : ℕ → Bool × ℕ
admit zero = (false, 0)
admit (suc n) = (true, n)

abbrev counter : Limiter
counter = record { State = ℕ; admit = λ times seconds r left. admit left }

abbrev pub site : Parts
site = record {
  services = app;
  event_table = memory_events;
  event_stats = few_events;
  floats = record { Float = ℕ × ℕ; percent = λ a b. (a, b) };
  limiter = counter;
  view = λ s. tt;
  isoformat = λ d. str_int (pos d);
  today = λ now. now / 86400000000 + 719162;
  routing = literal_routing;
  static_files = λ r. raise (http_exception 404 "Not Found");
}

-- the answer to a preflight request
abbrev preflight : HttpRequest → Option ℕ
preflight r = if r.method == "OPTIONS" then some 200 else none

abbrev pub statuses : FastApi (AppAnswer site)
statuses = record {
  Response = ℕ;
  serialize = λ s body. s;
  http_exception_response = λ s detail. s;
  validation_response = 422;
  no_route = λ r. 404;
  method_not_allowed = 405;
  server_error = 500;
  preflight = λ origins r. preflight r;
}

abbrev ann_claims : Claims
ann_claims = record {
  sub = some "1";
  token_type = some "access";
  jti = some "a";
  iat = some 1699999000;
  iss = some "your-auth";
  aud = some "auth_api";
  exp = some 1700000900;
}

-- every bearer token is read as one of user 1
abbrev pub ann_token : Signed
ann_token = (ann_claims, "access-secret", "HS256")

abbrev bearer_of : Option String → Option Signed
bearer_of none = none
bearer_of (some header) = some ann_token

abbrev pub bearer : HttpRequest → Option Signed
bearer r = bearer_of r.authorization

-- the email is the query, and the password is the body
abbrev pub parse : (e : Endpoint) → List String → HttpRequest → Parsed (Fields site e)
parse token ids r = fields (r.query, r.body)
parse login ids r = fields (r.query, r.body)
parse dau ids r = fields (0, 2, none)
parse top_events ids r = fields none
parse root ids r = fields tt
parse e ids r = malformed

abbrev pub backend : Backend site
backend = record { world = start; table = record { ids = []; pending = [] }; limits = 1 }

abbrev pub no_requests : HttpMetrics
no_requests = record { requests_total = []; request_durations = [] }

abbrev pub request : String → String → Option String → String → String → Timed
request method path authorization query body = record {
  request = record {
    method = method;
    path = path;
    authorization = authorization;
    origin = none;
    query = query;
    body = body;
  };
  t0 = 0;
  t1 = 5;
}
