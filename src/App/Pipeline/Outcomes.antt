-- ===== src/App/Pipeline/Outcomes.antt =====
-- What becomes of the requests, by what the router and the routes do, and what the metrics and the
-- log are then to hold.
use events_api.Common.{
  ℕ, ◌-◌, Bool, true, false, Option, none, some, List, [], ◌∷◌, leb, if◌then◌else◌,
}
use events_api.Common.Result.{http_exception}
use events_api.Config.{Settings}
use events_api.Config.Cors.{allowed_origins}
use events_api.External.FastApi.{HttpRequest, FastApi}
use events_api.Infrastructure.Benchmark.{benchmark_token_middleware}
use events_api.Logs.{Entry, Level, info, warning, entry_of}
use events_api.Metrics.{Labels, request_labels}
use events_api.App.Pipeline.{Routed, answered, raised, invalid, no_route, wrong_method, Timed}

-- How a request ended: CORS answered it, or the router and the route did.
pub data Outcome (Response Body : Type 0) : Type 0 where
  preflighted : Response → Outcome Response Body
  routed : Routed Body → Outcome Response Body

abbrev pub level_of : ℕ → Level
level_of status = if leb 400 status then warning else info

module _ {Response Body : Type 0} where
  -- whether the exception handlers have no answer to it
  abbrev pub crashes : Outcome Response Body → Bool
  crashes (preflighted response) = false
  crashes (routed (raised (http_exception status detail))) = false
  crashes (routed (raised e)) = true
  crashes (routed x) = false

  -- what is logged of it, before what was logged
  abbrev pub note : HttpRequest → Outcome Response Body → List Entry → List Entry
  note r (routed (raised (http_exception status detail))) log =
      entry_of (level_of status) status r (some detail) ∷ log
  note r (routed invalid) log = entry_of warning 422 r none ∷ log
  note r o log = log

  -- The sequences that the metrics and the log become, each the latest first.
  abbrev pub counted : List (Timed × Outcome Response Body) → List Labels → List Labels
  counted [] seen = seen
  counted ((q, o) ∷ vs) seen =
      counted vs (if crashes o then seen else request_labels q.request.method q.request.path ∷ seen)

  abbrev pub timed : List (Timed × Outcome Response Body) → List (Labels × ℕ) → List (Labels × ℕ)
  timed [] seen = seen
  timed ((q, o) ∷ vs) seen = timed vs (
      if crashes o
      then seen
      else (request_labels q.request.method q.request.path, q.t1 - q.t0) ∷ seen)

  abbrev pub noted : List (Timed × Outcome Response Body) → List Entry → List Entry
  noted [] log = log
  noted ((q, o) ∷ vs) log = noted vs (note q.request o log)

module _ {Body : Type 0} {W : Type 0} (f : FastApi Body) (settings : Settings)
    (router : Bool → HttpRequest → W → Routed Body × W) where
  abbrev pub response_to : HttpRequest → Outcome f.Response Body → f.Response
  response_to r (preflighted response) = response
  response_to r (routed (answered status body)) = f.serialize status body
  response_to r (routed (raised (http_exception status detail))) =
      f.http_exception_response status detail
  response_to r (routed (raised e)) = f.server_error
  response_to r (routed invalid) = f.validation_response
  response_to r (routed no_route) = f.no_route r
  response_to r (routed wrong_method) = f.method_not_allowed

  -- whether the request has the benchmark's token
  abbrev pub told : Timed → Bool
  told q =
      benchmark_token_middleware settings.benchmark_token q.request.path q.request.authorization
        (λ is_benchmark. is_benchmark)

  abbrev pub visit_by : Option f.Response → Timed → W → Outcome f.Response Body × W
  visit_by none q w = let r = router (told q) q.request w in (routed r.0, r.1)
  visit_by (some response) q w = (preflighted response, w)

  -- what becomes of a request, and of the state of the routes
  abbrev pub visit : Timed → W → Outcome f.Response Body × W
  visit q w = visit_by (f.preflight (allowed_origins true settings.cors_origins) q.request) q w

  abbrev pub visits : List Timed → W → List (Timed × Outcome f.Response Body) × W
  visits [] w = ([], w)
  visits (q ∷ qs) w =
      let first = visit q w in let others = visits qs first.1 in ((q, first.0) ∷ others.0, others.1)

  abbrev pub responses : List (Timed × Outcome f.Response Body) → List f.Response
  responses [] = []
  responses ((q, o) ∷ vs) = response_to q.request o ∷ responses vs
