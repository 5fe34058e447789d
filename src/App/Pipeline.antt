-- ===== src/App/Pipeline.antt =====
-- src/main.py: the way of a request through the middleware. The middleware that is added last is
-- the outermost: the benchmark token, then the metrics, then CORS, then the exception handlers,
-- then the router. The headers that CORS adds to a response are left out.
pub mod Outcomes
pub mod Accounts
use events_api.Common.{ℕ, String, Bool, true, Option, none, some, List, [], ◌∷◌}
use events_api.Common.Result.{Exception, http_exception, Result, ok, raise}
use events_api.Config.{Settings}
use events_api.Config.Cors.{allowed_origins}
use events_api.External.FastApi.{HttpRequest, FastApi}
use events_api.Infrastructure.Benchmark.{benchmark_token_middleware}
use events_api.Logs.{Entry, http_exception_handler, validation_exception_handler}
use events_api.Metrics.{HttpMetrics, http_metrics_middleware}

-- How the router and the route end: with a value and the route's status code, an exception, a
-- request that does not validate, or no route.
pub data Routed (Body : Type 0) : Type 0 where
  answered : ℕ → Body → Routed Body
  raised : Exception → Routed Body
  invalid no_route wrong_method : Routed Body

-- What the requests share: the state of the routes, and the log.
pub record Site (W : Type 0) : Type 0 where
  pub backend : W
  pub log : List Entry

-- A request, with the readings of the clock before and after it.
pub record Timed : Type 0 where
  pub request : HttpRequest
  pub t0 : ℕ
  pub t1 : ℕ

-- The response to a request: up to an exception that reaches the server's own error handler.
module _ {Body : Type 0} (f : FastApi Body) where
  abbrev pub shown : Result f.Response → f.Response
  shown (ok response) = response
  shown (raise e) = f.server_error

module _ {Body : Type 0} {W : Type 0} (f : FastApi Body) (settings : Settings)
    (router : Bool → HttpRequest → W → Routed Body × W) where
  -- a response with the log after it
  abbrev respond : f.Response × List Entry → W → Result f.Response × Site W
  respond (response, log) w = (ok response, record { backend = w; log = log })

  -- the handlers that `app.add_exception_handler` adds, and FastAPI's own for the router's answers
  unfoldable pub handle_exceptions :
      HttpRequest → List Entry → Routed Body × W → Result f.Response × Site W
  handle_exceptions r log (answered status body, w) = respond (f.serialize status body, log) w
  handle_exceptions r log (raised (http_exception status detail), w) =
      respond (http_exception_handler f r status detail log) w
  handle_exceptions r log (raised e, w) = (raise e, record { backend = w; log = log })
  handle_exceptions r log (invalid, w) = respond (validation_exception_handler f r log) w
  handle_exceptions r log (no_route, w) = respond (f.no_route r, log) w
  handle_exceptions r log (wrong_method, w) = respond (f.method_not_allowed, log) w

  abbrev pub unless_preflight :
      Option f.Response → Result f.Response × Site W → Site W → Result f.Response × Site W
  unless_preflight none routed s = routed
  unless_preflight (some response) routed s = (ok response, s)

  -- CORS and what is within
  abbrev pub with_cors : Bool → HttpRequest → Site W → Result f.Response × Site W
  with_cors is_benchmark r s =
      unless_preflight (f.preflight (allowed_origins true settings.cors_origins) r)
        (handle_exceptions r s.log (router is_benchmark r s.backend)) s

  abbrev beside : {H : Type 0} → H → Result f.Response × Site W → Result f.Response × (H × Site W)
  beside h (r, s) = (r, (h, s))

  abbrev pub metered :
      Timed → Bool → HttpMetrics × Site W → Result f.Response × (HttpMetrics × Site W)
  metered q is_benchmark =
      http_metrics_middleware q.request.method q.request.path q.t0 q.t1
        (λ s. beside s.0 (with_cors is_benchmark q.request s.1))

  -- up to the server's own error handler
  unfoldable pub middleware :
      Timed → HttpMetrics × Site W → Result f.Response × (HttpMetrics × Site W)
  middleware q =
      benchmark_token_middleware settings.benchmark_token q.request.path q.request.authorization
        (metered q)

  -- The requests one after the other, and the responses to them.
  abbrev pub serve_all :
      List Timed → HttpMetrics × Site W → List f.Response × (HttpMetrics × Site W)
  serve_all [] s = ([], s)
  serve_all (q ∷ qs) s =
      let first = middleware q s in
      let others = serve_all qs first.1 in (shown f first.0 ∷ others.0, others.1)
