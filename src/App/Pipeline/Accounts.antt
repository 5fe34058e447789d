-- ===== src/App/Pipeline/Accounts.antt =====
-- The responses, the metrics and the log of a sequence of requests, by what the routes did.
use events_api.Common.{
  ◌-◌, ◌≡◌, refl, ◌⊎◌, inl, inr, Bool, true, false, Option, none, some, List, [], ◌∷◌, ◌∙◌, ap,
  if◌then◌else◌,
}
use events_api.Common.Result.{
  Exception, http_exception, integrity_error, sqlalchemy_error, value_error, runtime_error,
  key_error, jwt_error, arithmetic_error, other_error, Result, ok, raise,
}
use events_api.Config.{Settings}
use events_api.Config.Cors.{allowed_origins}
use events_api.External.FastApi.{HttpRequest, FastApi}
use events_api.Infrastructure.Benchmark.{benchmark_token_middleware}
use events_api.Logs.{Entry, http_exception_handler, validation_exception_handler}
use events_api.Metrics.{HttpMetrics, http_metrics_middleware, request_labels, observe_answer}
use events_api.App.Pipeline.{
  Routed, answered, raised, invalid, no_route, wrong_method, Site, Timed, handle_exceptions,
  middleware, shown, serve_all, metered, unless_preflight,
}
use events_api.App.Pipeline.Outcomes.{
  Outcome, preflighted, routed, crashes, note, counted, timed, noted, response_to, told, visit_by,
  visit, visits, responses,
}

if_next :
    {R : Type 0} (b x : Bool) (next : Bool → R)
    → (if b then next x else next false) ≡ next (if b then x else false)
if_next true x next = refl
if_next false x next = refl

module _ {Body : Type 0} {W : Type 0} (f : FastApi Body) (settings : Settings)
    (router : Bool → HttpRequest → W → Routed Body × W) where
  told_lem :
      {R : Type 0} (q : Timed) (next : Bool → R)
      → benchmark_token_middleware settings.benchmark_token q.request.path q.request.authorization
          next
        ≡ next (told f settings router q)
  unfolding benchmark_token_middleware
  told_lem q next = if_next _ _ next

  unfoldable pub result_of : HttpRequest → Outcome f.Response Body → Result f.Response
  result_of r (routed (raised (http_exception status detail))) =
      ok (f.http_exception_response status detail)
  result_of r (routed (raised e)) = raise e
  result_of r o = ok (response_to f settings router r o)

  abbrev after : Timed → Outcome f.Response Body → W → HttpMetrics × Site W → HttpMetrics × Site W
  after q o w (h, s) = (
    record {
      requests_total = counted ((q, o) ∷ []) h.requests_total;
      request_durations = timed ((q, o) ∷ []) h.request_durations;
    },
    record { backend = w; log = note q.request o s.log },
  )

  handle_exceptions_lem :
      (r : HttpRequest) (log : List Entry) (x : Routed Body) (w : W)
      → handle_exceptions f settings router r log (x, w) ≡ (
        result_of r (routed x),
        record { backend = w; log = note {Response = f.Response} r (routed x) log },
      )
  unfolding handle_exceptions result_of http_exception_handler validation_exception_handler
  handle_exceptions_lem r log (answered status body) w = refl
  handle_exceptions_lem r log (raised (http_exception status detail)) w = refl
  handle_exceptions_lem r log (raised integrity_error) w = refl
  handle_exceptions_lem r log (raised sqlalchemy_error) w = refl
  handle_exceptions_lem r log (raised value_error) w = refl
  handle_exceptions_lem r log (raised runtime_error) w = refl
  handle_exceptions_lem r log (raised key_error) w = refl
  handle_exceptions_lem r log (raised jwt_error) w = refl
  handle_exceptions_lem r log (raised arithmetic_error) w = refl
  handle_exceptions_lem r log (raised other_error) w = refl
  handle_exceptions_lem r log invalid w = refl
  handle_exceptions_lem r log no_route w = refl
  handle_exceptions_lem r log wrong_method w = refl

  -- Either nobody handles its exception, or it has a response.
  fate :
      (r : HttpRequest) (o : Outcome f.Response Body)
      → ((e : Exception) × (result_of r o ≡ raise e)
          × (crashes o ≡ true)
          × (response_to f settings router r o ≡ f.server_error))
        ⊎ ((result_of r o ≡ ok (response_to f settings router r o)) × (crashes o ≡ false))
  unfolding result_of
  fate r (preflighted response) = inr (refl, refl)
  fate r (routed (answered status body)) = inr (refl, refl)
  fate r (routed (raised (http_exception status detail))) = inr (refl, refl)
  fate r (routed (raised integrity_error)) = inl (_, refl, refl, refl)
  fate r (routed (raised sqlalchemy_error)) = inl (_, refl, refl, refl)
  fate r (routed (raised value_error)) = inl (_, refl, refl, refl)
  fate r (routed (raised runtime_error)) = inl (_, refl, refl, refl)
  fate r (routed (raised key_error)) = inl (_, refl, refl, refl)
  fate r (routed (raised jwt_error)) = inl (_, refl, refl, refl)
  fate r (routed (raised arithmetic_error)) = inl (_, refl, refl, refl)
  fate r (routed (raised other_error)) = inl (_, refl, refl, refl)
  fate r (routed invalid) = inr (refl, refl)
  fate r (routed no_route) = inr (refl, refl)
  fate r (routed wrong_method) = inr (refl, refl)

  visit_end :
      (q : Timed) (s : Site W) (p : Option f.Response)
      → unless_preflight f settings router p
          (handle_exceptions f settings router q.request s.log
            (router (told f settings router q) q.request s.backend))
          s
        ≡ (
          result_of q.request (visit_by f settings router p q s.backend).0,
          record {
            backend = (visit_by f settings router p q s.backend).1;
            log = note q.request (visit_by f settings router p q s.backend).0 s.log;
          },
        )
  unfolding result_of
  visit_end q s (some response) = refl
  visit_end q s none = handle_exceptions_lem q.request s.log _ _

  metered_lem :
      (q : Timed) (o : Outcome f.Response Body) (w : W) (h : HttpMetrics) (s : Site W)
      → observe_answer
          (request_labels q.request.method q.request.path)
          (q.t1 - q.t0)
          (result_of q.request o, (h, record { backend = w; log = note q.request o s.log }))
        ≡ (result_of q.request o, after q o w (h, s))
  metered_lem q o w h s = elim (fate q.request o) [
    | inl (e, is_raise, crash, server) ↦ rw (is_raise, crash) refl
    | inr (is_ok, calm) ↦ rw (is_ok, calm) refl
  ]

  pub middleware_lem :
      (q : Timed) (h : HttpMetrics) (s : Site W)
      → middleware f settings router q (h, s) ≡ (
        result_of q.request (visit f settings router q s.backend).0,
        after q
            (visit f settings router q s.backend).0
            (visit f settings router q s.backend).1
            (h, s),
      )
  unfolding middleware http_metrics_middleware
  middleware_lem q h s =
      ap (λ (k : HttpMetrics × Site W → Result f.Response × (HttpMetrics × Site W)). k (h, s))
        (told_lem q (metered f settings router q))
      ∙ (rw (visit_end q s (f.preflight (allowed_origins true settings.cors_origins) q.request)) (
          metered_lem q (visit f settings router q s.backend).0
            (visit f settings router q s.backend).1 h s))

  shown_result :
      (r : HttpRequest) (o : Outcome f.Response Body)
      → shown f (result_of r o) ≡ response_to f settings router r o
  shown_result r o = elim (fate r o) [
    | inl (e, is_raise, crash, server) ↦ rw (is_raise, server)
    | inr (is_ok, calm) ↦ rw is_ok
  ]

  -- Requests that are served one after the other, whatever the router and the routes do. Each gets
  -- one response: that of CORS to a preflight request, the serialized value, the response of the
  -- exception handlers, the router's answer to a path or a method that no route has, and the
  -- server's own error where an exception has no handler. The counter of requests and the
  -- histogram of durations have one entry more for each request but those whose exception has no
  -- handler; the log has one entry more for each `HTTPException` of a route and each request that
  -- did not validate, and no other; and the routes have run in the order of the requests.
  pub serve_all-accounts :
      (qs : List Timed) (h : HttpMetrics) (s : Site W)
      → let vs = (visits f settings router qs s.backend).0 in
        serve_all f settings router qs (h, s) ≡ (
          responses f settings router vs,
          (
            record {
              requests_total = counted vs h.requests_total;
              request_durations = timed vs h.request_durations;
            },
            record { backend = (visits f settings router qs s.backend).1; log = noted vs s.log },
          ),
        )
  serve_all-accounts [] h s = refl
  serve_all-accounts (q ∷ qs) h s =
      rw (middleware_lem q h s, shown_result q.request (visit f settings router q s.backend).0)
        (rw (serve_all-accounts qs _ _))
