-- ===== src/App/Handlers/Measured.antt =====
-- The benchmark of src/benchmarks/run_benchmarks.py against the application.
use events_api.Common.{
  ℕ, String, ◌≡◌, ◌≢◌, refl, sym, ap, ◌∙◌, true, Option, none, some, List, [], ◌++◌, ne→eq-false,
}
use events_api.Common.Split.{up_to, departs, after_prefix}
use events_api.Common.Text.{any_char}
use events_api.Common.Result.{ok}
use events_api.Config.Cors.{allowed_origins}
use events_api.DataBase.Crud.{benchmark_or_auth}
use events_api.External.FastApi.{HttpRequest, Parsed, fields, FastApi}
use events_api.Infrastructure.Benchmark.Bypass.{Allowed-passes}
use events_api.Metrics.{HttpMetrics}
use events_api.Stats.Routers.{get_dau, keyed, parse_segment}
use events_api.Benchmarks.Request.{headers, dau_request, start_date, end_date}
use events_api.App.Routes.{
  Endpoint, dau, found, dau_route, RoutingLaws, is_reserved, auth_router, event_router,
  stats_router, api_router, app_entries, dispatch,
}
use events_api.App.Endpoints.{Parts, Fields, days}
use events_api.App.Handlers.{AppAnswer, Backend, call, limited, app_router}
use events_api.App.Pipeline.{answered, Site, Timed, middleware}
use events_api.App.Pipeline.Outcomes.{told}
use events_api.App.Pipeline.Accounts.{result_of, middleware_lem}

module _ (p : Parts) (f : FastApi (AppAnswer p))
    (bearer : HttpRequest → Option p.services.jwt.Token)
    (parse : (e : Endpoint) → List String → HttpRequest → Parsed (Fields p e))
    (encode : ℕ → ℕ → String) (token : String) (q : Timed)
    (asks : q.request ≡ dau_request encode p.services.settings.benchmark_token)
    (known : p.services.settings.benchmark_token ≡ some token) (given : token ≢ "")
    (whole : up_to "Bearer " token ≡ token) where
  told-true : told f p.services.settings (app_router p bearer parse) q ≡ true
  unfolding headers
  told-true =
      Allowed-passes p.services.settings.benchmark_token q.request.path q.request.authorization
        (record {
          rest = "/dau";
          path_eq = ap (λ (r : HttpRequest). r.path) asks;
          header = token;
          auth_eq =
              ap (λ (r : HttpRequest). r.authorization) asks ∙ (rw (known, ne→eq-false given));
          test_eq = known ∙ ap some (sym whole);
          nonempty = λ e. given (sym whole ∙ e);
        })

  way :
      RoutingLaws p.routing
      → p.services.settings.api_prefix ≡ ""
      → dispatch p.routing p.services.settings.api_prefix q.request.method q.request.path
        ≡ found dau []
  unfolding dispatch app_entries api_router auth_router event_router stats_router is_reserved
      any_char up_to departs after_prefix
  way R bare =
      rw (bare, ap (λ (r : HttpRequest). r.method) asks, ap (λ (r : HttpRequest). r.path) asks)
        (R.literal "/static" "" (auth_router ++ event_router) _ dau_route _ refl refl refl
          (refl, (refl, (refl, (refl, (refl, (refl, (refl, tt))))))))

  dau_answered :
      (R : RoutingLaws p.routing) (b : Backend p) (limits : p.limiter.State) (rows : List (ℕ × ℕ))
      → p.services.settings.api_prefix ≡ ""
      → parse dau [] q.request ≡ fields (start_date, end_date, none)
      → p.limiter.admit 5 60 q.request b.limits ≡ (true, limits)
      → p.event_stats.dau start_date end_date none (p.view b.table) ≡ ok rows
      → (app_router p bearer parse true q.request b).0
        ≡ answered 200 (days (keyed p.isoformat rows))
  unfolding app_router limited call get_dau benchmark_or_auth parse_segment
  dau_answered R b limits rows bare parsed passes counted =
      rw (way R bare, parsed, passes, counted) refl

  -- The request of the benchmark, with the BENCHMARK_TOKEN of the settings, is answered by the
  -- application with the rows of the query, whatever bearer tokens the application knows: no user
  -- is asked for. The token is not empty and has no "Bearer " in it, API_PREFIX is empty, the
  -- request passes the limiter, and its dates are read as they were written.
  pub middleware-dau_request :
      (R : RoutingLaws p.routing) (h : HttpMetrics) (s : Site (Backend p))
      (limits : p.limiter.State) (rows : List (ℕ × ℕ))
      → p.services.settings.api_prefix ≡ ""
      → f.preflight (allowed_origins true p.services.settings.cors_origins) q.request ≡ none
      → parse dau [] q.request ≡ fields (start_date, end_date, none)
      → p.limiter.admit 5 60 q.request s.backend.limits ≡ (true, limits)
      → p.event_stats.dau start_date end_date none (p.view s.backend.table) ≡ ok rows
      → (middleware f p.services.settings (app_router p bearer parse) q (h, s)).0
        ≡ ok (f.serialize 200 (days (keyed p.isoformat rows)))
  unfolding result_of
  middleware-dau_request R h s limits rows bare plain parsed passes counted =
      rw
        (
          middleware_lem f p.services.settings (app_router p bearer parse) q h s,
          plain,
          told-true,
          dau_answered R s.backend limits rows bare parsed passes counted,
        )
        refl
