-- ===== src/Examples/Benchmark.antt =====
-- Requests for the statistics with the benchmark token, without a prefix and under one.
use events_api.Common.{◌≡◌, refl, none, some, ◌⊎◌}
use events_api.Common.Result.{ok}
use events_api.Common.Split.{departs}
use events_api.External.Services.{Services}
use events_api.Handler.{World, pure, ◌>>=◌}
use events_api.DataBase.Crud.{benchmark_user, user, get_current_user}
use events_api.Infrastructure.Benchmark.Bypass.{Allowed, asked, asked-exact, asked_under_prefix}
use events_api.Samples.App.{app, start}

abbrev benched : Services
benched = record app {
  settings = record app.settings { benchmark_token = some "let-me-in"; api_prefix = "/api" };
}

abbrev world : World benched
world = record { redis = start.redis; db = start.db; reads = 0; draws = 0; metrics = start.metrics }

asked-exact_example :
    (Allowed (some "let-me-in") "/stats/dau" (some "Bearer let-me-in")
      × (asked benched "/stats/dau" (some "Bearer let-me-in") none world
          ≡ (ok benchmark_user, world)))
    ⊎ (¬ Allowed (some "let-me-in") "/stats/dau" (some "Bearer let-me-in")
        × (asked benched "/stats/dau" (some "Bearer let-me-in") none world
            ≡ (get_current_user benched none >>= (λ u. pure (user u))) world))
asked-exact_example = asked-exact benched "/stats/dau" (some "Bearer let-me-in") none world

asked_under_prefix_example :
    asked benched "/api/stats/dau" (some "Bearer let-me-in") none world
    ≡ (get_current_user benched none >>= (λ u. pure (user u))) world
unfolding departs
asked_under_prefix_example =
    asked_under_prefix benched "/stats/dau" (some "Bearer let-me-in") none world refl
