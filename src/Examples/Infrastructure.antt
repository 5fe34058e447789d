-- ===== src/Examples/Infrastructure.antt =====
-- src/infrastructure/resources.py where the calls of the outside succeed, and where Redis is away.
use events_api.Common.{◌≡◌, refl, none, some, List, [], ◌∷◌}
use events_api.Metrics.Rate.{
  Activity, records, runs, Consistent, act_all, fresh, act_all-Consistent,
}
use events_api.Common.Int.{pos}
use events_api.Common.Result.{ok, raise, other_error}
use events_api.Infrastructure.Resources.{
  initial, Process, Outcomes, start, stop, get_session, lifespan,
}
use events_api.Infrastructure.Resources.Lifecycle.{
  Smooth, Running, Stopped, starts, stops, asks, Reach, here, next, Balanced, Reach-Balanced,
  lifespan-closes,
}
use events_api.Infrastructure.Resources.Failures.{HalfStopped, stop-interrupted}

abbrev all_ok : Outcomes
all_ok = record {
  ping = ok tt;
  metrics_port = some (pos 8001);
  service_start = ok tt;
  http_aclose = ok tt;
  redis_aclose = ok tt;
  service_stop = ok tt;
  dispose = ok tt;
}

abbrev redis_away : Outcomes
redis_away = record all_ok { ping = raise other_error }

all_ok-Smooth : Smooth all_ok
all_ok-Smooth = record {
  ping = refl;
  port = pos 8001;
  metrics_port = refl;
  service_start = refl;
  http_aclose = refl;
  redis_aclose = refl;
  service_stop = refl;
  dispose = refl;
}

-- started, stopped, and started again by a request
abbrev restarted : Process
restarted = (get_session all_ok (stop all_ok (start all_ok initial).1).1).1

restarted-Reach : Reach restarted
restarted-Reach =
    next (next (next here (starts all_ok all_ok-Smooth refl)) (stops all_ok all_ok-Smooth refl))
      (asks all_ok all_ok-Smooth refl)

Reach-Balanced_example : Balanced restarted × Running (get_session all_ok restarted).1
Reach-Balanced_example = Reach-Balanced all_ok all_ok-Smooth restarted-Reach

lifespan-closes_example :
    (Stopped (lifespan all_ok (ok tt) (ok tt) initial).1
      × ((lifespan all_ok (ok tt) (ok tt) initial).0 ≡ ok tt))
    × (Running (lifespan all_ok (raise other_error) (ok tt) initial).1
        × ((lifespan all_ok (raise other_error) (ok tt) initial).0 ≡ raise other_error))
lifespan-closes_example =
    lifespan-closes all_ok initial (ok tt) other_error all_ok-Smooth
      (record { started = refl; redis = refl; http = refl; service = refl; task = refl })

abbrev busy_minute : List Activity
busy_minute =
    records none
    ∷ runs 1000000000
    ∷ records (some (("name", "auth_login") ∷ []))
    ∷ records none
    ∷ runs 900000000
    ∷ records none
    ∷ []

act_all-Consistent_example :
    Consistent 4 1
      ([] ∷ [] ∷ (("name", "auth_login") ∷ []) ∷ [] ∷ [])
      (act_all busy_minute (fresh 0))
act_all-Consistent_example = act_all-Consistent 0 busy_minute

abbrev metrics_stuck : Outcomes
metrics_stuck = record all_ok { service_stop = raise other_error }

abbrev half_way : Process
half_way = (stop metrics_stuck restarted).1

stop-interrupted_example :
    HalfStopped half_way
    × ((stop metrics_stuck restarted).0 ≡ raise other_error)
    × (start redis_away half_way ≡ (ok tt, half_way))
    × (get_session redis_away half_way ≡ (ok tt, half_way))
    × Stopped (stop all_ok half_way).1
unfolding get_session stop start
stop-interrupted_example =
    stop-interrupted metrics_stuck redis_away all_ok restarted other_error refl refl refl
      all_ok-Smooth
      (record {
        started = refl;
        redis = (_, refl, refl);
        http = (_, refl, refl);
        service = (_, refl, refl);
        task = (_, refl, refl);
      })
