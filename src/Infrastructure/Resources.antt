-- ===== src/Infrastructure/Resources.antt =====
-- src/infrastructure/resources.py: the class `Resources`, and `lifespan` of src/main.py. An object
-- that a call creates is a number; the process keeps those that are open. The configuration of the
-- response cache and the gauge that a start sets to 0 are left out.
pub mod Lifecycle
pub mod Failures
use events_api.Common.{
  ℕ, zero, suc, ◌+◌, String, Bool, true, false, Option, none, some, List, [], ◌∷◌, eqb,
  if◌then◌else◌,
}
use events_api.Common.Int.{ℤ}
use events_api.Common.Action.{Action, ◌>>◌}
use events_api.Common.Result.{Exception, value_error, Result, ok, raise}

pub record Resources : Type 0 where
  pub redis : Option ℕ
  pub http : Option ℕ
  pub metrics_service : Option ℕ
  pub metrics_task : Option ℕ
  pub started : Bool

-- The process: its resources, the clients, services and tasks that are open, and how many objects
-- were created.
pub record Process : Type 0 where
  pub resources : Resources
  pub redis_clients : List ℕ
  pub http_clients : List ℕ
  pub services : List ℕ
  pub tasks : List ℕ
  pub created : ℕ

-- `Resources()`
abbrev pub initial : Process
initial = record {
  resources = record {
    redis = none;
    http = none;
    metrics_service = none;
    metrics_task = none;
    started = false;
  };
  redis_clients = [];
  http_clients = [];
  services = [];
  tasks = [];
  created = 0;
}

-- How the calls of the outside end: the PING of Redis, the start of the metrics server, the
-- closing of the clients, the stop of the server, and the disposal of the engine. A call that
-- closes and raises leaves its object open.
pub record Outcomes : Type 0 where
  pub ping : Result (Unit {0})
  pub metrics_port : Option ℤ
  pub service_start : Result (Unit {0})
  pub http_aclose : Result (Unit {0})
  pub redis_aclose : Result (Unit {0})
  pub service_stop : Result (Unit {0})
  pub dispose : Result (Unit {0})

abbrev pub remove : ℕ → List ℕ → List ℕ
remove n [] = []
remove n (m ∷ ms) = let rest = remove n ms in if eqb m n then rest else m ∷ rest

abbrev pub outcome : Result (Unit {0}) → Action Process
outcome r p = (r, p)

-- an assignment
abbrev pub set : (Process → Process) → Action Process
set f p = (ok tt, f p)

-- a call that ends the object of an attribute, if the attribute is set
abbrev closing : Result (Unit {0}) → (Process → Process) → Action Process
closing (raise e) f p = (raise e, p)
closing (ok u) f p = (ok u, f p)

abbrev if_set : Option ℕ → (ℕ → Action Process) → Action Process
if_set none k p = (ok tt, p)
if_set (some n) k p = k n p

abbrev has_port : Option ℤ → Result (Unit {0})
has_port none = raise value_error
has_port (some n) = ok tt

-- `self.redis = aioredis.from_url(…)`
abbrev open_redis : Process → Process
open_redis p = record p {
  resources = record p.resources { redis = some p.created };
  redis_clients = p.created ∷ p.redis_clients;
  created = suc p.created;
}

abbrev open_http : Process → Process
open_http p = record p {
  resources = record p.resources { http = some p.created };
  http_clients = p.created ∷ p.http_clients;
  created = suc p.created;
}

-- the server runs, and then the task, before the two attributes are set
abbrev run_metrics : Process → Process
run_metrics p = record p {
  resources = record p.resources {
    metrics_service = some p.created;
    metrics_task = some (suc p.created);
  };
  services = p.created ∷ p.services;
  tasks = suc p.created ∷ p.tasks;
  created = suc (suc p.created);
}

abbrev mark_started : Bool → Process → Process
mark_started b p = record p { resources = record p.resources { started = b } }

module _ (o : Outcomes) where
  unfoldable pub start_metrics : Action Process
  start_metrics = outcome (has_port o.metrics_port) >> outcome o.service_start >> set run_metrics

  unfoldable pub start : Action Process
  unfolding start_metrics
  start p =
      if p.resources.started
      then (ok tt, p)
      else (set open_redis
            >> outcome o.ping
            >> set open_http
            >> start_metrics
            >> set (mark_started true))
          p

  -- `if self.http: await self.http.aclose()`
  stop_http : Action Process
  stop_http p =
      if_set p.resources.http
        (λ n. closing o.http_aclose (λ q. record q { http_clients = remove n q.http_clients })) p

  stop_redis : Action Process
  stop_redis p =
      if_set p.resources.redis
        (λ n. closing o.redis_aclose (λ q. record q {
          redis_clients = remove n q.redis_clients;
          resources = record q.resources { redis = none };
        }))
        p

  stop_service : Action Process
  stop_service p =
      if_set p.resources.metrics_service
        (λ n. closing o.service_stop (λ q. record q { services = remove n q.services })) p

  stop_task : Action Process
  stop_task p =
      if_set p.resources.metrics_task (λ n. set (λ q. record q { tasks = remove n q.tasks })) p

  unfoldable pub stop : Action Process
  unfolding stop_http stop_redis stop_service stop_task
  stop p =
      if p.resources.started
      then (stop_http
            >> stop_redis
            >> stop_service
            >> stop_task
            >> outcome o.dispose
            >> set (mark_started false))
          p
      else (ok tt, p)

  -- The dependency `get_session`, up to the session that it yields.
  unfoldable pub get_session : Action Process
  get_session p = if p.resources.started then (ok tt, p) else start p

  -- `finally: await resources.stop()`, after the application has served
  abbrev finally_stop :
      Result (Unit {0}) → Result (Unit {0}) × Process → Result (Unit {0}) × Process
  finally_stop served (ok u, p) = (served, p)
  finally_stop served (raise e, p) = (raise e, p)

  -- `lifespan`: `limiter_init` is how `FastAPILimiter.init` ends, and `served` how the application
  -- ends that runs at the `yield`.
  unfoldable pub lifespan : Result (Unit {0}) → Result (Unit {0}) → Action Process
  lifespan limiter_init served =
      start >> outcome limiter_init >> (λ p. finally_stop served (stop p))
