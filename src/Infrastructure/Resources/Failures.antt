-- ===== src/Infrastructure/Resources/Failures.antt =====
-- Starts and stops of the resources that a call of the outside ends early.
use events_api.Common.{ℕ, zero, suc, ◌≡◌, refl, length, true, false, none, some, [], ◌∷◌, arith}
use events_api.Common.Result.{Exception, Result, ok, raise}
use events_api.Infrastructure.Resources.{Process, initial, Outcomes, start, stop, get_session}
use events_api.Infrastructure.Resources.Lifecycle.{Smooth, Running, Stopped, unless-true}

-- `n` starts one after another
abbrev pub start_times : Outcomes → ℕ → Process → Process
start_times o zero p = p
start_times o (suc n) p = (start o (start_times o n p)).1

pub record Leaking (n : ℕ) (p : Process) : Type 0 where
  pub started : p.resources.started ≡ false
  pub clients : length p.redis_clients ≡ n

start-Leaking :
    (o : Outcomes) (e : Exception) (n : ℕ) (p : Process)
    → o.ping ≡ raise e
    → Leaking n p
    → Leaking (suc n) (start o p).1
unfolding start
start-Leaking o e n p h l =
    rw (l.started, h) (record { started = refl; clients = omega (arith, l.clients) })

stop-Leaking : (o : Outcomes) (n : ℕ) (p : Process) → Leaking n p → stop o p ≡ (ok tt, p)
unfolding stop
stop-Leaking o n p l = rw l.started refl

start_times-Leaking :
    (o : Outcomes) (e : Exception) (n : ℕ) → o.ping ≡ raise e → Leaking n (start_times o n initial)
start_times-Leaking o e zero h = record { started = refl; clients = refl }
start_times-Leaking o e (suc n) h =
    start-Leaking o e n (start_times o n initial) h (start_times-Leaking o e n h)

-- From the initial process, each start that the PING of Redis refuses leaves its client of Redis
-- open: after `n` of them `n` clients are open and the resources are not started, so that a stop
-- changes nothing.
pub start_times-leaks :
    (o other : Outcomes) (e : Exception) (n : ℕ)
    → o.ping ≡ raise e
    → Leaking n (start_times o n initial)
      × (stop other (start_times o n initial) ≡ (ok tt, start_times o n initial))
start_times-leaks o other e n h =
    let leaking = start_times-Leaking o e n h in
    (leaking, stop-Leaking other n (start_times o n initial) leaking)

-- What a stop leaves that could not stop the metrics server: Redis and HTTP are closed, and the
-- resources count as started.
pub record HalfStopped (p : Process) : Type 0 where
  pub started : p.resources.started ≡ true
  pub redis : p.resources.redis ≡ none
  pub http : (n : ℕ) × (p.resources.http ≡ some n)
  pub redis_clients : p.redis_clients ≡ []
  pub http_clients : p.http_clients ≡ []
  pub service : (n : ℕ) × (p.resources.metrics_service ≡ some n) × (p.services ≡ n ∷ [])
  pub task : (n : ℕ) × (p.resources.metrics_task ≡ some n) × (p.tasks ≡ n ∷ [])

stop-HalfStopped :
    (o : Outcomes) (p : Process) (e : Exception)
    → o.http_aclose ≡ ok tt
    → o.redis_aclose ≡ ok tt
    → o.service_stop ≡ raise e
    → Running p
    → HalfStopped (stop o p).1 × ((stop o p).0 ≡ raise e)
unfolding stop
stop-HalfStopped o p e http redis service r =
    let (a, held_redis, one_redis) = r.redis in
    let (b, held_http, one_http) = r.http in
    let (c, held_service, one_service) = r.service in
    rw (r.started, held_http, http, held_redis, redis, held_service, service)
      (
        record {
          started = refl;
          redis = refl;
          http = (b, refl);
          redis_clients = rw one_redis (ground arith);
          http_clients = rw one_http (ground arith);
          service = (c, refl, one_service);
          task = r.task;
        },
        refl,
      )

stop-resumed : (o : Outcomes) (p : Process) → Smooth o → HalfStopped p → Stopped (stop o p).1
unfolding stop
stop-resumed o p h s =
    let (b, held_http) = s.http in
    let (c, held_service, one_service) = s.service in
    let (d, held_task, one_task) = s.task in
    rw
      (
        s.started, held_http, h.http_aclose, s.redis, held_service, h.service_stop, held_task,
        h.dispose,
      )
      (record {
        started = refl;
        redis = s.redis_clients;
        http = rw s.http_clients refl;
        service = rw one_service (ground arith);
        task = rw one_task (ground arith);
      })

-- A stop of running resources that cannot stop the metrics server has closed both clients, and
-- passes the exception on with the resources marked as started: a start or a request for a session
-- after it opens nothing, whatever the calls of the outside would do; and a stop after it, where
-- those succeed, closes the rest.
pub stop-interrupted :
    (o other good : Outcomes) (p : Process) (e : Exception)
    → o.http_aclose ≡ ok tt
    → o.redis_aclose ≡ ok tt
    → o.service_stop ≡ raise e
    → Smooth good
    → Running p
    → HalfStopped (stop o p).1
      × ((stop o p).0 ≡ raise e)
      × (start other (stop o p).1 ≡ (ok tt, (stop o p).1))
      × (get_session other (stop o p).1 ≡ (ok tt, (stop o p).1))
      × Stopped (stop good (stop o p).1).1
unfolding start get_session
stop-interrupted o other good p e http redis service h r =
    let (half, raised) = stop-HalfStopped o p e http redis service r in
    (
      half,
      raised,
      unless-true (λ (x : Result (Unit {0}) × Process). x ≡ (ok tt, (stop o p).1)) _ half.started
          refl,
      unless-true (λ (x : Result (Unit {0}) × Process). x ≡ (ok tt, (stop o p).1)) _ half.started
          refl,
      stop-resumed good (stop o p).1 h half,
    )
