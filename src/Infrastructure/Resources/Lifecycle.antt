-- ===== src/Infrastructure/Resources/Lifecycle.antt =====
-- The resources over any sequence of starts and stops.
use events_api.Common.{
  ℕ, ◌≡◌, refl, Bool, true, false, some, [], ◌∷◌, arith, if◌then◌else◌, ◌⊎◌, inl, inr,
}
use events_api.Common.Int.{ℤ}
use events_api.Common.Result.{Exception, Result, ok, raise}
use events_api.Infrastructure.Resources.{
  Process, initial, Outcomes, start, stop, get_session, lifespan,
}

-- All the calls of the outside succeed.
pub record Smooth (o : Outcomes) : Type 0 where
  pub ping : o.ping ≡ ok tt
  pub port : ℤ
  pub metrics_port : o.metrics_port ≡ some port
  pub service_start : o.service_start ≡ ok tt
  pub http_aclose : o.http_aclose ≡ ok tt
  pub redis_aclose : o.redis_aclose ≡ ok tt
  pub service_stop : o.service_stop ≡ ok tt
  pub dispose : o.dispose ≡ ok tt

-- One client of each kind, one server and one task, and it is those that the resources hold.
pub record Running (p : Process) : Type 0 where
  pub started : p.resources.started ≡ true
  pub redis : (n : ℕ) × (p.resources.redis ≡ some n) × (p.redis_clients ≡ n ∷ [])
  pub http : (n : ℕ) × (p.resources.http ≡ some n) × (p.http_clients ≡ n ∷ [])
  pub service : (n : ℕ) × (p.resources.metrics_service ≡ some n) × (p.services ≡ n ∷ [])
  pub task : (n : ℕ) × (p.resources.metrics_task ≡ some n) × (p.tasks ≡ n ∷ [])

-- Nothing is open.
pub record Stopped (p : Process) : Type 0 where
  pub started : p.resources.started ≡ false
  pub redis : p.redis_clients ≡ []
  pub http : p.http_clients ≡ []
  pub service : p.services ≡ []
  pub task : p.tasks ≡ []

start-Running :
    (o : Outcomes) (p : Process)
    → Smooth o
    → Stopped p
    → Running (start o p).1 × ((start o p).0 ≡ ok tt)
unfolding start
start-Running o p h s =
    rw (s.started, h.ping, h.metrics_port, h.service_start)
      (
        record {
          started = refl;
          redis = (p.created, refl, rw s.redis refl);
          http = (_, refl, rw s.http refl);
          service = (_, refl, rw s.service refl);
          task = (_, refl, rw s.task refl);
        },
        refl,
      )

stop-Stopped :
    (o : Outcomes) (p : Process)
    → Smooth o
    → Running p
    → Stopped (stop o p).1 × ((stop o p).0 ≡ ok tt)
unfolding stop
stop-Stopped o p h r =
    let (a, held_redis, one_redis) = r.redis in
    let (b, held_http, one_http) = r.http in
    let (c, held_service, one_service) = r.service in
    let (d, held_task, one_task) = r.task in
    rw
      (
        r.started, held_http, h.http_aclose, held_redis, h.redis_aclose, held_service,
        h.service_stop, held_task, h.dispose,
      )
      (
        record {
          started = refl;
          redis = rw one_redis (ground arith);
          http = rw one_http (ground arith);
          service = rw one_service (ground arith);
          task = rw one_task (ground arith);
        },
        refl,
      )

-- What the process does: it starts or stops the resources, or asks for a session, and all the
-- calls of the outside succeed.
pub data Step (p q : Process) : Type 0 where
  starts : (o : Outcomes) → Smooth o → q ≡ (start o p).1 → Step p q
  stops : (o : Outcomes) → Smooth o → q ≡ (stop o p).1 → Step p q
  asks : (o : Outcomes) → Smooth o → q ≡ (get_session o p).1 → Step p q

pub data Reach : Process → Type 0 where
  here : Reach initial
  next : {p q : Process} → Reach p → Step p q → Reach q

-- Either everything runs once, or nothing is open.
abbrev pub Balanced : Process → Type 0
Balanced p = Running p ⊎ Stopped p

-- what runs only if a flag does not hold
pub unless-true :
    {A : Type 0} (F : A → Type 0) {b : Bool} {x : A} (y : A)
    → b ≡ true
    → F x
    → F (if b then x else y)
unless-true F y h f = rw h f

unless-false :
    {A : Type 0} (F : A → Type 0) {b : Bool} (x : A) {y : A}
    → b ≡ false
    → F y
    → F (if b then x else y)
unless-false F x h f = rw h f

start-Balanced : (o : Outcomes) (p : Process) → Smooth o → Balanced p → Running (start o p).1
unfolding start
start-Balanced o p h (inl r) =
    unless-true (λ (x : Result (Unit {0}) × Process). Running x.1) _ r.started r
start-Balanced o p h (inr s) = (start-Running o p h s).0

stop-Balanced : (o : Outcomes) (p : Process) → Smooth o → Balanced p → Stopped (stop o p).1
unfolding stop
stop-Balanced o p h (inl r) = (stop-Stopped o p h r).0
stop-Balanced o p h (inr s) =
    unless-false (λ (x : Result (Unit {0}) × Process). Stopped x.1) _ s.started s

get_session-Running :
    (o : Outcomes) (p : Process) → Smooth o → Balanced p → Running (get_session o p).1
unfolding get_session
get_session-Running o p h (inl r) =
    unless-true (λ (x : Result (Unit {0}) × Process). Running x.1) _ r.started r
get_session-Running o p h (inr s) =
    unless-false (λ (x : Result (Unit {0}) × Process). Running x.1) _ s.started
      (start-Running o p h s).0

Step-Balanced : {p q : Process} → Step p q → Balanced p → Balanced q
Step-Balanced {p} (starts o h e) b = rw e (inl (start-Balanced o p h b))
Step-Balanced {p} (stops o h e) b = rw e (inr (stop-Balanced o p h b))
Step-Balanced {p} (asks o h e) b = rw e (inl (get_session-Running o p h b))

-- In every process that any sequence of starts, stops and requests for a session leads to, where
-- the calls of the outside succeed: either the resources are started, and there is one open client
-- of Redis, one HTTP client, one metrics server and one task, those that the resources hold; or
-- they are not, and nothing is open. A request for a session always finds them started.
pub Reach-Balanced :
    {p : Process} (o : Outcomes) → Smooth o → Reach p → Balanced p × Running (get_session o p).1
Reach-Balanced {p} o h r = (reached r, get_session-Running o p h (reached r))
  where
    reached : {q : Process} → Reach q → Balanced q
    reached here =
        inr (record { started = refl; redis = refl; http = refl; service = refl; task = refl })
    reached (next before step) = Step-Balanced step (reached before)

-- Where nothing is open at first and the calls that open and close succeed: if the rate limiter is
-- set up, the application ends with nothing open, however it has served, and as it has served; if
-- setting it up raises, everything that was started stays open, and the exception is passed on.
pub lifespan-closes :
    (o : Outcomes) (p : Process) (served : Result (Unit {0})) (e : Exception)
    → Smooth o
    → Stopped p
    → (Stopped (lifespan o (ok tt) served p).1 × ((lifespan o (ok tt) served p).0 ≡ served))
      × (Running (lifespan o (raise e) served p).1 × ((lifespan o (raise e) served p).0 ≡ raise e))
unfolding lifespan
lifespan-closes o p served e h s =
    let (running, fine) = start-Running o p h s in
    let (stopped, closed) = stop-Stopped o (start o p).1 h running in
    ((rw (fine, closed) stopped, rw (fine, closed) refl), (rw fine running, rw fine refl))
