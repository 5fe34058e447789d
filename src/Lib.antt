-- ===== src/Lib.antt =====
-- The events API: a FastAPI service that registers and logs in users, keeps their sessions in
-- Redis, takes in events over HTTP and from CSV files, and serves statistics.
--
-- Parts, and how they interact. The routes of src/user_auth/routers.py find users through
-- src/data_base/crud.py in PostgreSQL, check passwords with src/user_auth/utils.py, and issue and
-- revoke tokens through src/security/token_cache.py, which makes them with
-- src/security/jwt_service.py and keeps them in Redis. src/endpoint_events takes events in, by a
-- route and by a command that imports a CSV file, and src/endpoint_stats serves numbers about them.
-- Each route counts what it did with src/infrastructure/metrics.py. src/infrastructure/resources.py
-- opens and closes what the process shares, and holds the middleware that lets the benchmark pass to
-- the statistics. src/main.py puts the routers of src/routers.py behind the middleware and behind the
-- exception handlers of src/logs/log_config.py. migrations/ makes the tables of
-- src/data_base/models.py, and src/benchmarks runs them, waits for the API and measures it.
--
-- Files and sources:
--   Config                  src/config.py: Settings and its defaults
--   Config/Cors             src/config.py: parse_cors_origins; src/main.py: the list `origins`.
--                           Config/Cors/Origins its theorems
--   DataBase/Models, Crud   src/data_base/models.py, src/data_base/crud.py
--   TokenCache              src/security/token_cache.py: the class TokenCache; a method that writes is
--                           a function from a Redis state to the next one (self.redis), and `now` is
--                           what it reads from the clock
--   TokenCache/Issue        src/security/token_cache.py: issue_tokens_for_user
--   TokenCache/Keys, Slots, Revocation, Access, Sessions, Issue/Effects
--                           lemmas and theorems on the cache
--   TokenCache/Ledger       what the cache promises, without keys and texts: which tokens are open,
--                           refused and registered, and for how long. A call of a method is a value,
--                           so a run of the cache is a list of them; TokenCache/Members and
--                           Ledger/Refinement relate the methods to it
--   JwtService              src/security/jwt_service.py; JwtService/Audience its theorems
--   UserAuth/Schemas        src/user_auth/schemas.py; UserAuth/Schemas/Passwords its theorems
--   UserAuth/Utils          src/user_auth/utils.py
--   UserAuth/Routers        src/user_auth/routers.py, each handler by its name; a module below it for
--                           the theorems on each handler
--   Events/Routers          src/endpoint_events/routers.py and schemas.py
--   Events/Import           src/endpoint_events/cli_utils.py: parse_row, insert_batch, import_csv. The
--                           body of the loop is import_row, the loop is import_rows, the insertion of
--                           a batch with its counters is flush
--   Stats/Routers, Utils    src/endpoint_stats/routers.py, utils.py. The aggregate queries are
--                           operations of External/EventStats; get_first_visit_users is a
--                           function on the rows there, which the laws of the queries take.
--                           Stats/Routers/Segments, Days and Weeks, and Stats/Distinct, are the
--                           theorems
--   Infrastructure/Resources
--                           src/infrastructure/resources.py: Resources and the dependency get_session,
--                           and lifespan of src/main.py; Infrastructure/Resources/Lifecycle and
--                           Failures its theorems. Each call of the outside ends as a record of
--                           outcomes says
--   Infrastructure/Benchmark
--                           src/infrastructure/resources.py: benchmark_token_middleware, with
--                           call_next as a function of what it sets; Infrastructure/Benchmark/Bypass
--                           its theorems, with benchmark_or_auth behind it
--   Metrics                 src/infrastructure/metrics.py; Metrics/Rate the rate of events while
--                           events are recorded
--   Migrations/Env          migrations/env.py: the URLs and what a migration runs on
--   Migrations/Initial      migrations/versions/fd8bb983322f_initial.py, and the tables of the models
--   Benchmarks              src/benchmarks/run_benchmarks.py: the URLs and _wait_for_api;
--                           Benchmarks/Database its create_test_database.
--                           Benchmarks/Generate src/benchmarks/dau_100k/generate_events.py, and
--                           Generate/Imported the import of its file; Benchmarks/Run its
--                           test_100k_dau, and Benchmarks/Request the request that it sends
--   Logs                    src/logs/log_config.py: the two exception handlers
--   App/Pipeline            src/main.py: the middleware and the exception handlers around the router;
--                           App/Pipeline/Outcomes says what becomes of requests, and
--                           App/Pipeline/Accounts are its theorems
--   App/Routes              src/routers.py, the decorators of the routes and what src/main.py mounts
--                           and includes. The search for the route of a path is Starlette's: an
--                           operation with a documented law
--   App/Endpoints           the parameters of the routes' functions: fields, schemas, users, limits
--   App/Handlers            a request from the limiter to the route's function and the close of the
--                           session; App/Handlers/Users, Sessions, Guessing and
--                           Measured its theorems
--   UserAuth/Routers/Overlap
--                           api_refresh as the part before its awaits and the part after them
--   Handler                 the state that handlers share, and how they sequence and raise
--   External/...            what the program calls: Redis, JSON, the two JWT libraries, the users' table
--                           and the events' table of PostgreSQL, its schema and its aggregate queries,
--                           passlib, the clock and random texts, FastAPI with
--                           fastapi_limiter, the csv module. Each is
--                           a record of operations, most with a record of documented laws
--   Common/...              numbers, texts, results, actions, lists and sets; Common/Split and
--                           Common/Replace are Python's str.split, str.startswith and str.replace
--   Samples, Examples       small services that meet the laws, and each result on a concrete input
--
-- How the code is modelled. A handler is a function of the world, which holds the states of Redis and
-- the database, the number of readings of the clock and of random draws, and the metrics. It returns
-- a result, or an exception as a value, with the world after it; what it did before an exception
-- stays done. Times are microseconds since the epoch; `int(x.timestamp())` is their quotient by a
-- million. Python's integers are unbounded, and so are the model's.
--
-- Bounds. All loops of the program but one run over a list that is given (the members of a session
-- set, the rows of a file) or a number of weeks, so the model recurs on that and needs no fuel. The wait
-- for the API has two rounds of fuel for each second of its timeout, which reach the deadline, as each
-- round sleeps for half a second. The digits of a number are printed with its successor as fuel, which
-- is enough, as the number is less than two to that power.
--
-- Assumptions. Within one handler no key expires on the Redis server and no other handler runs, but
-- in UserAuth/Routers/Overlap, where requests for a refresh overlap; time passes between handlers
-- (`elapse`). Keys of one family are never of two Redis types. A duration for which a token is kept
-- is positive where a theorem says so: Redis refuses others, and the model of the command is only
-- used with positive ones. The time zone of the database session does not shift the days of the
-- events. The clock of the wait for the API does not go back. Two starts of the resources do not
-- overlap.
--
-- Not modelled: the configuration of the logging and the log lines of the routes, the server, what
-- FastAPI answers to paths without a route and what CORS adds to responses, how Starlette matches
-- a path with the routes and serves the files under /static, which are parameters, as is how
-- Alembic keeps its configuration; pydantic's checks of types and email addresses and its reading
-- of the environment, the configuration of the response cache and of the engine of SQLAlchemy,
-- what the benchmark measures and prints; the rounding of a float and the limit of 4,300 digits on
-- `int`.
pub mod Common
pub mod Config
pub mod External
pub mod Metrics
pub mod Logs
pub mod App
pub mod Handler
pub mod DataBase
pub mod TokenCache
pub mod JwtService
pub mod UserAuth
pub mod Events
pub mod Stats
pub mod Infrastructure
pub mod Migrations
pub mod Benchmarks
pub mod Samples
pub mod Examples
