-- ===== src/Benchmarks.antt =====
-- src/benchmarks/run_benchmarks.py: the URLs of the benchmark, and the wait for the API. Times are
-- milliseconds.
pub mod Waiting
pub mod Urls
pub mod Database
pub mod Generate
pub mod Request
pub mod Run
use Prim.Native.String.{◌++◌}
use events_api.Common.{
  ℕ, zero, suc, ◌+◌, ◌*◌, String, Bool, true, false, ◌||◌, Option, none, some, ltb, eqb, ◌==◌,
  if◌then◌else◌,
}
use events_api.Common.Result.{Exception, other_error, runtime_error, Result, ok, raise}
use events_api.Common.Replace.{replace}

-- `_resolve_client_host`
unfoldable pub resolve_client_host : String → String
resolve_client_host host = if host == "0.0.0.0" || host == "::" then "127.0.0.1" else host

-- `sync_url` of `create_test_database`, and POSTGRES_ALEMBIC_URL of `test_100k_dau`
unfoldable pub sync_url : String → String
sync_url async_url = replace "postgresql://" "postgresql+psycopg2://" (
    replace "postgresql+psycopg://" "postgresql+psycopg2://"
      (replace "postgresql+asyncpg://" "postgresql+psycopg2://" async_url))

-- The API from outside: how the request that is sent at a time ends (with the status of the
-- response, or an exception), and how long it takes.
pub record Api : Type 0 where
  pub get : ℕ → Result ℕ
  pub took : ℕ → ℕ

-- `r.status_code in (200, 401, 403)`, and `except Exception`
abbrev pub is_ready : Result ℕ → Bool
is_ready (ok status) = eqb status 200 || eqb status 401 || eqb status 403
is_ready (raise e) = false

-- The loop `while time.time() < deadline`, from a time; with the time at which it ends. It sleeps
-- for half a second after each request. `runtime_error` is for the fuel.
unfoldable pub wait_loop : Api → ℕ → ℕ → ℕ → Result (Unit {0}) × ℕ
wait_loop api deadline zero now =
    (if ltb now deadline then raise runtime_error else raise other_error, now)
wait_loop api deadline (suc n) now =
    let again = wait_loop api deadline n (now + api.took now + 500) in
    if ltb now deadline
    then (if is_ready (api.get now) then (ok tt, now + api.took now) else again)
    else (raise other_error, now)

-- `_wait_for_api`: the deadline is `timeout_sec` seconds ahead, and `2 * timeout_sec` rounds reach
-- it.
unfoldable pub wait_for_api : Api → ℕ → ℕ → Result (Unit {0}) × ℕ
wait_for_api api timeout_sec now = wait_loop api (now + 1000 * timeout_sec) (2 * timeout_sec) now
