-- ===== src/Benchmarks/Request.antt =====
-- src/benchmarks/run_benchmarks.py: the request of `test_100k_dau` for the daily active users.
use Prim.Native.String.{◌++◌}
use events_api.Common.{ℕ, ◌+◌, ◌*◌, ◌/◌, String, Option, none, some, ◌==◌, if◌then◌else◌}
use events_api.External.FastApi.{HttpRequest}
use events_api.Benchmarks.Generate.{start_day, timedelta_min}

-- `headers`, of which only the authorization is set
unfoldable pub headers : Option String → Option String
headers none = none
headers (some token) = if token == "" then none else some ("Bearer " ++ token)

-- `start_date` and `end_date`
abbrev pub start_date : ℕ
start_date = start_day

abbrev pub end_date : ℕ
end_date = (start_day * 1440 + timedelta_min) / 1440

-- `requests.get(f"{base}/stats/dau", …)`, where `encode` writes the parameters `from` and `to`
abbrev pub dau_request : (ℕ → ℕ → String) → Option String → HttpRequest
dau_request encode token = record {
  method = "GET";
  path = "/stats/dau";
  authorization = headers token;
  origin = none;
  query = encode start_date end_date;
  body = "";
}
