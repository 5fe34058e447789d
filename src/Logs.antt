-- ===== src/Logs.antt =====
-- src/logs/log_config.py: the two exception handlers, with what they log. Of a validation error
-- the log also has its errors and the body, which are left out; where logs are written is the
-- logging module's.
use events_api.Common.{ℕ, String, Option, none, some, List, ◌∷◌, leb, if◌then◌else◌}
use events_api.External.FastApi.{HttpRequest, FastApi}

pub data Level : Type 0 where
  info warning : Level

pub record Entry : Type 0 where
  pub level : Level
  pub status_code : ℕ
  pub method : String
  pub path : String
  pub detail : Option String

abbrev pub entry_of : Level → ℕ → HttpRequest → Option String → Entry
entry_of level status r detail = record {
  level = level;
  status_code = status;
  method = r.method;
  path = r.path;
  detail = detail;
}

module _ {Body : Type 0} (f : FastApi Body) where
  unfoldable pub validation_exception_handler : HttpRequest → List Entry → f.Response × List Entry
  validation_exception_handler request log =
      (f.validation_response, entry_of warning 422 request none ∷ log)

  unfoldable pub http_exception_handler :
      HttpRequest → ℕ → String → List Entry → f.Response × List Entry
  http_exception_handler request status detail log =
      let level = if leb 400 status then warning else info in
      (f.http_exception_response status detail, entry_of level status request (some detail) ∷ log)
