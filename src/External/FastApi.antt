-- ===== src/External/FastApi.antt =====
-- FastAPI and Starlette, as the application uses them: the responses that they build, and what they
-- answer by themselves. A value of `Body` is what a route returns.
use events_api.Common.{ℕ, String, Bool, Option, List}

pub record HttpRequest : Type 0 where
  pub method : String
  pub path : String
  -- the headers `Authorization` and `Origin`
  pub authorization : Option String
  pub origin : Option String
  pub query : String
  pub body : String

pub record FastApi (Body : Type 0) : Type 1 where
  pub Response : Type 0
  -- the response to a value that a route returns, with the route's status code
  pub serialize : ℕ → Body → Response
  -- `http_exception_handler` and `request_validation_exception_handler` of
  -- `fastapi.exception_handlers`
  pub http_exception_response : ℕ → String → Response
  pub validation_response : Response
  -- the answer to a path without a route of the application: the documentation's, a static file,
  -- the redirection to the path with another slash at its end or without it, or 404
  pub no_route : HttpRequest → Response
  -- the router's answer to a method that no route of the path has
  pub method_not_allowed : Response
  -- the answer of `ServerErrorMiddleware` to an exception that nobody handles
  pub server_error : Response
  -- the answers of `CORSMiddleware` to preflight requests, by the origins that it allows
  pub preflight : List String → HttpRequest → Option Response

-- What the routes' parameters get of a request: the body is no JSON, a parameter is missing or is
-- not of its type, or the values.
pub data Parsed (A : Type 0) : Type 0 where
  malformed unfit : Parsed A
  fields : A → Parsed A

-- `fastapi_limiter`, over its own keys in Redis: `RateLimiter(times=…, seconds=…)`, and whether the
-- request passes.
pub record Limiter : Type 1 where
  pub State : Type 0
  pub admit : ℕ → ℕ → HttpRequest → State → Bool × State
