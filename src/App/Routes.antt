-- ===== src/App/Routes.antt =====
-- src/routers.py, and the decorators of the routes of src/user_auth/routers.py,
-- src/endpoint_events/routers.py, src/endpoint_stats/routers.py and src/main.py: the table of the
-- routes. How a path is matched with it is Starlette's, and a parameter.
use Prim.Native.String.{◌++◌ as append}
use events_api.Common.{String, ◌≡◌, Bool, true, false, ◌||◌, List, [], ◌∷◌, ◌++◌, elem}
use events_api.Common.Split.{has_char, starts_with, up_to, departs}

pub data Endpoint : Type 0 where
  register login token refresh logout change_password : Endpoint
  add_events : Endpoint
  dau top_events retention : Endpoint
  root : Endpoint

pub record Route : Type 0 where
  pub method : String
  pub path : String
  pub endpoint : Endpoint

abbrev pub post : String → Endpoint → Route
post path endpoint = record { method = "POST"; path = path; endpoint = endpoint }

abbrev pub get : String → Endpoint → Route
get path endpoint = record { method = "GET"; path = path; endpoint = endpoint }

-- the decorators of the routes, with the prefixes of their routers
abbrev pub register_route : Route
register_route = post "/auth/register" register

abbrev pub login_route : Route
login_route = post "/auth/login" login

abbrev pub token_route : Route
token_route = post "/auth/token" token

abbrev pub refresh_route : Route
refresh_route = post "/auth/{user_id}/refresh" refresh

abbrev pub logout_route : Route
logout_route = post "/auth/{user_id}/logout" logout

abbrev pub change_password_route : Route
change_password_route = post "/auth/{user_id}/change-password" change_password

abbrev pub add_events_route : Route
add_events_route = post "/events/" add_events

abbrev pub dau_route : Route
dau_route = get "/stats/dau" dau

abbrev pub top_events_route : Route
top_events_route = get "/stats/top-events" top_events

abbrev pub retention_route : Route
retention_route = get "/stats/retention" retention

-- the routers, each route in its place
unfoldable pub auth_router : List Route
auth_router =
    register_route ∷ login_route ∷ token_route ∷ refresh_route ∷ logout_route
    ∷ change_password_route ∷ []

unfoldable pub event_router : List Route
event_router = add_events_route ∷ []

unfoldable pub stats_router : List Route
stats_router = dau_route ∷ top_events_route ∷ retention_route ∷ []

-- `api_router`, which includes them in this order
unfoldable pub api_router : List Route
unfolding auth_router event_router stats_router
api_router = auth_router ++ event_router ++ stats_router

-- `root`, whose decorator is of the application
abbrev pub root_route : Route
root_route = get "/" root

-- What the application is given, in its order: files under a path (`app.mount`), a router with its
-- prefix (`app.include_router`), and a route of its own.
pub data Entry : Type 0 where
  mount : String → Entry
  include_router : String → List Route → Entry
  single : Route → Entry

unfoldable pub app_entries : String → List Entry
app_entries api_prefix =
    mount "/static" ∷ include_router api_prefix api_router ∷ single root_route ∷ []

-- What is found: a route with its path parameters, the files under the mounted path, only routes of
-- other methods, or none.
pub data Found : Type 0 where
  found : Endpoint → List String → Found
  mounted other_method nothing : Found

-- Starlette's search for the route of a method and a path.
pub record Routing : Type 0 where
  pub find : List Entry → String → String → Found

-- The router of the application.
unfoldable pub dispatch : Routing → String → String → String → Found
unfolding app_entries
dispatch routing api_prefix method path = routing.find (app_entries api_prefix) method path

-- the pages of FastAPI itself
abbrev own_pages : List String
own_pages = "/openapi.json" ∷ "/docs" ∷ "/docs/oauth2-redirect" ∷ "/redoc" ∷ []

-- A path that FastAPI's pages or the mounted files have.
unfoldable pub is_reserved : String → String → Bool
is_reserved mounted_path path = starts_with (append mounted_path "/") path || elem path own_pages

-- The text before the first parameter of each path differs from the path at a position that both
-- have.
abbrev pub Apart : List Route → String → Type 0
Apart [] path = Unit
Apart (r ∷ rs) path = (departs (up_to "{" r.path) path ≡ true) × Apart rs path

-- Of a router included after a mounted path, a route without parameters is found at its path under
-- the prefix of the router, where no path of the router before it can match, and neither FastAPI
-- nor the mounted files have that path.
pub record RoutingLaws (R : Routing) : Type 0 where
  pub literal :
      (mounted_path prefix : String) (before after : List Route) (r : Route) (entries : List Entry)
      → has_char 123 prefix ≡ false
      → has_char 123 r.path ≡ false
      → is_reserved mounted_path (append prefix r.path) ≡ false
      → Apart before r.path
      → R.find
          (mount mounted_path ∷ include_router prefix (before ++ (r ∷ after)) ∷ entries)
          r.method
          (append prefix r.path)
        ≡ found r.endpoint []
