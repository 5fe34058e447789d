-- ===== src/App/Handlers/Guessing.antt =====
-- Passwords that are tried at `/auth/token`.
use Prim.Native.String.{◌++◌}
use events_api.Common.{
  ◌+◌, String, ◌≡◌, refl, ◌⊎◌, inl, inr, ◌∙◌, Bool, true, false, Option, none, some, List, [], ◌∷◌,
  map, length, arith,
}
use events_api.Common.Result.{Exception, http_exception, raise}
use events_api.Common.Text.{strip, any_char}
use events_api.Config.Cors.{allowed_origins}
use events_api.DataBase.Models.{User}
use events_api.External.FastApi.{HttpRequest, Parsed, fields, FastApi}
use events_api.External.Services.{Services}
use events_api.Handler.{World}
use events_api.Logs.{Entry, warning, entry_of}
use events_api.Metrics.{Labels, request_labels, HttpMetrics}
use events_api.UserAuth.Routers.{issue_token}
use events_api.App.Routes.{
  Endpoint, token, found, token_route, register_route, login_route, RoutingLaws, is_reserved,
  auth_router, api_router, app_entries, dispatch,
}
use events_api.Common.Split.{has_char, up_to, departs, after_prefix}
use events_api.App.Endpoints.{Parts, Fields}
use events_api.App.Handlers.{AppAnswer, Backend, call, limited, app_router}
use events_api.App.Pipeline.{raised, Timed, serve_all}
use events_api.App.Pipeline.Outcomes.{Outcome, routed, told, visits, responses, counted, noted}
use events_api.App.Pipeline.Accounts.{serve_all-accounts}

abbrev pub wrong_password : Exception
wrong_password = http_exception 401 "Невірний email або пароль."

-- The email is unknown, or the password is not that of the user.
abbrev pub IsWrong : (S : Services) → String × String → World S → Type 0
IsWrong S form w =
    (S.db.select_by_email (S.lower (strip form.0)) w.db ≡ none)
    ⊎ ((u : User) × (S.db.select_by_email (S.lower (strip form.0)) w.db ≡ some u)
        × (S.pwd_context.verify form.1 u.hashed_password ≡ false))

issue_token_rejects :
    (S : Services) (form : String × String) (w : World S)
    → IsWrong S form w
    → issue_token S form w ≡ (raise wrong_password, w)
unfolding issue_token
issue_token_rejects S form w (inl unknown) = rw unknown
issue_token_rejects S form w (inr (u, known, wrong)) = rw (known, wrong)

module _ (p : Parts) (f : FastApi (AppAnswer p))
    (bearer : HttpRequest → Option p.services.jwt.Token)
    (parse : (e : Endpoint) → List String → HttpRequest → Parsed (Fields p e)) where
  -- a request for a token with a wrong password
  pub record Guess (b : Backend p) (q : Timed) : Type 0 where
    pub form : String × String
    pub method_eq : q.request.method ≡ "POST"
    pub path_eq : q.request.path ≡ p.services.settings.api_prefix ++ "/auth/token"
    pub sent : parse token [] q.request ≡ fields form
    pub plain : f.preflight (allowed_origins true p.services.settings.cors_origins) q.request ≡ none
    pub wrong : IsWrong p.services form b.world

  abbrev pub Guesses : Backend p → List Timed → Type 0
  Guesses b [] = Unit
  Guesses b (q ∷ qs) = Guess b q × Guesses b qs

  module _ (b : Backend p) (settled : p.services.db.rollback b.world.db ≡ b.world.db)
      (kept : p.event_table.rollback b.table ≡ b.table) (R : RoutingLaws p.routing)
      (plain_prefix : has_char 123 p.services.settings.api_prefix ≡ false)
      (free : is_reserved "/static" (p.services.settings.api_prefix ++ "/auth/token") ≡ false) where
    way :
        (q : Timed)
        → Guess b q
        → dispatch p.routing p.services.settings.api_prefix q.request.method q.request.path
          ≡ found token []
    unfolding dispatch app_entries api_router auth_router any_char up_to departs after_prefix
    way q g =
        rw (g.method_eq, g.path_eq)
          (R.literal "/static" p.services.settings.api_prefix (register_route ∷ login_route ∷ []) _
            token_route _ plain_prefix refl free (refl, (refl, tt)))

    router_refuses :
        (is_benchmark : Bool) (q : Timed)
        → Guess b q
        → app_router p bearer parse is_benchmark q.request b ≡ (raised wrong_password, b)
    unfolding app_router limited call
    router_refuses is_benchmark q g =
        rw (way q g, g.sent, issue_token_rejects p.services g.form b.world g.wrong, settled, kept)
          refl

    abbrev failed : List Timed → List (Timed × Outcome f.Response (AppAnswer p))
    failed = map (λ q. (q, routed (raised wrong_password)))

    visits-failed :
        (qs : List Timed)
        → Guesses b qs
        → visits f p.services.settings (app_router p bearer parse) qs b ≡ (failed qs, b)
    visits-failed [] gs = refl
    visits-failed (q ∷ qs) (g, gs) = rw (
      g.plain,
      router_refuses (told f p.services.settings (app_router p bearer parse) q) q g,
      visits-failed qs gs,
    )

    responses-failed :
        (qs : List Timed)
        → responses f p.services.settings (app_router p bearer parse) (failed qs)
          ≡ map (λ q. f.http_exception_response 401 "Невірний email або пароль.") qs
    responses-failed [] = refl
    responses-failed (q ∷ qs) = rw (responses-failed qs)

    -- the log with a warning for each request
    abbrev pub warned : List Timed → List Entry → List Entry
    warned [] log = log
    warned (q ∷ qs) log =
        warned qs (entry_of warning 401 q.request (some "Невірний email або пароль.") ∷ log)

    noted-failed : (qs : List Timed) (log : List Entry) → noted (failed qs) log ≡ warned qs log
    noted-failed [] log = refl
    noted-failed (q ∷ qs) log =
        noted-failed qs (entry_of warning 401 q.request (some "Невірний email або пароль.") ∷ log)

    length-counted :
        (qs : List Timed) (seen : List Labels)
        → length (counted (failed qs) seen) ≡ length qs + length seen
    length-counted [] seen = omega arith
    length-counted (q ∷ qs) seen =
        length-counted qs (request_labels q.request.method q.request.path ∷ seen) ∙ omega arith

    -- `POST /auth/token` has no limiter: however many requests come with an unknown email or a
    -- wrong password, and whatever the limiter would say, each is answered 401, and never 429. The
    -- counter of requests grows by their number, the log by a warning with the status 401 for each,
    -- with its method and path, and the state of the routes, the limiter's included, is as before.
    -- Nothing is pending in the sessions of the database at first, none of the requests is a preflight,
    -- API_PREFIX has no "{" in it, and the path is no page of FastAPI's and not under "/static/".
    pub serve_all-Guesses :
        (h : HttpMetrics) (log : List Entry) (qs : List Timed)
        → Guesses b qs
        → let served =
            serve_all f p.services.settings
              (app_router p bearer parse)
              qs
              (h, record { backend = b; log = log }) in
          (served.0 ≡ map (λ q. f.http_exception_response 401 "Невірний email або пароль.") qs)
          × (served.1.1.backend ≡ b)
          × (length served.1.0.requests_total ≡ length qs + length h.requests_total)
          × (served.1.1.log ≡ warned qs log)
    serve_all-Guesses h log qs gs =
        rw
          (
            serve_all-accounts f p.services.settings (app_router p bearer parse) qs h
                (record { backend = b; log = log }),
            visits-failed qs gs,
          )
          (responses-failed qs, refl, length-counted qs h.requests_total, noted-failed qs log)
