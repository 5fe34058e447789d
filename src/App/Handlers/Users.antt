-- ===== src/App/Handlers/Users.antt =====
-- Whose requests the routes answer that have a current user.
use events_api.Common.{
  ℕ, String, ◌≡◌, refl, ◌⊎◌, inl, inr, ◌∙◌, sym, Bool, true, false, Option, none, some, List, arith,
  Bool-cases,
}
use events_api.Common.Result.{Result, ok, raise, Result-cases}
use events_api.DataBase.Crud.{
  CurrentUser, get_current_user, get_current_user-none, benchmark_or_auth,
}
use events_api.DataBase.Models.{User}
use events_api.External.FastApi.{HttpRequest, Parsed, malformed, unfit, fields}
use events_api.External.Jwt.{JwtLaws}
use events_api.Infrastructure.Benchmark.{benchmark_token_middleware}
use events_api.Infrastructure.Benchmark.Bypass.{Allowed, passes-Allowed, middleware-flag}
use events_api.App.Routes.{
  Endpoint, register, login, token, refresh, logout, change_password, add_events, dau, top_events,
  retention, root, found, dispatch,
}
use events_api.App.Endpoints.{
  Parts, Fields, Payload, Caller, caller, validate, is_limited, has_session, required_user,
}
use events_api.App.Handlers.{
  AppAnswer, Backend, limited, app_router, solved, passed, fitting, known, close_after,
}
use events_api.App.Pipeline.{Routed, answered}

module _ (p : Parts) (bearer : HttpRequest → Option p.services.jwt.Token)
    (parse : (e : Endpoint) → List String → HttpRequest → Parsed (Fields p e)) where
  -- The request has a bearer token that identifies a user.
  abbrev pub Identified : HttpRequest → Backend p → Type 0
  Identified r b =
      (bearer_token : p.services.jwt.Token) × (u : User) × (bearer r ≡ some bearer_token)
      × ((get_current_user p.services (some bearer_token) b.world).0 ≡ ok u)

  -- what a route requires of a request that it answers
  abbrev pub Admitted : Endpoint → HttpRequest → Backend p → Type 0
  Admitted logout r b = Identified r b
  Admitted change_password r b = Identified r b
  Admitted dau r b =
      Allowed p.services.settings.benchmark_token r.path r.authorization ⊎ Identified r b
  Admitted top_events r b = Identified r b
  Admitted retention r b = Identified r b
  Admitted e r b = Unit

  close-answered :
      (has : Bool) (x : Routed (AppAnswer p) × Backend p) → (close_after p has x).0 ≡ x.0
  close-answered true (x, b) = refl
  close-answered false (x, b) = refl

  HasCaller : Endpoint → Bool → HttpRequest → Backend p → Type 0
  HasCaller e is_benchmark r b =
      (u : Caller p e) × ((caller p e is_benchmark (bearer r) b.world).0 ≡ ok u)

  known-ok :
      (e : Endpoint) (payload : Option (Payload p e)) (c : Result (Caller p e)) (b : Backend p)
      (s : ℕ) (a : AppAnswer p)
      → (known p e payload c b).0 ≡ answered s a
      → (u : Caller p e) × (c ≡ ok u)
  known-ok e payload (ok u) b s a h = (u, refl)
  known-ok e payload (raise x) b s a h = ground arith

  solved-HasCaller :
      (e : Endpoint) (payload : Option (Payload p e)) (is_benchmark : Bool) (r : HttpRequest)
      (b : Backend p) (s : ℕ) (a : AppAnswer p)
      → (solved p bearer parse e payload is_benchmark r b).0 ≡ answered s a
      → HasCaller e is_benchmark r b
  unfolding HasCaller
  solved-HasCaller e payload is_benchmark r b s a h =
      known-ok e payload _ _ s a (sym (close-answered (has_session e) _) ∙ h)

  passed-HasCaller :
      (e : Endpoint) (payload : Option (Payload p e)) (is_benchmark : Bool) (r : HttpRequest)
      (b : Backend p) (admitted : Bool × p.limiter.State) (s : ℕ) (a : AppAnswer p)
      → (passed p bearer parse e payload is_benchmark r admitted b).0 ≡ answered s a
      → HasCaller e is_benchmark r b
  unfolding HasCaller
  passed-HasCaller e payload is_benchmark r b (false, l) s a h = ground arith
  passed-HasCaller e payload is_benchmark r b (true, l) s a h =
      solved-HasCaller e payload is_benchmark r (record b { limits = l }) s a h

  limited-HasCaller :
      (e : Endpoint) (payload : Option (Payload p e)) (is_benchmark : Bool) (r : HttpRequest)
      (b : Backend p) (s : ℕ) (a : AppAnswer p)
      → (limited p bearer parse e payload is_benchmark r b).0 ≡ answered s a
      → HasCaller e is_benchmark r b
  unfolding limited
  limited-HasCaller e payload is_benchmark r b s a h = elim (Bool-cases (is_limited e)) [
    | inl has ↦ passed-HasCaller e payload is_benchmark r b _ s a (rw has at h)
    | inr no_limit ↦ solved-HasCaller e payload is_benchmark r b s a (rw no_limit at h)
  ]

  fitting-HasCaller :
      (e : Endpoint) (is_benchmark : Bool) (r : HttpRequest) (sent : Parsed (Fields p e))
      (b : Backend p) (s : ℕ) (a : AppAnswer p)
      → (fitting p bearer parse e is_benchmark r sent b).0 ≡ answered s a
      → HasCaller e is_benchmark r b
  fitting-HasCaller e is_benchmark r malformed b s a h = ground arith
  fitting-HasCaller e is_benchmark r unfit b s a h = limited-HasCaller e none is_benchmark r b s a h
  fitting-HasCaller e is_benchmark r (fields sent) b s a h =
      limited-HasCaller e (validate p e sent) is_benchmark r b s a h

  required-Identified :
      (r : HttpRequest) (b : Backend p) (t : Option p.services.jwt.Token) (u : User)
      → bearer r ≡ t
      → (required_user p t b.world).0 ≡ ok u
      → Identified r b
  required-Identified r b none u e h = ground arith
  required-Identified r b (some bearer_token) u e h = (bearer_token, u, e, h)

  -- what the middleware sets for a request
  abbrev flag : HttpRequest → Bool
  flag r =
      benchmark_token_middleware p.services.settings.benchmark_token r.path r.authorization
        (λ is_benchmark. is_benchmark)

  -- `get_current_user` finds nobody without a token
  current_user-Identified :
      (tokens : JwtLaws p.services.jwt) (r : HttpRequest) (b : Backend p)
      (t : Option p.services.jwt.Token) (u : User)
      → bearer r ≡ t
      → (get_current_user p.services t b.world).0 ≡ ok u
      → Identified r b
  current_user-Identified tokens r b none u e h =
      let (x, fails) = get_current_user-none p.services tokens b.world in
      ground (arith, rw fails at h)
  current_user-Identified tokens r b (some bearer_token) u e h = (bearer_token, u, e, h)

  dau-Admitted :
      (tokens : JwtLaws p.services.jwt) (is_benchmark : Bool) (r : HttpRequest) (b : Backend p)
      (u : CurrentUser)
      → flag r ≡ is_benchmark
      → (benchmark_or_auth p.services is_benchmark (bearer r) b.world).0 ≡ ok u
      → Admitted dau r b
  unfolding benchmark_or_auth
  dau-Admitted tokens true r b u set h = inl (passes-Allowed _ r.path r.authorization set)
  dau-Admitted tokens false r b u set h =
      elim (Result-cases (get_current_user p.services (bearer r) b.world).0) [
        | inr (user, identified) ↦
            inr (current_user-Identified tokens r b (bearer r) user refl identified)
        | inl (x, is_raise) ↦ ground (arith, rw is_raise at h)
      ]

  caller-Admitted :
      (tokens : JwtLaws p.services.jwt) (e : Endpoint) (r : HttpRequest) (b : Backend p)
      → HasCaller e (flag r) r b
      → Admitted e r b
  unfolding HasCaller
  caller-Admitted tokens logout r b (u, h) = required-Identified r b _ u refl h
  caller-Admitted tokens change_password r b (u, h) = required-Identified r b _ u refl h
  caller-Admitted tokens top_events r b (u, h) = required-Identified r b _ u refl h
  caller-Admitted tokens retention r b (u, h) = required-Identified r b _ u refl h
  caller-Admitted tokens dau r b (u, h) = dau-Admitted tokens (flag r) r b u refl h
  caller-Admitted tokens register r b h = tt
  caller-Admitted tokens login r b h = tt
  caller-Admitted tokens token r b h = tt
  caller-Admitted tokens refresh r b h = tt
  caller-Admitted tokens add_events r b h = tt
  caller-Admitted tokens root r b h = tt

  -- The routes that have a current user answer only requests of users: a request that, behind the
  -- middleware of the benchmark token, `POST /auth/{user_id}/logout`, `POST
  -- /auth/{user_id}/change-password`, `GET /stats/top-events` or `GET /stats/retention` answers,
  -- with any value, has a bearer token from which `get_current_user` finds a user; and one that
  -- `GET /stats/dau` answers has such a token, or is for a path under "/stats" with the token of
  -- BENCHMARK_TOKEN, which is set and not empty.
  pub app_router-Admitted :
      (tokens : JwtLaws p.services.jwt) (r : HttpRequest) (b : Backend p) (e : Endpoint)
      (ids : List String) (s : ℕ) (a : AppAnswer p)
      → dispatch p.routing p.services.settings.api_prefix r.method r.path ≡ found e ids
      → (benchmark_token_middleware p.services.settings.benchmark_token r.path r.authorization
          (λ is_benchmark. app_router p bearer parse is_benchmark r b)).0
        ≡ answered s a
      → Admitted e r b
  unfolding app_router
  app_router-Admitted tokens r b e ids s a way h = caller-Admitted tokens e r b (
      fitting-HasCaller e (flag r) r (parse e ids r) b s a (
        rw way at (
          rw
            (middleware-flag p.services.settings.benchmark_token r.path r.authorization
              (λ is_benchmark. app_router p bearer parse is_benchmark r b))
            at h)))
