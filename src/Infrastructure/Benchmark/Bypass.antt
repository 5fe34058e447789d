-- ===== src/Infrastructure/Benchmark/Bypass.antt =====
-- Which requests the middleware lets pass, and what the statistics then take as their user.
use Prim.Native.String.{◌++◌}
use events_api.Common.{
  String, Bool, ◌≡◌, ◌≢◌, ◌⊎◌, refl, sym, ap, subst, ◌∙◌, true, Option, none, some, arith, eq_iff,
  eq_refl, inl, inr, Bool-cases, Option-cases, ne→eq-false,
}
use events_api.Common.Split.{
  starts_with, after_prefix, up_to, departs, after_prefix-departs, after_prefix-append,
  after_prefix_sound,
}
use events_api.Common.Result.{Result, ok}
use events_api.External.Services.{Services}
use events_api.Handler.{World, pure, ◌>>=◌}
use events_api.DataBase.Crud.{
  CurrentUser, benchmark_user, user, benchmark_or_auth, get_current_user,
}
use events_api.Infrastructure.Benchmark.{benchmark_token_middleware, is_test_token}

-- The request is for the statistics and bears the token of the setting, which is not empty.
pub record Allowed (test : Option String) (path : String) (auth : Option String) : Type 0 where
  pub rest : String
  pub path_eq : path ≡ "/stats" ++ rest
  pub header : String
  pub auth_eq : auth ≡ some ("Bearer " ++ header)
  pub test_eq : test ≡ some (up_to "Bearer " header)
  pub nonempty : up_to "Bearer " header ≢ ""

pub Allowed-passes :
    (test : Option String) (path : String) (auth : Option String)
    → Allowed test path auth
    → benchmark_token_middleware test path auth (λ b. b) ≡ true
unfolding benchmark_token_middleware
Allowed-passes test path auth a =
    rw
      (
        a.path_eq,
        a.auth_eq,
        a.test_eq,
        after_prefix-append "/stats" a.rest,
        after_prefix-append "Bearer " a.header,
      )
      (rw (ne→eq-false a.nonempty, eq_refl (up_to "Bearer " a.header)) refl)

is_test-eq : (t token : String) → is_test_token (some t) token ≡ true → (token ≡ t) × (t ≢ "")
is_test-eq t token h =
    ((eq_iff token t).0 (ground (arith, h)), λ e. ground (arith, h, (eq_iff t "").1 e))

pub passes-Allowed :
    (test : Option String) (path : String) (auth : Option String)
    → benchmark_token_middleware test path auth (λ b. b) ≡ true
    → Allowed test path auth
unfolding benchmark_token_middleware
passes-Allowed none path none h = ground arith
passes-Allowed test path none h = ground arith
passes-Allowed none path (some auth) h = ground arith
passes-Allowed (some t) path (some auth) h = elim (Option-cases (after_prefix "/stats" path)) [
  | inl other ↦ ground (arith, other)
  | inr (rest, under) ↦ elim (Option-cases (after_prefix "Bearer " auth)) [
    | inl other ↦ ground (arith, other, under)
    | inr (header, bears) ↦
        let same =
          is_test-eq t (up_to "Bearer " header)
            (subst (λ b. b ≡ true) (flag rest under header bears) h) in
        record {
          rest = rest;
          path_eq = after_prefix_sound "/stats" path rest under;
          header = header;
          auth_eq = ap some (after_prefix_sound "Bearer " auth header bears);
          test_eq = ap some (sym same.0);
          nonempty = λ e. same.1 (sym same.0 ∙ e);
        }
  ]
]
  where
    flag :
        (rest : String)
        → after_prefix "/stats" path ≡ some rest
        → (header : String) → after_prefix "Bearer " auth ≡ some header
        → benchmark_token_middleware (some t) path (some auth) (λ b. b)
          ≡ is_test_token (some t) (up_to "Bearer " header)
    flag rest under header bears = rw (under, bears) refl

-- the middleware hands on whether it lets the request pass
pub middleware-flag {ℓ} :
    {R : Type ℓ} (test : Option String) (path : String) (auth : Option String) (next : Bool → R)
    → benchmark_token_middleware test path auth next
      ≡ next (benchmark_token_middleware test path auth (λ b. b))
unfolding benchmark_token_middleware
middleware-flag test path auth next = elim (Bool-cases (starts_with "/stats" path)) [
  | inl stats ↦ rw stats refl
  | inr others ↦ rw others refl
]

module _ (S : Services) where
  -- a request for the statistics, after the middleware
  abbrev pub asked :
      String → Option String → Option S.jwt.Token → World S → Result CurrentUser × World S
  asked path auth token w =
      benchmark_token_middleware S.settings.benchmark_token path auth
        (λ is_benchmark. benchmark_or_auth S is_benchmark token w)

  asked-flag :
      (path : String) (auth : Option String) (token : Option S.jwt.Token) (w : World S)
      → asked path auth token w
        ≡ benchmark_or_auth S
            (benchmark_token_middleware S.settings.benchmark_token path auth (λ b. b))
            token
            w
  asked-flag path auth token w =
      middleware-flag S.settings.benchmark_token path auth
        (λ is_benchmark. benchmark_or_auth S is_benchmark token w)

  -- A request with the benchmark token, and on a path that begins with "/stats", is answered as the
  -- benchmark user, with the clock, the database and Redis as they were. Every other request is
  -- answered as the user that its access token names, with the errors of that.
  pub asked-exact :
      (path : String) (auth : Option String) (token : Option S.jwt.Token) (w : World S)
      → (Allowed S.settings.benchmark_token path auth
          × (asked path auth token w ≡ (ok benchmark_user, w)))
        ⊎ (¬ Allowed S.settings.benchmark_token path auth
            × (asked path auth token w ≡ (get_current_user S token >>= (λ u. pure (user u))) w))
  unfolding benchmark_or_auth
  asked-exact path auth token w =
      elim (Bool-cases (benchmark_token_middleware S.settings.benchmark_token path auth (λ b. b))) [
        | inl allowed ↦ inl (
          passes-Allowed S.settings.benchmark_token path auth allowed,
          rw (asked-flag path auth token w, allowed) refl,
        )
        | inr refused ↦ inr (
          λ a. ground (arith, refused, Allowed-passes S.settings.benchmark_token path auth a),
          rw (asked-flag path auth token w, refused) refl,
        )
      ]

  -- Where the application is mounted under a prefix that departs from "/stats", as "/api" does,
  -- the benchmark token has no effect on any path: a request is answered as the user that its
  -- access token names.
  pub asked_under_prefix :
      (path : String) (auth : Option String) (token : Option S.jwt.Token) (w : World S)
      → departs "/stats" S.settings.api_prefix ≡ true
      → asked (S.settings.api_prefix ++ path) auth token w
        ≡ (get_current_user S token >>= (λ u. pure (user u))) w
  unfolding benchmark_or_auth benchmark_token_middleware
  asked_under_prefix path auth token w h =
      rw (after_prefix-departs "/stats" S.settings.api_prefix path h) refl
