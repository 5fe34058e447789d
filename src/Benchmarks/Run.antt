-- ===== src/Benchmarks/Run.antt =====
-- src/benchmarks/run_benchmarks.py: `test_100k_dau`. What it measures and prints is left out.
use Prim.Native.String.{◌++◌}
use events_api.Common.{
  ℕ, String, ◌≡◌, ◌<◌, refl, ap, ◌∙◌, inl, inr, Bool-cases, Option, none, some, [], leb,
  if◌then◌else◌, arith,
}
use events_api.Common.Result.{key_error, other_error, Result, ok, raise, ok-injective}
use events_api.Benchmarks.{Api, sync_url, wait_for_api, resolve_client_host}
use events_api.Benchmarks.Database.{Cluster, create_test_database}
use events_api.Benchmarks.Request.{headers}

-- The processes that it starts: `alembic upgrade head` with POSTGRES_ALEMBIC_URL, and the import of
-- the file of random events.
pub data Command : Type 0 where
  alembic_upgrade : String → Command
  import_events : Command

-- The environment, how the commands end (`check=True` raises where one fails), and the answer to a
-- request with a URL and an authorization.
pub record Surroundings : Type 0 where
  pub user_db_url : Option String
  pub db_admin_url : Option String
  pub cluster : Cluster
  pub run : Command → Result (Unit {0})
  pub api : Api
  pub get : String → Option String → Result ℕ

-- `http://{host}:{port}`
abbrev pub base_url : String → String → String
base_url host port = "http://" ++ (resolve_client_host host ++ (":" ++ port))

-- `r.raise_for_status()`
abbrev pub raise_for_status : ℕ → Result ℕ
raise_for_status status = if leb 400 status then raise other_error else ok status

infixl 5 ◌>>=◌
abbrev ◌>>=◌ : {A B : Type 0} → Result A → (A → Result B) → Result B
raise e >>= f = raise e
ok a >>= f = f a

abbrev variable : Option String → Result String
variable none = raise key_error
variable (some s) = ok s

-- the status of the answer, from a time
unfoldable pub test_100k_dau : Surroundings → String → String → Option String → ℕ → Result ℕ
test_100k_dau s host port token now = variable s.user_db_url >>= λ url.
    (create_test_database s.cluster s.db_admin_url url []).0 >>= λ _.
    s.run (alembic_upgrade (sync_url url)) >>= λ _. s.run import_events >>= λ _.
    (wait_for_api s.api 30 now).0 >>= λ _.
    s.get (base_url host port ++ "/stats/dau") (headers token) >>= λ status. raise_for_status status

-- what a benchmark that reports a status has done
pub record Completed (s : Surroundings) (url host port : String) (token : Option String)
    (now status : ℕ) : Type 0 where
  pub prepared : (create_test_database s.cluster s.db_admin_url url []).0 ≡ ok tt
  pub migrated : s.run (alembic_upgrade (sync_url url)) ≡ ok tt
  pub imported : s.run import_events ≡ ok tt
  pub ready : (wait_for_api s.api 30 now).0 ≡ ok tt
  pub answered : s.get (base_url host port ++ "/stats/dau") (headers token) ≡ ok status
  pub success : status < 400

then-ok :
    {A B : Type 0} (m : Result A) (f : A → Result B) (b : B)
    → (m >>= f) ≡ ok b
    → (a : A) × (m ≡ ok a) × (f a ≡ ok b)
then-ok (ok a) f b h = (a, refl, h)
then-ok (raise e) f b h = cc

status_ok :
    (answered status : ℕ)
    → raise_for_status answered ≡ ok status
    → (answered ≡ status) × (status < 400)
status_ok answered status h = elim (Bool-cases (leb 400 answered)) [
  | inl failed ↦ let bad = rw failed at h in cc
  | inr low ↦ let same = ok-injective (rw low at h) in (same, ground (arith, same, low))
]

-- A benchmark that ends without an exception has made the database, migrated it, imported the file
-- and found the API ready, and the status of its request is that of a success or a redirection.
pub test_100k_dau-Completed :
    (s : Surroundings) (url host port : String) (token : Option String) (now status : ℕ)
    → s.user_db_url ≡ some url
    → test_100k_dau s host port token now ≡ ok status
    → Completed s url host port token now status
unfolding test_100k_dau
test_100k_dau-Completed s url host port token now status there h =
    let (a1, prepared, h1) =
      then-ok (create_test_database s.cluster s.db_admin_url url []).0 _ status (rw there at h) in
    let (a2, migrated, h2) = then-ok _ _ status h1 in
    let (a3, imported, h3) = then-ok _ _ status h2 in
    let (a4, ready, h4) = then-ok _ _ status h3 in
    let (a5, answered, h5) =
      then-ok (s.get (base_url host port ++ "/stats/dau") (headers token)) raise_for_status status
        h4 in
    let (same, low) = status_ok a5 status h5 in
    record {
      prepared = prepared;
      migrated = migrated;
      imported = imported;
      ready = ready;
      answered = answered ∙ ap ok same;
      success = low;
    }
