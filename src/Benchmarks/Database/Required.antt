-- ===== src/Benchmarks/Database/Required.antt =====
-- Which failures of a statement end `create_test_database`, and what it has sent when it succeeds.
use events_api.Common.{
  String, ◌≡◌, refl, Bool, true, false, Option, none, some, ◌==◌, if◌then◌else◌, inl, inr,
  Bool-cases,
}
use events_api.Common.Action.{◌>>◌}
use events_api.Common.Result.{runtime_error, Result, ok, raise, ◌>>=◌, Result-cases}
use events_api.Benchmarks.{sync_url}
use events_api.Benchmarks.Database.{
  create_database, grant_connect, grant_usage, Cluster, Log, create_test_database, prepare,
  privileges, raise_from, create_or_alter, attempt, send,
}

module _ (c : Cluster) where
  -- the statement that makes the database, where there is none
  abbrev pub made : String → String → Bool → Result (Unit {0})
  made dbname app_user true = ok tt
  made dbname app_user false = c.execute (create_database dbname app_user)

  -- What has to succeed: the URLs, the two connections, the question whether the database exists,
  -- its creation where it does not, and the grant on the schema.
  abbrev pub required : Option String → String → Result (Unit {0})
  required none async_url = raise runtime_error
  required (some admin_url) async_url =
      if admin_url == ""
      then raise runtime_error
      else (c.make_url (sync_url async_url) >>= λ names. c.connect_admin >>= λ _.
          c.database_exists names.0 >>= λ exists. made names.0 names.1 exists >>= λ _.
          c.connect_database names.0 >>= λ _. c.execute (grant_usage names.1))

  granted :
      (app_user : String) (l : Log) → (privileges c app_user l).0 ≡ c.execute (grant_usage app_user)
  granted app_user l = elim (Result-cases (c.execute (grant_usage app_user))) [
    | inl (e, failed) ↦ rw failed refl
    | inr (u, fine) ↦ rw fine refl
  ]

  prepare-required :
      (dbname app_user : String) (l : Log)
      → (prepare c (dbname, app_user) l).0 ≡ (
          c.connect_admin >>= λ _. c.database_exists dbname >>= λ exists.
          made dbname app_user exists >>= λ _.
          c.connect_database dbname >>= λ _. c.execute (grant_usage app_user))
  prepare-required dbname app_user l = elim (Result-cases c.connect_admin) [
    | inl (e, failed) ↦ rw failed refl
    | inr (u, fine) ↦ rw fine (elim (Result-cases (c.database_exists dbname)) [
      | inl (e, failed) ↦ rw failed refl
      | inr (exists, known) ↦ rw known (after_question exists)
    ])
  ]
    where
      connected :
          (k : Log)
          → (raise_from (c.connect_database dbname) (λ _. privileges c app_user) k).0
            ≡ (c.connect_database dbname >>= λ _. c.execute (grant_usage app_user))
      connected k = elim (Result-cases (c.connect_database dbname)) [
        | inl (e, failed) ↦ rw failed refl
        | inr (u, fine) ↦ rw fine (granted app_user k)
      ]

      after_question :
          (exists : Bool)
          → ((create_or_alter c dbname app_user exists
                >> attempt (send c (grant_connect dbname app_user))
                >> (λ k. raise_from (c.connect_database dbname) (λ _. privileges c app_user) k))
              l).0
            ≡ (made dbname app_user exists >>= λ _.
                c.connect_database dbname >>= λ _. c.execute (grant_usage app_user))
      after_question true = connected _
      after_question false = elim (Result-cases (c.execute (create_database dbname app_user))) [
        | inl (e, failed) ↦ rw failed refl
        | inr (u, fine) ↦ rw fine (connected _)
      ]

  -- The preparation ends as what is required ends, whatever happens to the other statements: the
  -- owners, the right to connect and the default privileges.
  pub create_test_database-required :
      (admin_url : Option String) (async_url : String) (l : Log)
      → (create_test_database c admin_url async_url l).0 ≡ required admin_url async_url
  unfolding create_test_database
  create_test_database-required none async_url l = refl
  create_test_database-required (some admin_url) async_url l = elim (Bool-cases (admin_url == "")) [
    | inl empty ↦ rw empty refl
    | inr given ↦ rw given (elim (Result-cases (c.make_url (sync_url async_url))) [
      | inl (e, failed) ↦ rw failed refl
      | inr ((dbname, app_user), parsed) ↦ rw parsed (prepare-required dbname app_user l)
    ])
  ]
