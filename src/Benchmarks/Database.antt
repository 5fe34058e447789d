-- ===== src/Benchmarks/Database.antt =====
-- src/benchmarks/run_benchmarks.py: `create_test_database`. Each statement is sent once at most and
-- commits by itself.
pub mod Required
use Prim.Native.String.{◌++◌}
use events_api.Common.{
  String, Bool, true, false, Option, none, some, List, [], ◌∷◌, ◌==◌, if◌then◌else◌,
}
use events_api.Common.Action.{Action, ◌>>◌}
use events_api.Common.Result.{Exception, runtime_error, Result, ok, raise}
use events_api.Benchmarks.{sync_url}

pub data Statement : Type 0 where
  -- on the admin's database
  create_database alter_owner grant_connect : String → String → Statement
  -- on the database of the test
  alter_schema grant_usage default_tables default_sequences : String → Statement

-- The cluster from outside: the database and the user that `make_url` finds in a URL, how the
-- admin's connections to its own database and to that of the test are made, whether a database
-- exists, and how a statement ends.
pub record Cluster : Type 0 where
  pub make_url : String → Result (String × String)
  pub connect_admin : Result (Unit {0})
  pub connect_database : String → Result (Unit {0})
  pub database_exists : String → Result Bool
  pub execute : Statement → Result (Unit {0})

-- the statements that were sent, the latest first
abbrev pub Log : Type 0
Log = List Statement

abbrev pub Task : Type 0
Task = Action Log

-- `try: m except Exception: pass`
abbrev pub attempt : Task → Task
attempt m l = (ok tt, (m l).1)

abbrev pub raise_from : {A : Type 0} → Result A → (A → Task) → Task
raise_from (raise e) k l = (raise e, l)
raise_from (ok a) k l = k a l

module _ (c : Cluster) where
  abbrev pub send : Statement → Task
  send statement l = (c.execute statement, statement ∷ l)

  -- `if not exists: … else: …`
  abbrev pub create_or_alter : String → String → Bool → Task
  create_or_alter dbname app_user false = send (create_database dbname app_user)
  create_or_alter dbname app_user true = attempt (send (alter_owner dbname app_user))

  abbrev pub privileges : String → Task
  privileges app_user =
      attempt (send (alter_schema app_user))
      >> send (grant_usage app_user)
      >> attempt (send (default_tables app_user) >> send (default_sequences app_user))

  abbrev pub prepare : String × String → Task
  prepare (dbname, app_user) = raise_from c.connect_admin (λ _.
      raise_from (c.database_exists dbname) (λ exists.
        create_or_alter dbname app_user exists
        >> attempt (send (grant_connect dbname app_user))
        >> (λ l. raise_from (c.connect_database dbname) (λ _. privileges app_user) l)))

  abbrev with_admin : String → Option String → Task
  with_admin async_url none = λ l. (raise runtime_error, l)
  with_admin async_url (some admin_url) =
      if admin_url == ""
      then (λ l. (raise runtime_error, l))
      else raise_from (c.make_url (sync_url async_url)) prepare

  -- `admin_url` is the variable DB_ADMIN_URL.
  unfoldable pub create_test_database : Option String → String → Task
  create_test_database admin_url async_url = with_admin async_url admin_url
