-- ===== src/Migrations/Env.antt =====
-- migrations/env.py: the URLs of the database, and the one that a migration runs on.
pub mod Urls
use events_api.Common.{String, Bool, Option, none, some, ◌==◌, if◌then◌else◌}
use events_api.Common.Replace.{replace}
use events_api.Common.Result.{Result, ok, ◌>>◌}
use events_api.Config.{Settings}

unfoldable pub to_sync_url : String → String
to_sync_url url = replace "sqlite+aiosqlite://" "sqlite:///" (
    replace "postgresql+pg8003://" "postgresql+psycopg2://"
      (replace "postgresql+asyncpg://" "postgresql+psycopg2://" url))

-- `.replace("+psycopg2", "+asyncpg").replace("+psycopg", "+asyncpg")`
unfoldable pub to_async_url : String → String
to_async_url url = replace "+psycopg" "+asyncpg" (replace "+psycopg2" "+asyncpg" url)

-- `a or b`, of two texts
abbrev or_text : String → String → String
or_text a b = if a == "" then b else a

-- the sync URL and the async URL
unfoldable pub resolve_urls : Settings → String × String
resolve_urls s =
    let sync_url = or_text s.postgres_alembic_url (to_sync_url s.user_db_url) in
    (sync_url, to_async_url sync_url)

-- What the migrations run on: a script with the dialect of a URL, or a database.
pub data Target : Type 0 where
  script database : String → Target

-- `url = _get_x_sql_url() or SYNC_URL`
abbrev offline_url : Option String → String → String
offline_url none sync_url = sync_url
offline_url (some x_url) sync_url = or_text x_url sync_url

abbrev online_url : Option String → String → String
online_url none async_url = async_url
online_url (some x_url) async_url = if x_url == "" then async_url else to_async_url x_url

-- `run_migrations_offline` where `context.is_offline_mode()`, and `run_migrations_online`
abbrev run : Bool → Option String → String × String → Target
run is_offline_mode x_url (sync_url, async_url) =
    if is_offline_mode
    then script (offline_url x_url sync_url)
    else database (online_url x_url async_url)

-- The module as it is run: `config.set_main_option("sqlalchemy.url", SYNC_URL)`, which writes a
-- value into Alembic's configuration and may raise, and then the migrations.
unfoldable pub run_migrations :
    (String → Result (Unit {0})) → Bool → Option String → Settings → Result Target
run_migrations set_main_option is_offline_mode x_url s =
    set_main_option (resolve_urls s).0 >> ok (run is_offline_mode x_url (resolve_urls s))
