-- ===== src/Migrations/Env/Urls.antt =====
-- The URLs that the migrations run on, for the databases of the application.
use Prim.Native.Char.{Char}
use Prim.Native.String.{◌++◌}
use text.Mathlib.TextLemmas.{append_assoc}
use events_api.Common.{ℕ, String, ◌≡◌, refl, sym, ap, ◌∙◌, true, false, none}
use events_api.Common.Text.{any_char}
use events_api.Common.Split.{has_char, has_char-append, departs}
use events_api.Common.Replace.{replace, misses, replace-found, replace-misses, replace-none}
use events_api.Common.Result.{Result, ok}
use events_api.Config.{Settings}
use events_api.Migrations.Env.{
  to_sync_url, to_async_url, resolve_urls, run_migrations, script, database,
}

-- the code of "+"
abbrev pub plus : ℕ
plus = 43

replace_start :
    (old new p rest : String)
    → misses old p ≡ true
    → has_char plus old ≡ true
    → has_char plus rest ≡ false
    → replace old new (p ++ rest) ≡ p ++ rest
replace_start old new p rest h g k =
    replace-misses old new p rest h ∙ ap (λ s. p ++ s) (replace-none plus old new rest g k)

replace_head :
    (c : Char) (old new rest : String)
    → has_char plus (String.◌∷◌ c old) ≡ true
    → has_char plus rest ≡ false
    → replace (String.◌∷◌ c old) new (String.◌∷◌ c old ++ rest) ≡ new ++ rest
replace_head c old new rest g k =
    replace-found c old new rest
    ∙ ap (λ s. new ++ s) (replace-none plus (String.◌∷◌ c old) new rest g k)

-- Where no "+" follows the driver: a URL of the drivers asyncpg and pg8003 becomes that of
-- psycopg2, one of psycopg2 stays, and one of aiosqlite becomes one of sqlite with a slash more.
pub to_sync_url-forms :
    (rest : String)
    → has_char plus rest ≡ false
    → (to_sync_url ("postgresql+asyncpg://" ++ rest) ≡ "postgresql+psycopg2://" ++ rest)
      × (to_sync_url ("postgresql+pg8003://" ++ rest) ≡ "postgresql+psycopg2://" ++ rest)
      × (to_sync_url ("postgresql+psycopg2://" ++ rest) ≡ "postgresql+psycopg2://" ++ rest)
      × (to_sync_url ("sqlite+aiosqlite://" ++ rest) ≡ "sqlite:///" ++ rest)
unfolding to_sync_url any_char misses departs
to_sync_url-forms rest h = (
  rw
      (
        replace_head "p" "ostgresql+asyncpg://" "postgresql+psycopg2://" rest refl h,
        replace_start "postgresql+pg8003://" "postgresql+psycopg2://" "postgresql+psycopg2://" rest
            refl refl h,
        replace_start "sqlite+aiosqlite://" "sqlite:///" "postgresql+psycopg2://" rest refl refl h,
      )
      refl,
  rw
      (
        replace_start "postgresql+asyncpg://" "postgresql+psycopg2://" "postgresql+pg8003://" rest
            refl refl h,
        replace_head "p" "ostgresql+pg8003://" "postgresql+psycopg2://" rest refl h,
        replace_start "sqlite+aiosqlite://" "sqlite:///" "postgresql+psycopg2://" rest refl refl h,
      )
      refl,
  rw
      (
        replace_start "postgresql+asyncpg://" "postgresql+psycopg2://" "postgresql+psycopg2://" rest
            refl refl h,
        replace_start "postgresql+pg8003://" "postgresql+psycopg2://" "postgresql+psycopg2://" rest
            refl refl h,
        replace_start "sqlite+aiosqlite://" "sqlite:///" "postgresql+psycopg2://" rest refl refl h,
      )
      refl,
  rw
      (
        replace_start "postgresql+asyncpg://" "postgresql+psycopg2://" "sqlite+aiosqlite://" rest
            refl refl h,
        replace_start "postgresql+pg8003://" "postgresql+psycopg2://" "sqlite+aiosqlite://" rest
            refl refl h,
        replace_head "s" "qlite+aiosqlite://" "sqlite:///" rest refl h,
      )
      refl,
)

-- the drivers psycopg2 and psycopg, replaced by asyncpg
pub to_async_url-psycopg2 :
    (rest : String)
    → has_char plus rest ≡ false
    → to_async_url ("postgresql+psycopg2://" ++ rest) ≡ "postgresql+asyncpg://" ++ rest
unfolding to_async_url any_char misses departs
to_async_url-psycopg2 rest h =
    rw
      (
        append_assoc "postgresql" "+psycopg2://" rest,
        append_assoc "+psycopg2" "://" rest,
        replace-misses "+psycopg2" "+asyncpg" "postgresql" ("+psycopg2" ++ ("://" ++ rest)) refl,
        replace-found "+" "psycopg2" "+asyncpg" ("://" ++ rest),
        replace-none plus "+psycopg2" "+asyncpg" ("://" ++ rest) refl
            (has_char-append plus "://" rest ∙ h),
      )
      (ap (replace "+psycopg" "+asyncpg") joined
        ∙ replace_start "+psycopg" "+asyncpg" "postgresql+asyncpg://" rest refl refl h)
  where
    joined : "postgresql" ++ ("+asyncpg" ++ ("://" ++ rest)) ≡ "postgresql+asyncpg://" ++ rest
    joined =
        ap (λ s. "postgresql" ++ s) (sym (append_assoc "+asyncpg" "://" rest))
        ∙ sym (append_assoc "postgresql" "+asyncpg://" rest)

-- the code of "%"
abbrev pub percent : ℕ
percent = 37

-- Alembic's configuration takes a value without "%", which is the sign of its interpolation.
abbrev pub TakesPlain : (String → Result (Unit {0})) → Type 0
TakesPlain set_main_option =
    (value : String) → has_char percent value ≡ false → set_main_option value ≡ ok tt

pub takes_sync_url :
    (set_main_option : String → Result (Unit {0})) (rest : String)
    → TakesPlain set_main_option
    → has_char percent rest ≡ false
    → set_main_option ("postgresql+psycopg2://" ++ rest) ≡ ok tt
unfolding any_char
takes_sync_url set_main_option rest takes plain =
    takes ("postgresql+psycopg2://" ++ rest)
      (has_char-append percent "postgresql+psycopg2://" rest ∙ plain)

-- Where only the URL of the application is set, no URL is given as an argument, and it is one of
-- asyncpg with neither a "+" nor a "%" after the driver: the configuration takes the URL, and the
-- migrations run online on that URL itself, and offline with the dialect of the same URL for
-- psycopg2.
pub run_migrations-own_url :
    (set_main_option : String → Result (Unit {0})) (s : Settings) (rest : String)
    → TakesPlain set_main_option
    → s.postgres_alembic_url ≡ ""
    → s.user_db_url ≡ "postgresql+asyncpg://" ++ rest
    → has_char plus rest ≡ false
    → has_char percent rest ≡ false
    → (resolve_urls s ≡ ("postgresql+psycopg2://" ++ rest, s.user_db_url))
      × (run_migrations set_main_option false none s ≡ ok (database s.user_db_url))
      × (run_migrations set_main_option true none s
          ≡ ok (script ("postgresql+psycopg2://" ++ rest)))
unfolding resolve_urls run_migrations
run_migrations-own_url set_main_option s rest takes e u h plain =
    let taken = takes_sync_url set_main_option rest takes plain in
    let sync = (to_sync_url-forms rest h).0 in
    let async = to_async_url-psycopg2 rest h in
    (rw (e, u, sync, async) refl, rw (e, u, sync, async, taken) refl, rw (e, u, sync, taken) refl)
