-- ===== src/Benchmarks/Urls.antt =====
-- The URL that the benchmark hands to Alembic.
use Prim.Native.Char.{Char}
use Prim.Native.String.{◌++◌}
use text.Mathlib.TextLemmas.{cons-append, cons≢nil}
use events_api.Common.{String, ◌≡◌, refl, sym, ap, ◌∙◌, ne→eq-false, true, false, none, ◌==◌}
use events_api.Common.Text.{any_char}
use events_api.Common.Split.{has_char, departs}
use events_api.Common.Replace.{
  replace, misses, contains, replace-found, replace-misses, replace-absent, contains-none,
}
use events_api.Common.Result.{Result, ok}
use events_api.Config.{Settings}
use events_api.Migrations.Env.{resolve_urls, run_migrations, database}
use events_api.Migrations.Env.Urls.{
  plus, percent, TakesPlain, takes_sync_url, to_async_url-psycopg2,
}
use events_api.Benchmarks.{sync_url}

stays :
    (old new p rest : String)
    → misses old p ≡ true
    → contains old rest ≡ false
    → replace old new (p ++ rest) ≡ p ++ rest
stays old new p rest h a =
    replace-misses old new p rest h ∙ ap (λ s. p ++ s) (replace-absent old new rest a)

becomes :
    (c : Char) (old new rest : String)
    → contains (String.◌∷◌ c old) rest ≡ false
    → replace (String.◌∷◌ c old) new (String.◌∷◌ c old ++ rest) ≡ new ++ rest
becomes c old new rest a =
    replace-found c old new rest ∙ ap (λ s. new ++ s) (replace-absent (String.◌∷◌ c old) new rest a)

-- All spellings of a URL of PostgreSQL, with the driver asyncpg, psycopg or psycopg2 or with none,
-- give the same URL, where the rest has no "+" and does not contain "postgresql://".
pub sync_url-spellings :
    (rest : String)
    → has_char plus rest ≡ false
    → contains "postgresql://" rest ≡ false
    → (sync_url ("postgresql+asyncpg://" ++ rest) ≡ "postgresql+psycopg2://" ++ rest)
      × (sync_url ("postgresql+psycopg://" ++ rest) ≡ "postgresql+psycopg2://" ++ rest)
      × (sync_url ("postgresql+psycopg2://" ++ rest) ≡ "postgresql+psycopg2://" ++ rest)
      × (sync_url ("postgresql://" ++ rest) ≡ "postgresql+psycopg2://" ++ rest)
unfolding sync_url any_char misses departs
sync_url-spellings rest h plain =
    let asyncpg = contains-none plus "postgresql+asyncpg://" rest refl h in
    let psycopg = contains-none plus "postgresql+psycopg://" rest refl h in
    let psycopg2 : String = "postgresql+psycopg2://" in
    (
      rw
          (
            becomes "p" "ostgresql+asyncpg://" psycopg2 rest asyncpg,
            stays "postgresql+psycopg://" psycopg2 psycopg2 rest refl psycopg,
            stays "postgresql://" psycopg2 psycopg2 rest refl plain,
          )
          refl,
      rw
          (
            stays "postgresql+asyncpg://" psycopg2 "postgresql+psycopg://" rest refl asyncpg,
            becomes "p" "ostgresql+psycopg://" psycopg2 rest psycopg,
            stays "postgresql://" psycopg2 psycopg2 rest refl plain,
          )
          refl,
      rw
          (
            stays "postgresql+asyncpg://" psycopg2 psycopg2 rest refl asyncpg,
            stays "postgresql+psycopg://" psycopg2 psycopg2 rest refl psycopg,
            stays "postgresql://" psycopg2 psycopg2 rest refl plain,
          )
          refl,
      rw
          (
            stays "postgresql+asyncpg://" psycopg2 "postgresql://" rest refl asyncpg,
            stays "postgresql+psycopg://" psycopg2 "postgresql://" rest refl psycopg,
            becomes "p" "ostgresql://" psycopg2 rest plain,
          )
          refl,
    )

-- With the URL that the benchmark sets, and no URL as an argument, the migrations run online on
-- the database of the application, by its own URL, which is one of asyncpg with no "+", no "%" and
-- not the text "postgresql://" after the driver.
pub run_migrations-benchmark :
    (set_main_option : String → Result (Unit {0})) (s : Settings) (rest : String)
    → TakesPlain set_main_option
    → s.user_db_url ≡ "postgresql+asyncpg://" ++ rest
    → s.postgres_alembic_url ≡ sync_url s.user_db_url
    → has_char plus rest ≡ false
    → has_char percent rest ≡ false
    → contains "postgresql://" rest ≡ false
    → run_migrations set_main_option false none s ≡ ok (database s.user_db_url)
unfolding run_migrations resolve_urls
run_migrations-benchmark set_main_option s rest takes u a h unencoded plain =
    rw
      (
        a,
        u,
        (sync_url-spellings rest h plain).0,
        nonempty,
        to_async_url-psycopg2 rest h,
        takes_sync_url set_main_option rest takes unencoded,
      )
      refl
  where
    nonempty : (("postgresql+psycopg2://" ++ rest) == "") ≡ false
    nonempty = ne→eq-false (λ e. cons≢nil (sym (cons-append "p" "ostgresql+psycopg2://" rest) ∙ e))
