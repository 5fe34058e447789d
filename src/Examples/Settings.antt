-- ===== src/Examples/Settings.antt =====
-- Settings: URLs of the database, origins for CORS, and the wait for an API that comes up.
use events_api.Common.{
  String, ◌≡◌, ◌≢◌, refl, true, false, not, ◌&&◌, ◌==◌, none, [], ◌∷◌, elem, ltb, arith,
  if◌then◌else◌,
}
use events_api.Common.Result.{Result, ok, raise, value_error, other_error}
use events_api.Common.Text.{any_char, is_space, strip, lstrip, rstrip}
use events_api.Common.Split.{after_prefix, has_char}
use events_api.Config.{Settings, default_settings}
use events_api.Common.Split.{split_all}
use events_api.Config.Cors.{raw, items, stripped, parse_cors_origins, allowed_origins}
use events_api.Config.Cors.Origins.{allowed_origins-Clean, parse_cors_origins-join}
use events_api.Migrations.Env.{resolve_urls, run_migrations, script, database}
use events_api.Migrations.Env.Urls.{percent, run_migrations-own_url}
use events_api.Benchmarks.{Api, wait_for_api}
use events_api.Benchmarks.Waiting.{wait_for_api-finds}
use events_api.Samples.PlainJson.{plain_json}
use events_api.External.Json.{Json}

abbrev no_text : Json → String
no_text j = "?"

allowed_origins-Clean_example :
    ((o : String)
      → elem o ("*" ∷ "http://a.com" ∷ []) ≡ true
      → (strip o ≡ o) × ◌≢◌ {A = String} o "")
    × ((o : String)
        → elem o (allowed_origins true ("*" ∷ "http://a.com" ∷ []))
          ≡ (elem o ("*" ∷ "http://a.com" ∷ []) && not (o == "*")))
unfolding parse_cors_origins strip lstrip rstrip is_space split_all stripped after_prefix
allowed_origins-Clean_example =
    allowed_origins-Clean plain_json.loads no_text (raw " *, http://a.com ,")
      ("*" ∷ "http://a.com" ∷ []) refl

parse_cors_origins-join_example :
    (parse_cors_origins plain_json.loads no_text (raw "http://a.com,http://b.com")
      ≡ ok ("http://a.com" ∷ "http://b.com" ∷ []))
    × (parse_cors_origins plain_json.loads no_text (items ("http://a.com" ∷ "http://b.com" ∷ []))
        ≡ ok ("http://a.com" ∷ "http://b.com" ∷ []))
unfolding any_char is_space after_prefix
parse_cors_origins-join_example =
    parse_cors_origins-join plain_json.loads no_text ("http://a.com" ∷ "http://b.com" ∷ [])
      (refl, refl, refl, (refl, refl, refl, tt)) refl

abbrev served : Settings
served = record (default_settings "/srv") {
  user_db_url = "postgresql+asyncpg://u@h/d";
  postgres_alembic_url = "";
}

-- a configuration that refuses every "%"
abbrev set_plain : String → Result (Unit {0})
set_plain value = if has_char percent value then raise value_error else ok tt

run_migrations-own_url_example :
    (resolve_urls served ≡ ("postgresql+psycopg2://u@h/d", "postgresql+asyncpg://u@h/d"))
    × (run_migrations set_plain false none served ≡ ok (database "postgresql+asyncpg://u@h/d"))
    × (run_migrations set_plain true none served ≡ ok (script "postgresql+psycopg2://u@h/d"))
unfolding any_char
run_migrations-own_url_example =
    run_migrations-own_url set_plain served "u@h/d" (λ value plain. rw plain refl) refl refl refl
      refl

-- an API that refuses connections up to the fifth second and then answers 200
abbrev coming_up : Api
coming_up = record { get = λ t. if ltb t 5000 then raise other_error else ok 200; took = λ t. 2000 }

wait_for_api-finds_example : (wait_for_api coming_up 30 100).0 ≡ ok tt
wait_for_api-finds_example =
    wait_for_api-finds coming_up 2000 30 100 5000 (λ t. omega arith) (λ t h. ground (arith, h))
      (omega arith) (omega arith)
