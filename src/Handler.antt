-- ===== src/Handler.antt =====
-- A request handler: it may raise, and works on the state of the services. What it did before it
-- raised stays done. Within a handler no key expires on the Redis server and no other handler runs;
-- time passes on the process's clock with each reading.
use events_api.Common.{ℕ, suc, String, Bool, some, [], ◌∷◌, if◌then◌else◌}
use events_api.Common.Result.{Exception, http_exception, Result, ok, raise}
use events_api.External.Services.{Services}
use events_api.Metrics.{Metrics, record_event}

pub record World (S : Services) : Type 0 where
  pub redis : S.redis.State
  pub db : S.db.State
  pub reads : ℕ
  pub draws : ℕ
  pub metrics : Metrics

abbrev pub Handler : Services → Type 0 → Type 0
Handler S A = World S → Result A × World S

module _ {S : Services} where
  abbrev pub pure : {A : Type 0} → A → Handler S A
  pure a w = (ok a, w)

  abbrev pub fail : {A : Type 0} → Exception → Handler S A
  fail e w = (raise e, w)

  abbrev pub lift : {A : Type 0} → Result A → Handler S A
  lift r w = (r, w)

  abbrev proceed : {A B : Type 0} → Result A → (A → Handler S B) → Handler S B
  proceed (ok a) f w = f a w
  proceed (raise e) f w = (raise e, w)

  infixl 5 ◌>>=◌ ◌>>◌
  abbrev pub ◌>>=◌ : {A B : Type 0} → Handler S A → (A → Handler S B) → Handler S B
  ◌>>=◌ m f w = proceed (m w).0 f (m w).1

  abbrev pub ◌>>◌ : {B : Type 0} → Handler S (Unit {0}) → Handler S B → Handler S B
  m >> k = m >>= λ _. k

  abbrev handle : {A : Type 0} → Result A → (Exception → Handler S A) → Handler S A
  handle (ok a) h w = (ok a, w)
  handle (raise e) h w = h e w

  -- `try: m except …: h`, where `h` raises again what it does not handle
  abbrev pub catch : {A : Type 0} → Handler S A → (Exception → Handler S A) → Handler S A
  catch m h w = handle (m w).0 h (m w).1

  -- `raise HTTPException(status_code, detail)`, under a test
  abbrev pub reject_if : Bool → ℕ → String → Handler S (Unit {0})
  reject_if test status detail w =
      if test then (raise (http_exception status detail), w) else (ok tt, w)

  -- `datetime.now(tz=timezone.utc)`
  abbrev pub utc_now : Handler S ℕ
  utc_now w = (ok (S.clock w.reads), record w { reads = suc w.reads })

  -- a text drawn at random
  abbrev pub draw : Handler S String
  draw w = (ok (S.random w.draws), record w { draws = suc w.draws })

  abbrev pub ask_redis : {A : Type 0} → (S.redis.State → A) → Handler S A
  ask_redis f w = (ok (f w.redis), w)

  abbrev pub on_redis : (S.redis.State → S.redis.State) → Handler S (Unit {0})
  on_redis f w = (ok tt, record w { redis = f w.redis })

  abbrev pub ask_db : {A : Type 0} → (S.db.State → A) → Handler S A
  ask_db f w = (ok (f w.db), w)

  abbrev pub on_db : (S.db.State → S.db.State) → Handler S (Unit {0})
  on_db f w = (ok tt, record w { db = f w.db })

  -- `await db.commit()`
  abbrev pub commit : Handler S (Unit {0})
  commit w = ((S.db.commit w.db).0, record w { db = (S.db.commit w.db).1 })

  -- `record_event({"name": name})`
  abbrev pub record_name : String → Handler S (Unit {0})
  record_name name w =
      (ok tt, record w { metrics = record_event (some (("name", name) ∷ [])) w.metrics })
