-- ===== src/Stats/Routers.antt =====
-- src/endpoint_stats/routers.py: the three routes. The current user is only logged.
pub mod Segments
pub mod Days
pub mod Weeks
use events_api.Common.{
  ℕ, zero, suc, ◌≤◌, String, Bool, true, false, not, ◌&&◌, ◌||◌, Option, none, some, List, [], ◌∷◌,
  map, ltb, leb, eqb, ◌==◌, if◌then◌else◌,
}
use events_api.Common.Split.{split_once, after_prefix}
use events_api.Common.Result.{Exception, http_exception, Result, ok, raise, ◌>>=◌}
use events_api.External.EventStats.{EventStats, Segment, property, attribute}
use events_api.Metrics.{Metrics, record_event}
use events_api.Stats.Utils.{Floats, Week, cohort_week_active_count}

abbrev pub invalid_segment : Exception
invalid_segment = http_exception 400 "Invalid segment format"

abbrev segment_of : (String → Bool) → Option (String × String) → Result Segment
segment_of accepts none = raise invalid_segment
segment_of accepts (some (key, value)) = elim (after_prefix "properties." key) [
  | some prop_key ↦ ok (property prop_key value)
  | none ↦ if accepts key then ok (attribute key value) else raise invalid_segment
]

abbrev or_else : Option (String × String) → Option (String × String) → Option (String × String)
or_else (some p) q = some p
or_else none q = q

-- the block `if segment:`; any exception in it is a 400
unfoldable pub parse_segment : (String → Bool) → Option String → Result (Option Segment)
parse_segment accepts none = ok none
parse_segment accepts (some segment) =
    if segment == ""
    then ok none
    else segment_of accepts (or_else (split_once b':' segment) (split_once b'=' segment))
      >>= λ parsed. ok (some parsed)

abbrev count_name : String → Metrics → Metrics
count_name name = record_event (some (("name", name) ∷ []))

-- an answer, with one event recorded
abbrev answered : {A B : Type 0} → String → (A → B) → Metrics → Result A → Result B × Metrics
answered name f m (raise e) = (raise e, m)
answered name f m (ok a) = (ok (f a), count_name name m)

-- The entry of a day in an answer: the key is `str(day)`.
abbrev pub keyed : (ℕ → String) → List (ℕ × ℕ) → List (String × ℕ)
keyed isoformat [] = []
keyed isoformat ((day, n) ∷ rows) = (isoformat day, n) ∷ keyed isoformat rows

-- What `/retention` answers: a message where nobody's first visit was on the date.
pub data Retention (F : Type 0) : Type 0 where
  no_users : Retention F
  -- the start, the window, the size of the cohort and its weeks
  cohort : ℕ → ℕ → ℕ → List (Week F) → Retention F

-- a query parameter with `ge` and `le`; pydantic refuses others with 422
unfoldable pub in_bounds : ℕ → ℕ → ℕ → Bool
in_bounds low high n = leb low n && leb n high

module _ (t : EventStats) (isoformat : ℕ → String) where
  run_dau :
      ℕ → ℕ → t.State → Metrics → Result (Option Segment) → Result (List (String × ℕ)) × Metrics
  run_dau from_date to_date s m (raise e) = (raise e, m)
  run_dau from_date to_date s m (ok segment) =
      answered "stats_dau" (keyed isoformat) m (t.dau from_date to_date segment s)

  unfoldable pub get_dau :
      ℕ → ℕ → Option String → t.State → Metrics → Result (List (String × ℕ)) × Metrics
  unfolding run_dau
  get_dau from_date to_date segment s m =
      if ltb to_date from_date
      then (raise (http_exception 400 "'from' date must be earlier than or equal to 'to' date."), m)
      else run_dau from_date to_date s m (parse_segment t.accepts segment)

  unfoldable pub get_top_events : ℕ → t.State → Metrics → Result (List (String × ℕ)) × Metrics
  get_top_events limit s m = answered "top-events" (λ rows. rows) m (t.top limit s)

module _ (t : EventStats) (f : Floats) where
  -- `for week in range(window)`, from a week on
  weeks_from : ℕ → t.State → ℕ → ℕ → ℕ → Result (List (Week f.Float))
  weeks_from start_date s users_count week zero = ok []
  weeks_from start_date s users_count week (suc more) =
      cohort_week_active_count t f start_date s week users_count >>= λ entry.
      weeks_from start_date s users_count (suc week) more >>= λ entries. ok (entry ∷ entries)

  cohort_of : ℕ → ℕ → t.State → Metrics → Result ℕ → Result (Retention f.Float) × Metrics
  unfolding weeks_from
  cohort_of start_date window s m (raise e) = (raise e, m)
  cohort_of start_date window s m (ok users_count) =
      if eqb users_count 0
      then (ok no_users, m)
      else answered "stats_retention" (cohort start_date window users_count) m
          (weeks_from start_date s users_count 0 window)

  -- `today` is `date.today()`
  unfoldable pub get_cohort_analysis :
      ℕ → ℕ → ℕ → t.State → Metrics → Result (Retention f.Float) × Metrics
  unfolding cohort_of
  get_cohort_analysis today start_date window s m =
      if ltb today start_date
      then (raise (http_exception 400 "Start date cannot be in the future."), m)
      else cohort_of start_date window s m (t.cohort_size start_date s)
