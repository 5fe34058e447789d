-- ===== src/Stats/Utils.antt =====
-- src/endpoint_stats/utils.py: one week of a cohort. A date is its number of days since 0001-01-01.
use events_api.Common.{ℕ, ◌+◌, ◌-◌, ◌*◌, leb, eqb, if◌then◌else◌}
use events_api.Common.Result.{Result, ok, raise, arithmetic_error}
use events_api.External.EventStats.{EventStats}

-- `date.max`, 9999-12-31
abbrev pub date_max : ℕ
date_max = 3652058

-- `day + timedelta(days=n)`, which raises an `OverflowError` past `date.max`
abbrev pub add_days : ℕ → ℕ → Result ℕ
add_days d n = if leb (d + n) date_max then ok (d + n) else raise arithmetic_error

-- `Float` is the type of Python's floats, and `percent a b` is `round((a / b) * 100, 2)` for a `b`
-- that is not 0.
pub record Floats : Type 1 where
  pub Float : Type 0
  pub percent : ℕ → ℕ → Float

-- the entry of a week; `period` holds its first and its last day, which the code writes as one text
pub record Week (F : Type 0) : Type 0 where
  pub period : ℕ × ℕ
  pub week_active_users : ℕ
  pub percent : F
  pub week_num : ℕ

module _ (f : Floats) where
  -- `round((a / b) * 100, 2)`; the division by 0 raises a `ZeroDivisionError`
  abbrev pub percent_of : ℕ → ℕ → Result f.Float
  percent_of a b = if eqb b 0 then raise arithmetic_error else ok (f.percent a b)

module _ (t : EventStats) (f : Floats) where
  infixl 5 ◌>>=◌
  abbrev ◌>>=◌ : {A B : Type 0} → Result A → (A → Result B) → Result B
  ok a >>= k = k a
  raise e >>= k = raise e

  -- the entry with the number of the week, which the caller adds
  unfoldable pub cohort_week_active_count : ℕ → t.State → ℕ → ℕ → Result (Week f.Float)
  cohort_week_active_count start_date s week_num users_count = do
    week_start ← add_days start_date (7 * week_num + 1)
    week_end ← add_days week_start 7
    active ← t.week_active start_date week_start week_end s
    percent ← percent_of f active users_count
    ok (record {
      period = (week_start, week_end - 1);
      week_active_users = active;
      percent = percent;
      week_num = week_num;
    })
