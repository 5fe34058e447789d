-- ===== src/External/EventStats.antt =====
-- The table of events as the statistics read it: the statements of src/endpoint_stats, run by
-- SQLAlchemy over PostgreSQL. A date is its number of days since 0001-01-01 (`date.toordinal()
-- - 1`).
use events_api.Common.{
  ℕ, suc, ◌<◌, String, ◌≡◌, Bool, true, false, ◌&&◌, Option, none, some, List, [], ◌∷◌, ltb, leb,
  eqb, eqb, if◌then◌else◌,
}
use events_api.Common.Int.{ℤ, eq_ℤ}
use events_api.Common.Result.{Result, ok}

-- `Events.properties[key].astext == value`, or `getattr(Events, key) == value`
pub data Segment : Type 0 where
  property attribute : String → String → Segment

abbrev pub elem_ℤ : ℤ → List ℤ → Bool
elem_ℤ x [] = false
elem_ℤ x (y ∷ ys) = if eq_ℤ y x then true else elem_ℤ x ys

-- how many different users a list names
unfoldable pub count_distinct : List ℤ → ℕ
count_distinct [] = 0
count_distinct (x ∷ xs) = let rest = count_distinct xs in if elem_ℤ x xs then rest else suc rest

-- the users of the rows that pass a test
unfoldable pub users_where {ℓ} : {E : Type ℓ} → (E → ℤ) → (E → Bool) → List E → List ℤ
users_where user test [] = []
users_where user test (e ∷ es) =
    let rest = users_where user test es in if test e then user e ∷ rest else rest

abbrev earlier {ℓ} : {E : Type ℓ} → (E → ℕ) → E → Option E → Option E
earlier instant e none = some e
earlier instant e (some first) = if leb (instant e) (instant first) then some e else some first

-- the first event of a user
unfoldable pub first_event {ℓ} : {E : Type ℓ} → (E → ℤ) → (E → ℕ) → ℤ → List E → Option E
first_event user instant u [] = none
first_event user instant u (e ∷ es) =
    let rest = first_event user instant u es in
    if eq_ℤ (user e) u then earlier instant e rest else rest

abbrev is_on {ℓ} : {E : Type ℓ} → (E → ℕ) → ℕ → Option E → Bool
is_on local_day date none = false
is_on local_day date (some e) = eqb (local_day e) date

-- The statement of `get_first_visit_users` of src/endpoint_stats/utils.py: whether it selects a
-- user, the date of whose `min(occurred_at)` in the time zone of the settings is the start date.
unfoldable pub get_first_visit_users {ℓ} :
    {E : Type ℓ} → (E → ℤ) → (E → ℕ) → (E → ℕ) → ℕ → List E → ℤ → Bool
unfolding first_event
get_first_visit_users user instant local_day start_date events u =
    is_on local_day start_date (first_event user instant u events)

abbrev pub value_at : ℕ → List (ℕ × ℕ) → Option ℕ
value_at d [] = none
value_at d ((k, n) ∷ rows) = let rest = value_at d rows in if eqb k d then some n else rest

abbrev pub unless_zero : ℕ → Option ℕ
unless_zero n = if eqb n 0 then none else some n

pub record EventStats : Type 1 where
  pub State : Type 0
  -- whether `statement.where(getattr(Events, key) == value)` is accepted for a key
  pub accepts : String → Bool
  -- the statement of `get_dau`: the days with their numbers of users
  pub dau : ℕ → ℕ → Option Segment → State → Result (List (ℕ × ℕ))
  -- the statement of `get_top_events`, under a limit
  pub top : ℕ → State → Result (List (String × ℕ))
  -- the number of users whose first visit was on a date
  pub cohort_size : ℕ → State → Result ℕ
  -- the number of those users with an event on the dates from the second on and before the third
  pub week_active : ℕ → ℕ → ℕ → State → Result ℕ

-- What the statements mean. `events` are the rows of the table, `at` the instant of a row and
-- `day` its date in the time zone of the session; `local_day` is its date in the time zone of the
-- settings. `midnight d` is the instant that the date `d` stands for where it is compared with an
-- instant.
pub record EventStatsLaws (t : EventStats) : Type 1 where
  pub Event : Type 0
  pub events : t.State → List Event
  pub user : Event → ℤ
  pub instant : Event → ℕ
  pub day : Event → ℕ
  pub local_day : Event → ℕ
  pub matches : Option Segment → Event → Bool
  pub matches-none : (e : Event) → matches none e ≡ true
  pub midnight : ℕ → ℕ
  -- no shift of the clock crosses midnight
  pub midnight-day : (d : ℕ) (e : Event) → leb (midnight d) (instant e) ≡ leb d (day e)
  pub midnight-after : (a b : ℕ) → a < b → midnight a < midnight b
  -- `WHERE occurred_at BETWEEN … GROUP BY date(occurred_at)`, with `count(distinct user_id)`
  pub dau-rows :
      (from to : ℕ) (segment : Option Segment) (s : t.State) (rows : List (ℕ × ℕ))
      → t.dau from to segment s ≡ ok rows
      → (d : ℕ)
      → value_at d rows
        ≡ unless_zero (
            count_distinct (
              users_where user
                (λ e.
                  leb (midnight from) (instant e)
                  && leb (instant e) (midnight to)
                  && eqb (day e) d
                  && matches segment e)
                (events s)))
  pub cohort-rows :
      (start : ℕ) (s : t.State) (n : ℕ)
      → t.cohort_size start s ≡ ok n
      → n
        ≡ count_distinct (
            users_where user
              (λ e. get_first_visit_users user instant local_day start (events s) (user e))
              (events s))
  pub week-rows :
      (start from before : ℕ) (s : t.State) (n : ℕ)
      → t.week_active start from before s ≡ ok n
      → n
        ≡ count_distinct (
            users_where user
              (λ e.
                get_first_visit_users user instant local_day start (events s) (user e)
                && (leb from (local_day e) && ltb (local_day e) before))
              (events s))
