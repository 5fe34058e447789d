-- ===== src/Samples/FewEvents.antt =====
-- Three events, on days of ten instants, and their statistics.
use events_api.Common.{
  ℕ, zero, suc, ◌*◌, ◌/◌, ◌≤◌, ◌≡◌, refl, subst, sym, ap, ◌∙◌, Bool, true, false, ◌&&◌, Option,
  none, some, List, [], ◌∷◌, arith, ltb, leb, eqb, if◌then◌else◌,
}
use events_api.Common.Int.{ℤ, pos}
use events_api.Common.Result.{ok, ok-injective}
use events_api.External.EventStats.{
  EventStats, EventStatsLaws, Segment, property, attribute, count_distinct, users_where, value_at,
  unless_zero, get_first_visit_users,
}

pub record Visit : Type 0 where
  pub user : ℤ
  pub instant : ℕ

abbrev pub visits : List Visit
visits =
    record { user = pos 1; instant = 5 }
    ∷ record { user = pos 2; instant = 12 }
    ∷ record { user = pos 1; instant = 20 }
    ∷ []

abbrev pub visit_user : Visit → ℤ
visit_user v = v.user

abbrev pub day_of : Visit → ℕ
day_of v = v.instant / 10

-- user 1 came first on day 0, and user 2 on day 1
abbrev pub first_day : ℕ → ℤ → Bool
first_day start u = get_first_visit_users visit_user (λ v. v.instant) day_of start visits u

-- every visit is of every segment but that of the property `none`
abbrev pub in_segment : Option Segment → Bool
in_segment none = true
in_segment (some (property k v)) = false
in_segment (some (attribute k v)) = true

unfoldable pub users_on : ℕ → ℕ → Option Segment → ℕ → ℕ
users_on from to segment d = count_distinct (
    users_where visit_user
      (λ v.
        leb (10 * from) v.instant
        && leb v.instant (10 * to)
        && eqb (day_of v) d
        && in_segment segment)
      visits)

abbrev entry_unless_zero : ℕ → ℕ → List (ℕ × ℕ) → List (ℕ × ℕ)
entry_unless_zero d n rows = if eqb n 0 then rows else (d, n) ∷ rows

unfoldable pub days_below : (ℕ → ℕ) → ℕ → List (ℕ × ℕ)
days_below count zero = []
days_below count (suc n) = entry_unless_zero n (count n) (days_below count n)

unfoldable pub cohort_count : ℕ → ℕ
cohort_count start = count_distinct (users_where visit_user (λ v. first_day start v.user) visits)

unfoldable pub week_count : ℕ → ℕ → ℕ → ℕ
week_count start from before = count_distinct (
    users_where visit_user
      (λ v. first_day start v.user && (leb from (day_of v) && ltb (day_of v) before)) visits)

abbrev pub few_events : EventStats
few_events = record {
  State = Unit {0};
  accepts = λ key. true;
  dau = λ from to segment s. ok (days_below (users_on from to segment) 3);
  top = λ limit s. ok [];
  cohort_size = λ start s. ok (cohort_count start);
  week_active = λ start from before s. ok (week_count start from before);
}

pub value_at-days_below :
    (count : ℕ → ℕ) (n d : ℕ)
    → value_at d (days_below count n) ≡ (if ltb d n then unless_zero (count d) else none)
unfolding days_below
value_at-days_below count zero d = ground arith
value_at-days_below count (suc n) d =
    ground (arith, value_at-days_below count n d, λ (e : n ≡ d). ap count e)

pub nobody_later :
    (from to : ℕ) (segment : Option Segment) (d : ℕ) → 3 ≤ d → users_on from to segment d ≡ 0
unfolding users_on count_distinct users_where
nobody_later from to segment d h = ground arith

pub at_midnight : (d i : ℕ) → leb (10 * d) i ≡ leb d (i / 10)
at_midnight d i = ground arith

pub dau_rows :
    (from to : ℕ) (segment : Option Segment) (rows : List (ℕ × ℕ))
    → ok (days_below (users_on from to segment) 3) ≡ ok rows
    → (d : ℕ) → value_at d rows ≡ unless_zero (users_on from to segment d)
dau_rows from to segment rows ran d =
    subst (λ l. value_at d l ≡ unless_zero (users_on from to segment d)) (ok-injective ran)
      (value_at-days_below (users_on from to segment) 3 d ∙ whole)
  where
    whole :
        (if ltb d 3 then unless_zero (users_on from to segment d) else none)
        ≡ unless_zero (users_on from to segment d)
    whole = ground (arith, nobody_later from to segment d)

unfoldable pub few_events_laws : EventStatsLaws few_events
unfolding users_on cohort_count week_count
few_events_laws = record {
  Event = Visit;
  events = λ s. visits;
  user = visit_user;
  instant = λ v. v.instant;
  day = day_of;
  local_day = day_of;
  matches = λ segment v. in_segment segment;
  matches-none = λ v. refl;
  midnight = λ d. 10 * d;
  midnight-day = λ d v. at_midnight d v.instant;
  midnight-after = λ a b h. omega (arith, h);
  dau-rows = λ from to segment s rows ran d. dau_rows from to segment rows ran d;
  cohort-rows = λ start s n ran. sym (ok-injective ran);
  week-rows = λ start from before s n ran. sym (ok-injective ran);
}
