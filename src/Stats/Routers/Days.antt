-- ===== src/Stats/Routers/Days.antt =====
-- What `/dau` answers for a day.
use events_api.Common.{
  ℕ, ◌≤◌, ◌<◌, String, ◌≡◌, refl, ap, ◌∙◌, Bool, false, ◌&&◌, Option, none, some, List, [], ◌∷◌,
  arith, ltb, leb, eqb, ◌==◌, eq_iff, Bool-cases, inl, inr, ltb→lt, if◌then◌else◌,
}
use events_api.Common.Result.{ok}
use events_api.External.EventStats.{
  EventStats, EventStatsLaws, Segment, count_distinct, users_where, value_at, unless_zero,
}
use events_api.Stats.Distinct.{users_where_cong}
use events_api.Metrics.{Metrics, record_event}
use events_api.Stats.Routers.{parse_segment, keyed, get_dau}

-- the value under a key of an answer
abbrev pub entry : String → List (String × ℕ) → Option ℕ
entry k [] = none
entry k ((name, n) ∷ rest) = let found = entry k rest in if name == k then some n else found

entry-keyed :
    (isoformat : ℕ → String)
    → ((a b : ℕ) → isoformat a ≡ isoformat b → a ≡ b)
    → (d : ℕ) (rows : List (ℕ × ℕ)) → entry (isoformat d) (keyed isoformat rows) ≡ value_at d rows
entry-keyed isoformat inj d [] = refl
entry-keyed isoformat inj d ((k, n) ∷ rows) = ground (
  arith,
  entry-keyed isoformat inj d rows,
  eq_iff (isoformat k) (isoformat d),
  inj k d,
  λ (e : k ≡ d). ap isoformat e,
)

module _ (t : EventStats) (L : EventStatsLaws t) (isoformat : ℕ → String)
    (distinct_texts : (a b : ℕ) → isoformat a ≡ isoformat b → a ≡ b) where
  -- how many users have an event of the segment on a day
  abbrev pub active_on : ℕ → Option Segment → t.State → ℕ
  active_on d segment s =
      count_distinct (users_where L.user (λ e. eqb (L.day e) d && L.matches segment e) (L.events s))

  -- how many have one at the first instant of a day
  abbrev pub active_at_midnight : ℕ → Option Segment → t.State → ℕ
  active_at_midnight d segment s = count_distinct (
      users_where L.user
        (λ e. (leb (L.instant e) (L.midnight d) && eqb (L.day e) d) && L.matches segment e)
        (L.events s))

  -- What the answer says of a day.
  abbrev pub expected : ℕ → ℕ → Option Segment → t.State → ℕ → Option ℕ
  expected from to segment s d =
      if ltb d from
      then none
      else if ltb d to
      then unless_zero (active_on d segment s)
      else if eqb d to
      then unless_zero (active_at_midnight d segment s)
      else none

  -- the test of the statement, for a day
  abbrev selected : ℕ → ℕ → Option Segment → ℕ → L.Event → Bool
  selected from to segment d e =
      leb (L.midnight from) (L.instant e)
      && leb (L.instant e) (L.midnight to)
      && eqb (L.day e) d
      && L.matches segment e

  module _ (from to d : ℕ) (segment : Option Segment) (e : L.Event) where
    selected-inside :
        from ≤ d → d < to → selected from to segment d e ≡ (eqb (L.day e) d && L.matches segment e)
    selected-inside h k = ground (arith, L.midnight-day from e, L.midnight-day to e)

    selected-before : d < from → selected from to segment d e ≡ false
    selected-before h = ground (arith, L.midnight-day from e)

    selected-last :
        from ≤ d
        → d ≡ to
        → selected from to segment d e
          ≡ ((leb (L.instant e) (L.midnight d) && eqb (L.day e) d) && L.matches segment e)
    selected-last h k = ground (arith, L.midnight-day from e, k)

    selected-after : to < d → selected from to segment d e ≡ false
    selected-after h = ground (arith, L.midnight-day d e, L.midnight-after to d h)

  none_selected : (es : List L.Event) → count_distinct (users_where L.user (λ e. false) es) ≡ 0
  unfolding count_distinct users_where
  none_selected [] = refl
  none_selected (e ∷ es) = none_selected es

  rows-expected :
      (from to d : ℕ) (segment : Option Segment) (s : t.State)
      → from ≤ to
      → unless_zero (count_distinct (users_where L.user (selected from to segment d) (L.events s)))
        ≡ expected from to segment s d
  rows-expected from to d segment s h = elim (Bool-cases (ltb d from)) [
    | inl before ↦
        rw
          (
            before,
            users_where_cong L.user (selected from to segment d) (λ e. false)
                (λ e. selected-before from to d segment e (ltb→lt _ _ before)) (L.events s),
            none_selected (L.events s),
          )
          refl
    | inr from_on ↦ elim (Bool-cases (ltb d to)) [
      | inl inside ↦
          rw
            (
              from_on,
              inside,
              users_where_cong L.user (selected from to segment d) _
                  (λ e. selected-inside from to d segment e (ground arith) (ltb→lt _ _ inside))
                  (L.events s),
            )
            refl
      | inr to_on ↦ elim (Bool-cases (eqb d to)) [
        | inl last ↦
            rw
              (
                from_on,
                to_on,
                last,
                users_where_cong L.user (selected from to segment d) _
                    (λ e. selected-last from to d segment e (ground arith) (ground arith))
                    (L.events s),
              )
              refl
        | inr after ↦
            rw
              (
                from_on,
                to_on,
                after,
                users_where_cong L.user (selected from to segment d) (λ e. false)
                    (λ e. selected-after from to d segment e (ground arith)) (L.events s),
                none_selected (L.events s),
              )
              refl
      ]
    ]
  ]

  -- A request for days in order whose segment can be read, and whose statement runs, answers and
  -- records one event. Under the text of a day the answer has: nothing before the first day and
  -- after the last one; from the first day to the day before the last, the number of different
  -- users with an event of the segment on that day, and no entry where it is 0; for the last day,
  -- only the users with an event at the very instant at which it begins.
  pub get_dau-days :
      (from to : ℕ) (text : Option String) (segment : Option Segment) (s : t.State) (m : Metrics)
      (rows : List (ℕ × ℕ))
      → from ≤ to
      → parse_segment t.accepts text ≡ ok segment
      → t.dau from to segment s ≡ ok rows
      → (answer : List (String × ℕ)) × (get_dau t isoformat from to text s m
          ≡ (ok answer, record_event (some (("name", "stats_dau") ∷ [])) m))
        × ((d : ℕ) → entry (isoformat d) answer ≡ expected from to segment s d)
  unfolding get_dau
  get_dau-days from to text segment s m rows h parsed ran = (
    keyed isoformat rows,
    rw (not_before, parsed, ran) refl,
    λ d.
        entry-keyed isoformat distinct_texts d rows
        ∙ (L.dau-rows from to segment s rows ran d ∙ rows-expected from to d segment s h),
  )
    where
      not_before : ltb to from ≡ false
      not_before = ground arith
