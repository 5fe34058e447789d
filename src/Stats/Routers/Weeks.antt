-- ===== src/Stats/Routers/Weeks.antt =====
-- What `/retention` answers for the weeks of a cohort.
use events_api.Common.{
  ℕ, zero, suc, ◌+◌, ◌-◌, ◌*◌, ◌/◌, ◌≤◌, ◌<◌, ◌≡◌, ◌≢◌, refl, sym, ap, ◌∙◌, Bool, false, ◌&&◌,
  Option, none, some, List, [], ◌∷◌, arith, ltb, leb, eqb, length, subst,
}
use events_api.Common.Int.{ℤ}
use events_api.Common.Result.{ok}
use events_api.External.EventStats.{
  EventStats, EventStatsLaws, count_distinct, users_where, get_first_visit_users,
}
use events_api.Metrics.{Metrics, record_event}
use events_api.Stats.Utils.{Floats, Week, date_max, add_days, cohort_week_active_count}
use events_api.Stats.Distinct.{count_distinct-subset, elem-users_where, users_where_cong}
use events_api.Stats.Routers.{cohort, weeks_from, cohort_of, get_cohort_analysis}

abbrev pub week_at {ℓ} : {A : Type ℓ} → ℕ → List A → Option A
week_at n [] = none
week_at zero (w ∷ ws) = some w
week_at (suc n) (w ∷ ws) = week_at n ws

-- The day is in the week of this number, of those that begin the day after the start.
abbrev pub in_week : ℕ → ℕ → ℕ → Bool
in_week start k d = ltb start d && eqb ((d - start - 1) / 7) k

in_week-bounds :
    (start k d : ℕ)
    → (leb (start + (7 * k + 1)) d && ltb d (start + (7 * k + 1) + 7)) ≡ in_week start k d
in_week-bounds start k d = ground arith

add_days-ok : (d n : ℕ) → d + n ≤ date_max → add_days d n ≡ ok (d + n)
add_days-ok d n h = ground arith

eqb-zero : (n : ℕ) → n ≢ 0 → eqb n 0 ≡ false
eqb-zero n h = ground arith

module _ (t : EventStats) (L : EventStatsLaws t) (f : Floats) where
  -- The statements of the cohort run.
  pub record Answers (s : t.State) : Type 0 where
    pub cohort_size : (start : ℕ) → (n : ℕ) × (t.cohort_size start s ≡ ok n)
    pub week_active : (start from before : ℕ) → (n : ℕ) × (t.week_active start from before s ≡ ok n)

  abbrev pub first_visit : ℕ → t.State → ℤ → Bool
  first_visit start s = get_first_visit_users L.user L.instant L.local_day start (L.events s)

  -- the users of the cohort, and those with an event in a week
  abbrev pub cohort_users : ℕ → t.State → ℕ
  cohort_users start s =
      count_distinct (users_where L.user (λ e. first_visit start s (L.user e)) (L.events s))

  abbrev pub week_users : ℕ → ℕ → t.State → ℕ
  week_users start k s = count_distinct (
      users_where L.user (λ e. first_visit start s (L.user e) && in_week start k (L.local_day e))
        (L.events s))

  -- The entry of a week.
  pub record Describes (start : ℕ) (s : t.State) (k : ℕ) (w : Week f.Float) : Type 0 where
    pub num : w.week_num ≡ k
    pub period : w.period ≡ (start + (7 * k + 1), start + (7 * k + 7))
    pub active : w.week_active_users ≡ week_users start k s
    pub at_most : w.week_active_users ≤ cohort_users start s
    pub percent : w.percent ≡ f.percent (week_users start k s) (cohort_users start s)

  module _ (start : ℕ) (s : t.State) (size : ℕ) (A : Answers s)
      (counted : t.cohort_size start s ≡ ok size) (some_users : size ≢ 0) where
    active-week :
        (k n : ℕ)
        → t.week_active start (start + (7 * k + 1)) (start + (7 * k + 1) + 7) s ≡ ok n
        → n ≡ week_users start k s
    active-week k n ran =
        L.week-rows start (start + (7 * k + 1)) (start + (7 * k + 1) + 7) s n ran
        ∙ ap count_distinct (
            users_where_cong L.user _ _
              (λ e.
                ap (λ (b : Bool). first_visit start s (L.user e) && b)
                  (in_week-bounds start k (L.local_day e)))
              (L.events s))

    fewer : (k : ℕ) → week_users start k s ≤ cohort_users start s
    fewer k = count_distinct-subset _ _ (
        elem-users_where L.user
          (λ e. first_visit start s (L.user e) && in_week start k (L.local_day e))
          (λ e. first_visit start s (L.user e)) (λ e h. ground (arith, h)) (L.events s))

    week-Describes :
        (k : ℕ)
        → start + (7 * k + 8) ≤ date_max
        → (w : Week f.Float) × (cohort_week_active_count t f start s k size ≡ ok w)
          × Describes start s k w
    unfolding cohort_week_active_count
    week-Describes k h =
        let (n, ran) = A.week_active start (start + (7 * k + 1)) (start + (7 * k + 1) + 7) in
        let active : n ≡ week_users start k s = active-week k n ran in
        let counted_all : size ≡ cohort_users start s = L.cohort-rows start s size counted in
        (
          record {
            period = (start + (7 * k + 1), start + (7 * k + 1) + 7 - 1);
            week_active_users = n;
            percent = f.percent n size;
            week_num = k;
          },
          rw
              (
                add_days-ok start (7 * k + 1) (omega (arith, h)),
                add_days-ok (start + (7 * k + 1)) 7 (omega (arith, h)),
                ran,
                eqb-zero size some_users,
              )
              refl,
          record {
            num = refl;
            period = ap (λ (d : ℕ). (start + (7 * k + 1), d)) (omega arith);
            active = active;
            at_most = rw active (fewer k);
            percent = rw (active, counted_all) refl;
          },
        )

    in_order :
        (week more : ℕ) (w : Week f.Float) (ws : List (Week f.Float))
        → Describes start s week w
        → ((k : ℕ)
            → k < more
            → (v : Week f.Float) × (week_at k ws ≡ some v) × Describes start s (suc week + k) v)
        → (k : ℕ) → k < suc more
        → (v : Week f.Float) × (week_at k (w ∷ ws) ≡ some v) × Describes start s (week + k) v
    in_order week more w ws first rest zero below =
        (w, refl, subst (λ n. Describes start s n w) (omega arith) first)
    in_order week more w ws first rest (suc k) below =
        let (v, there, described) = rest k (omega (arith, below)) in
        (v, there, subst (λ n. Describes start s n v) (omega arith) described)

    weeks_from-Describes :
        (more week : ℕ)
        → start + (7 * (week + more) + 1) ≤ date_max
        → (ws : List (Week f.Float)) × (weeks_from t f start s size week more ≡ ok ws)
          × (length ws ≡ more)
          × ((k : ℕ)
              → k < more
              → (w : Week f.Float) × (week_at k ws ≡ some w) × Describes start s (week + k) w)
    unfolding weeks_from
    weeks_from-Describes zero week h = ([], refl, refl, λ k below. absurd (omega (arith, below)))
    weeks_from-Describes (suc more) week h =
        let (w, made, described) = week-Describes week (omega (arith, h)) in
        let (ws, rest, long, each) = weeks_from-Describes more (suc week) (omega (arith, h)) in
        (w ∷ ws, rw (made, rest) refl, ap suc long, in_order week more w ws described each)

  -- A request for a start that is not in the future, and for a window of at most 52 weeks, on a
  -- table whose statements run, where somebody's first visit was on that date: it is answered,
  -- without an overflow or a division by zero, provided that the calendar goes on for 52 weeks and
  -- a day after today, and one event is recorded. The answer has the size of the cohort and one
  -- entry for each week of the window, in order: its days are the seven that follow those of the
  -- week before, the first being the day after the start; its users are those of the cohort with
  -- an event in that week, never more than the cohort has.
  pub get_cohort_analysis-weeks :
      (today start window : ℕ) (s : t.State) (m : Metrics)
      → Answers s
      → start ≤ today
      → window ≤ 52
      → today + 365 ≤ date_max
      → cohort_users start s ≢ 0
      → (ws : List (Week f.Float)) × (get_cohort_analysis t f today start window s m ≡ (
        ok (cohort start window (cohort_users start s) ws),
        record_event (some (("name", "stats_retention") ∷ [])) m,
      ))
        × (length ws ≡ window)
        × ((k : ℕ)
            → k < window
            → (w : Week f.Float) × (week_at k ws ≡ some w) × Describes start s k w)
  unfolding get_cohort_analysis cohort_of
  get_cohort_analysis-weeks today start window s m A past narrow fits users =
      let (size, counted) = A.cohort_size start in
      let sized : size ≡ cohort_users start s = L.cohort-rows start s size counted in
      let some_users : size ≢ 0 = (λ e. users (sym sized ∙ e)) in
      let (ws, made, long, each) =
        weeks_from-Describes start s size A counted some_users window 0
          (omega (arith, past, narrow, fits)) in
      (
        ws,
        rw (sym sized, not_future, counted, eqb-zero size some_users, made) refl,
        long,
        λ k below.
            let (w, there, described) = each k below in
            (w, there, subst (λ n. Describes start s n w) (omega arith) described),
      )
    where
      not_future : ltb today start ≡ false
      not_future = ground arith
