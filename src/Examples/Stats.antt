-- ===== src/Examples/Stats.antt =====
-- src/endpoint_stats on three events, and the abstract view of the token cache.
use events_api.Common.{
  ℕ, String, ◌≡◌, refl, Bool, true, none, some, List, [], ◌∷◌, length, ◌<◌, arith,
}
use events_api.Common.Int.{pos}
use events_api.Common.Text.{any_char, str_int}
use events_api.Common.Text.Numbers.{str_int-injective}
use events_api.Common.Split.{after_prefix}
use events_api.Common.Result.{ok}
use events_api.External.EventStats.{
  get_first_visit_users, property, attribute, count_distinct, users_where,
}
use events_api.Metrics.{Metrics, record_event}
use events_api.Stats.Utils.{Floats, Week}
use events_api.Stats.Routers.{parse_segment, get_dau, get_cohort_analysis, cohort}
use events_api.Stats.Routers.Segments.{parse_segment-forms}
use events_api.Stats.Routers.Days.{entry, expected, get_dau-days}
use events_api.Stats.Routers.Weeks.{Describes, week_at, cohort_users, get_cohort_analysis-weeks}
use events_api.Samples.FewEvents.{few_events, few_events_laws, days_below, users_on}

abbrev all_keys : String → Bool
all_keys key = true

parse_segment-forms_example :
    (parse_segment all_keys (some "properties.country=UA") ≡ ok (some (property "country" "UA")))
    × (parse_segment all_keys (some "event_type:purchase")
        ≡ ok (some (attribute "event_type" "purchase")))
    × (parse_segment all_keys (some "properties.country=UA:purchase")
        ≡ ok (some (property "country=UA" "purchase")))
unfolding any_char after_prefix
parse_segment-forms_example =
    parse_segment-forms all_keys "country" "UA" "event_type" "purchase" refl refl refl refl refl
      refl

abbrev no_metrics : Metrics
no_metrics = record { total_events_seen = 0; events_total = [] }

-- the text of a date is that of its number
abbrev date_text : ℕ → String
date_text d = str_int (pos d)

date_text_inj : (a b : ℕ) → date_text a ≡ date_text b → a ≡ b
date_text_inj a b e = let same = str_int-injective (pos a) (pos b) e in cc

get_dau-days_example :
    (answer : List (String × ℕ)) × (get_dau few_events date_text 0 2 none (tt {0}) no_metrics
      ≡ (ok answer, record_event (some (("name", "stats_dau") ∷ [])) no_metrics))
    × ((d : ℕ)
        → entry (date_text d) answer
          ≡ expected few_events few_events_laws date_text date_text_inj 0 2 none tt d)
unfolding parse_segment
get_dau-days_example =
    get_dau-days few_events few_events_laws date_text date_text_inj 0 2 none none tt no_metrics
      (days_below (users_on 0 2 none) 3) (omega arith) refl refl

abbrev pairs : Floats
pairs = record { Float = ℕ × ℕ; percent = λ a b. (a, b) }

get_cohort_analysis-weeks_example :
    (ws : List (Week pairs.Float)) × (get_cohort_analysis few_events pairs 700000 0 4 tt no_metrics
      ≡ (
        ok (cohort 0 4 (cohort_users few_events few_events_laws pairs 0 tt) ws),
        record_event (some (("name", "stats_retention") ∷ [])) no_metrics,
      ))
    × (length ws ≡ 4)
    × ((k : ℕ)
        → k < 4
        → (w : Week pairs.Float) × (week_at k ws ≡ some w)
          × Describes few_events few_events_laws pairs 0 tt k w)
unfolding few_events_laws count_distinct users_where get_first_visit_users
get_cohort_analysis-weeks_example =
    get_cohort_analysis-weeks few_events few_events_laws pairs 700000 0 4 tt no_metrics
      (record { cohort_size = λ start. (_, refl); week_active = λ start from before. (_, refl) })
      (omega arith) (omega arith) (omega arith) (omega arith)
