-- ===== src/Metrics/Rate.antt =====
-- The rate of events while events are recorded and the background task runs, in any order.
use events_api.Common.{ℕ, suc, ◌+◌, ◌≤◌, ◌≡◌, refl, subst, Option, none, some, List, [], ◌∷◌, arith}
use events_api.Metrics.{
  Labels, labels_or_empty, Metrics, record_event, EventRate, update_events_per_second,
}

-- An event is recorded, or the background task runs a round at a time.
pub data Activity : Type 0 where
  records : Option Labels → Activity
  runs : ℕ → Activity

pub record Meters : Type 0 where
  pub metrics : Metrics
  pub rate : EventRate

abbrev pub act : Activity → Meters → Meters
act (records labels) m = record m { metrics = record_event labels m.metrics }
act (runs now) m = record m { rate = update_events_per_second now m.metrics m.rate }

abbrev pub act_all : List Activity → Meters → Meters
act_all [] m = m
act_all (a ∷ acts) m = act_all acts (act a m)

-- as the module is imported
abbrev pub fresh : ℕ → Meters
fresh now = record {
  metrics = record { total_events_seen = 0; events_total = [] };
  rate = record { last_total = 0; last_time = now; events_per_second = [] };
}

abbrev pub recorded : List Activity → ℕ
recorded [] = 0
recorded (records labels ∷ acts) = suc (recorded acts)
recorded (runs now ∷ acts) = recorded acts

-- the events of all the rates that were set
abbrev pub published : List (ℕ × ℕ) → ℕ
published [] = 0
published ((events, time) ∷ rates) = events + published rates

abbrev pub Positive : List (ℕ × ℕ) → Type 0
Positive [] = Unit
Positive ((events, time) ∷ rates) = (1 ≤ time) × Positive rates

-- the events recorded after the last round, where `k` were recorded before the activities
abbrev pub since : ℕ → List Activity → ℕ
since k [] = k
since k (records labels ∷ acts) = since (suc k) acts
since k (runs now ∷ acts) = since 0 acts

-- the labels that the events are recorded with, the latest first, after those of `seen`
abbrev pub labels_of : List Labels → List Activity → List Labels
labels_of seen [] = seen
labels_of seen (records none ∷ acts) = labels_of ([] ∷ seen) acts
labels_of seen (records (some labels) ∷ acts) = labels_of (labels ∷ seen) acts
labels_of seen (runs now ∷ acts) = labels_of seen acts

-- each of them, and once more without labels
abbrev pub with_total : List Labels → List Labels
with_total [] = []
with_total (labels ∷ seen) = [] ∷ labels ∷ with_total seen

-- `n` events are recorded, with the labels `ls`, and `k` of them after the last round. The rates
-- hold the others, each once, and each event is two increments of the counter, one with its labels
-- and one without.
pub record Consistent (n k : ℕ) (ls : List Labels) (m : Meters) : Type 0 where
  pub seen : m.metrics.total_events_seen ≡ n
  pub counted : m.metrics.events_total ≡ with_total ls
  pub rated : published m.rate.events_per_second + k ≡ n
  pub last_total : m.rate.last_total + k ≡ n
  pub positive : Positive m.rate.events_per_second

records-Consistent :
    (n k : ℕ) (ls : List Labels) (labels : Option Labels) (l : Labels) (m : Meters)
    → labels_or_empty labels ≡ l
    → Consistent n k ls m
    → Consistent (suc n) (suc k) (l ∷ ls) (act (records labels) m)
unfolding record_event
records-Consistent n k ls labels l m e c = record {
  seen = omega (arith, c.seen);
  counted = rw (e, c.counted) refl;
  rated = omega (arith, c.rated);
  last_total = omega (arith, c.last_total);
  positive = c.positive;
}

runs-Consistent :
    (n k now : ℕ) (ls : List Labels) (m : Meters)
    → Consistent n k ls m
    → Consistent n 0 ls (act (runs now) m)
unfolding update_events_per_second
runs-Consistent n k now ls m c = record {
  seen = c.seen;
  counted = c.counted;
  rated = omega (arith, c.seen, c.rated, c.last_total);
  last_total = omega (arith, c.seen);
  positive = (ground arith, c.positive);
}

act_all_from :
    (acts : List Activity) (n k total : ℕ) (ls : List Labels) (m : Meters)
    → total ≡ n + recorded acts
    → Consistent n k ls m
    → Consistent total (since k acts) (labels_of ls acts) (act_all acts m)
act_all_from [] n k total ls m e c = subst (λ j. Consistent j k ls m) (omega (arith, e)) c
act_all_from (records none ∷ acts) n k total ls m e c =
    act_all_from acts (suc n) (suc k) total ([] ∷ ls) (act (records none) m) (omega (arith, e))
      (records-Consistent n k ls none [] m refl c)
act_all_from (records (some l) ∷ acts) n k total ls m e c =
    act_all_from acts (suc n) (suc k) total (l ∷ ls) (act (records (some l)) m) (omega (arith, e))
      (records-Consistent n k ls (some l) l m refl c)
act_all_from (runs now ∷ acts) n k total ls m e c =
    act_all_from acts n 0 total ls (act (runs now) m) e (runs-Consistent n k now ls m c)

-- From the import of the module on, whatever events are recorded and rounds of the background task
-- run, in whatever order and at whatever times: all events recorded are seen; the counter of events
-- has two increments for each, one with the labels of that event and one without, in their order;
-- the rates that were set hold as many events together as were recorded before the last round; and
-- no rate divides by zero, also where the clock was set back.
pub act_all-Consistent :
    (start : ℕ) (acts : List Activity)
    → Consistent (recorded acts) (since 0 acts) (labels_of [] acts) (act_all acts (fresh start))
act_all-Consistent start acts =
    act_all_from acts 0 0 (recorded acts) [] (fresh start) (omega arith)
      (record { seen = refl; counted = refl; rated = refl; last_total = refl; positive = tt })
