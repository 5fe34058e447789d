-- ===== src/Metrics.antt =====
-- src/infrastructure/metrics.py: the counters of domain events and of requests, and the rate of
-- events. A counter of aioprometheus is the sequence of label sets that its `inc` was called with,
-- a histogram that of what it observed, and a gauge that of its values, the latest first. Times
-- are nanoseconds.
pub mod Rate
use events_api.Common.{ℕ, ◌+◌, ◌-◌, String, Option, none, some, List, [], ◌∷◌, ltb, if◌then◌else◌}
use events_api.Common.Result.{Result, ok, raise}

abbrev pub Labels : Type 0
Labels = List (String × String)

pub record Metrics : Type 0 where
  pub total_events_seen : ℕ
  pub events_total : List Labels

abbrev pub labels_or_empty : Option Labels → Labels
labels_or_empty none = []
labels_or_empty (some l) = l

unfoldable pub record_event : Option Labels → Metrics → Metrics
record_event labels m = record {
  total_events_seen = m.total_events_seen + 1;
  events_total = [] ∷ labels_or_empty labels ∷ m.events_total;
}

-- `_last_total`, `_last_time` and the gauge `events_per_second`: a rate is the events and the
-- nanoseconds whose quotient is set.
pub record EventRate : Type 0 where
  pub last_total : ℕ
  pub last_time : ℕ
  pub events_per_second : List (ℕ × ℕ)

-- `max(now_time - _last_time, 1e-9)`; the clock may have been set back
abbrev pub elapsed : ℕ → ℕ → ℕ
elapsed now last = if ltb (now - last) 1 then 1 else now - last

-- a round of `_update_events_per_second`
unfoldable pub update_events_per_second : ℕ → Metrics → EventRate → EventRate
update_events_per_second now m r = record {
  last_total = m.total_events_seen;
  last_time = now;
  events_per_second =
      (m.total_events_seen - r.last_total, elapsed now r.last_time) ∷ r.events_per_second;
}

pub record HttpMetrics : Type 0 where
  pub requests_total : List Labels
  pub request_durations : List (Labels × ℕ)

abbrev pub observe_answer {ℓ} :
    {A W : Type ℓ} → Labels → ℕ → Result A × (HttpMetrics × W) → Result A × (HttpMetrics × W)
observe_answer labels seconds (raise e, (h, w)) = (raise e, (h, w))
observe_answer labels seconds (ok response, (h, w)) = (
  ok response,
  (
    record {
      requests_total = labels ∷ h.requests_total;
      request_durations = (labels, seconds) ∷ h.request_durations;
    },
    w,
  ),
)

abbrev pub request_labels : String → String → Labels
request_labels method path = ("method", method) ∷ ("path", path) ∷ []

-- `call_next` gives the response, or raises, and works on a state besides; `t0` and `t1` are the
-- readings before and after it.
unfoldable pub http_metrics_middleware {ℓ} :
    {A W : Type ℓ}
    → String
    → String
    → ℕ
    → ℕ
    → (HttpMetrics × W → Result A × (HttpMetrics × W))
    → HttpMetrics × W
    → Result A × (HttpMetrics × W)
http_metrics_middleware method path t0 t1 call_next s =
    observe_answer (request_labels method path) (t1 - t0) (call_next s)

-- `time_block()` and the function it returns, at the times of the two calls
unfoldable pub time_block : ℕ → ℕ → ℕ
time_block start now = now - start

-- the function that `time_and_record_histogram` returns: the time that it gives and records
unfoldable pub time_and_record_histogram : Option Labels → ℕ → ℕ → HttpMetrics → ℕ × HttpMetrics
unfolding time_block
time_and_record_histogram labels start now h = (
  time_block start now,
  record h {
    request_durations = (labels_or_empty labels, time_block start now) ∷ h.request_durations;
  },
)
