-- ===== src/Analytics/Quality.antt =====
-- services/analytics/src/netpulse_analytics/orchestration/quality.py, and the snapshot that `load_source_snapshot` of
-- orchestration/repository.py takes for it. Thresholds are natural numbers of microseconds: one that is negative is refused
-- like 0.
pub mod Decision
use local_network_kafka_moni.Base.{
  ℕ, ◌+◌, String, Bool, true, false, not, ◌&&◌, ◌||◌, List, [], ◌∷◌, ◌++◌, map, Option, none, some,
  leb, ltb, ◌==◌, str_eq, length, filter, ◌⊎◌, inl, inr, if◌then◌else◌,
}
use local_network_kafka_moni.Base.Number.{Number, lt, max_of, maximum}
use local_network_kafka_moni.Analytics.Models.{
  DateRange, SourceSnapshot, SourceAssessment, healthy, delayed, legitimately_empty, missing, stale,
  invalid,
}
use local_network_kafka_moni.Analytics.Sources.{start_of}
use local_network_kafka_moni.Analytics.Warehouse.{Operational}

pub record RawEvent : Type 0 where
  pub event_type : String
  pub event_time : ℕ
  pub received_at : ℕ

pub record ProcessingFailure : Type 0 where
  pub source_topic : String
  pub last_failed_at : ℕ

-- The other tables that the snapshot counts.
pub record Activity : Type 0 where
  pub raw_events : List RawEvent
  pub heartbeats : List ℕ
  pub failures : List ProcessingFailure

-- `event_time >= window_start AND event_time < window_end`
unfoldable pub in_range : DateRange → ℕ → Bool
unfolding start_of
in_range selected t =
    leb (start_of selected.from_date) t && ltb t (start_of (selected.through_date + 1))

unfoldable pub latest_from : ℕ → List ℕ → ℕ
latest_from high [] = high
latest_from high (t ∷ ts) = latest_from (if leb t high then high else t) ts

-- `MAX` of times.
unfoldable pub latest : List ℕ → Option ℕ
unfolding latest_from
latest [] = none
latest (t ∷ ts) = some (latest_from t ts)

unfoldable pub is_relevant : DateRange → RawEvent → Bool
unfolding in_range
is_relevant selected raw =
    (str_eq raw.event_type "network.measurement" || str_eq raw.event_type "network.service_check")
    && in_range selected raw.event_time

unfoldable pub is_relevant_failure : DateRange → ProcessingFailure → Bool
unfolding in_range
is_relevant_failure selected failure =
    (str_eq failure.source_topic "network.measurements.raw.v1"
      || str_eq failure.source_topic "network.service-checks.raw.v1")
    && in_range selected failure.last_failed_at

-- The times of the observations in the window.
unfoldable pub observed : {R : Type 0} → DateRange → Operational R → List ℕ
unfolding in_range
observed selected source =
    filter (in_range selected) (map (λ nm. nm.event_time) source.measurements)
    ++ filter (in_range selected) (map (λ sc. sc.event_time) source.checks)

-- What a float is made of: `EXTRACT(EPOCH FROM (received_at - event_time))`, and `timedelta.total_seconds()`.
pub record Seconds (R : Type 0) : Type 0 where
  pub epoch_between : (received_at event_time : ℕ) → R
  pub total_seconds : ℕ → R

-- `latest_heartbeat_at - latest_observation_at > stale_after`
unfoldable pub is_stale : ℕ → ℕ → Option ℕ → Bool
is_stale stale_after observation none = false
is_stale stale_after observation (some heartbeat) = ltb (observation + stale_after) heartbeat

unfoldable pub lacks_heartbeat : {R : Type 0} → SourceSnapshot R → Bool
lacks_heartbeat snapshot = elim snapshot.latest_heartbeat_at [
  | none ↦ ltb 0 snapshot.heartbeat_count
  | some t ↦ false
]

module _ {R : Type 0} ⦃num : Number R⦄ (seconds : Seconds R) where
  unfoldable pub load_source_snapshot : DateRange → Operational R → Activity → SourceSnapshot R
  unfolding observed is_relevant is_relevant_failure latest in_range
  load_source_snapshot selected source activity =
      let relevant_raw = filter (is_relevant selected) activity.raw_events in
      let heartbeats = filter (in_range selected) activity.heartbeats in
      record {
        observation_count = length (observed selected source);
        relevant_raw_count = length relevant_raw;
        heartbeat_count = length heartbeats;
        invalid_count = length (filter (is_relevant_failure selected) activity.failures);
        latest_observation_at = latest (observed selected source);
        latest_heartbeat_at = latest heartbeats;
        maximum_ingestion_delay_seconds = maximum (
            map (λ raw. max_of (num.of_ℕ 0) (seconds.epoch_between raw.received_at raw.event_time))
              relevant_raw);
      }

  unfoldable pub is_delayed : ℕ → Option R → Bool
  is_delayed delay_after none = false
  is_delayed delay_after (some delay) = lt (seconds.total_seconds delay_after) delay

  -- What is decided of a window with observations, whose latest one is given.
  unfoldable pub assess_observed :
      SourceSnapshot R → ℕ → ℕ → Option ℕ → (SourceAssessment R) ⊎ String
  unfolding is_stale is_delayed lacks_heartbeat
  assess_observed snapshot stale_after delay_after none =
      inr "positive source counts require corresponding timestamps"
  assess_observed snapshot stale_after delay_after (some observation) =
      if lacks_heartbeat snapshot
      then inr "positive source counts require corresponding timestamps"
      else if is_stale stale_after observation snapshot.latest_heartbeat_at
      then inl (record {
        status = stale;
        snapshot = snapshot;
        reason = "agent activity continued after probe observations became stale";
      })
      else if is_delayed delay_after snapshot.maximum_ingestion_delay_seconds
      then inl (record {
        status = delayed;
        snapshot = snapshot;
        reason = "observations arrived after the configured ingestion grace";
      })
      else inl (record {
        status = healthy;
        snapshot = snapshot;
        reason = "source observations are current";
      })

  -- The assessment, or the message of the `ValueError`.
  unfoldable pub assess_source_quality :
      SourceSnapshot R → (stale_after delay_after : ℕ) → (SourceAssessment R) ⊎ String
  unfolding assess_observed
  assess_source_quality snapshot stale_after delay_after =
      if (stale_after == 0) || (delay_after == 0)
      then inr "quality thresholds must be positive"
      else if not (snapshot.invalid_count == 0)
      then inl (record {
        status = invalid;
        snapshot = snapshot;
        reason = "invalid source records exist";
      })
      else if snapshot.observation_count == 0
      then if not (snapshot.relevant_raw_count == 0) || not (snapshot.heartbeat_count == 0)
        then inl (record {
          status = missing;
          snapshot = snapshot;
          reason = "upstream activity exists without typed probe observations";
        })
        else inl (record {
          status = legitimately_empty;
          snapshot = snapshot;
          reason = "no upstream activity exists in the requested window";
        })
      else assess_observed snapshot stale_after delay_after snapshot.latest_observation_at
