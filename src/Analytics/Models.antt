-- ===== src/Analytics/Models.antt =====
-- services/analytics/src/netpulse_analytics/orchestration/models.py: date ranges, the assessment of the sources and the
-- results of the checks. A date is its ordinal, a time counts microseconds.
use local_network_kafka_moni.Base.{
  ℕ, ◌+◌, ◌-◌, String, Bool, true, false, ◌&&◌, Option, none, some, ltb, ◌==◌, if◌then◌else◌,
}

pub record DateRange : Type 0 where
  pub from_date : ℕ
  pub through_date : ℕ

-- The constructor's check, `ValueError("analytics date range must be ordered")`.
unfoldable pub date_range : ℕ → ℕ → Option DateRange
date_range from through =
    if ltb through from then none else some (record { from_date = from; through_date = through })

unfoldable pub day_count : DateRange → ℕ
day_count selected = selected.through_date - selected.from_date + 1

pub data SourceStatus : Type 0 where
  healthy delayed legitimately_empty missing stale invalid : SourceStatus

-- The delay is of a type `R` of numbers.
pub record SourceSnapshot (R : Type 0) : Type 0 where
  pub observation_count : ℕ
  pub relevant_raw_count : ℕ
  pub heartbeat_count : ℕ
  pub invalid_count : ℕ
  pub latest_observation_at : Option ℕ
  pub latest_heartbeat_at : Option ℕ
  pub maximum_ingestion_delay_seconds : Option R

pub record SourceAssessment (R : Type 0) : Type 0 where
  pub status : SourceStatus
  pub snapshot : SourceSnapshot R
  pub reason : String

unfoldable pub may_refresh : SourceStatus → Bool
may_refresh healthy = true
may_refresh delayed = true
may_refresh legitimately_empty = true
may_refresh _ = false

pub record ReconciliationResult : Type 0 where
  pub daily_source_rows : ℕ
  pub daily_fact_rows : ℕ
  pub daily_mismatch_rows : ℕ
  pub source_incidents : ℕ
  pub fact_incidents : ℕ
  pub incident_mismatch_rows : ℕ

-- `ReconciliationResult.valid`
unfoldable pub is_reconciled : ReconciliationResult → Bool
is_reconciled result = (result.daily_mismatch_rows == 0) && (result.incident_mismatch_rows == 0)

pub record ReportingValidation : Type 0 where
  pub reporting_rows : ℕ
  pub duplicate_rows : ℕ
  pub invalid_rows : ℕ
  pub run_matches : Bool

-- `ReportingValidation.valid`
unfoldable pub is_reportable : ReportingValidation → Bool
is_reportable result =
    (result.duplicate_rows == 0) && ((result.invalid_rows == 0) && result.run_matches)
