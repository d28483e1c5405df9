-- ===== src/Analytics/Reporting.antt =====
-- database/migrations/versions/0005_phase5a_analytics.py: the view of the daily figures, and its validation in
-- services/analytics/src/netpulse_analytics/orchestration/repository.py.
pub mod Plausible
pub mod Valid
use local_network_kafka_moni.Base.{
  ℕ, ◌+◌, Bool, true, false, not, ◌&&◌, ◌||◌, List, map, Option, none, some, leb, ltb, ◌==◌, length,
  filter, any, if◌then◌else◌,
}
use local_network_kafka_moni.Base.Number.{Number}
use local_network_kafka_moni.Base.Grouping.{distinct}
use local_network_kafka_moni.Query.Models.{Date, DailyReliabilityRow}
use local_network_kafka_moni.Analytics.Models.{DateRange, ReportingValidation}
use local_network_kafka_moni.Analytics.Sources.{Fact, between, same_grain}
use local_network_kafka_moni.Analytics.Warehouse.{Warehouse, JobRun}

-- PostgreSQL's arithmetic in the view: `100.0 * a / b`, and the quotient of a sum by a count.
pub record Quotients (R : Type 0) : Type 0 where
  pub percentage : ℕ → ℕ → R
  pub mean : R → ℕ → R

unfoldable pub same_some_date : Option Date → Date → Bool
same_some_date none date = false
same_some_date (some other) date = other == date

module _ {R : Type 0} where
  -- `sum / NULLIF(count, 0)`
  unfoldable pub mean_of : Quotients R → Option R → ℕ → Option R
  mean_of quotients none count = none
  mean_of quotients (some sum) count = if count == 0 then none else some (quotients.mean sum count)

  -- `v_daily_probe_reliability`
  unfoldable pub view_row : Quotients R → Fact R → DailyReliabilityRow R
  unfolding mean_of
  view_row quotients fact = record {
    key = fact.grain;
    total_count = fact.total_count;
    success_count = fact.success_count;
    failure_count = fact.failure_count;
    success_rate_pct =
        if fact.total_count == 0
        then none
        else some (quotients.percentage fact.success_count fact.total_count);
    latency_count = fact.latency_count;
    latency_sum_ms = fact.latency_sum_ms;
    mean_latency_ms = mean_of quotients fact.latency_sum_ms fact.latency_count;
    packet_loss_count = fact.packet_loss_count;
    packet_loss_sum_pct = fact.packet_loss_sum_pct;
    mean_packet_loss_pct = mean_of quotients fact.packet_loss_sum_pct fact.packet_loss_count;
  }

  unfoldable pub daily_view : Quotients R → Warehouse R → List (DailyReliabilityRow R)
  unfolding view_row
  daily_view quotients w = map (view_row quotients) w.facts

  -- The grains of a `GROUP BY ... HAVING COUNT(*) > 1`.
  unfoldable pub duplicate_grains : List (DailyReliabilityRow R) → ℕ
  unfolding same_grain
  duplicate_grains rows = length (
      filter (λ grain. ltb 1 (length (filter (λ row. same_grain row.key grain) rows)))
        (distinct same_grain (map (λ row. row.key) rows)))

  -- Whether a run of this number has refreshed exactly these dates.
  unfoldable pub run_matches : Warehouse R → DateRange → ℕ → Bool
  unfolding same_some_date
  run_matches w selected run_id =
      any
        (λ run.
          (run.run_id == run_id)
          && (same_some_date run.from_date selected.from_date
              && (same_some_date run.through_date selected.through_date && not run.is_all)))
        w.job_runs

module _ {R : Type 0} ⦃num : Number R⦄ where
  -- `value NOT BETWEEN 0 AND 100` and `value < 0`, which NULL does not satisfy.
  unfoldable pub outside_hundred : Option R → Bool
  outside_hundred none = false
  outside_hundred (some value) = not (num.leb (num.of_ℕ 0) value && num.leb value (num.of_ℕ 100))

  unfoldable pub is_negative : Option R → Bool
  is_negative none = false
  is_negative (some value) = not (num.leb (num.of_ℕ 0) value)

  unfoldable pub is_invalid : DailyReliabilityRow R → Bool
  unfolding outside_hundred is_negative
  is_invalid row =
      not (row.total_count == row.success_count + row.failure_count)
      || (outside_hundred row.success_rate_pct
          || (is_negative row.mean_latency_ms || outside_hundred row.mean_packet_loss_pct))

  unfoldable pub validate_reporting :
      Quotients R → Warehouse R → DateRange → ℕ → ReportingValidation
  unfolding daily_view duplicate_grains run_matches is_invalid between
  validate_reporting quotients w selected run_id =
      let rows =
        filter (λ row. between selected.from_date selected.through_date row.key.date_utc)
          (daily_view quotients w) in
      record {
        reporting_rows = length rows;
        duplicate_rows = duplicate_grains rows;
        invalid_rows = length (filter is_invalid rows);
        run_matches = run_matches w selected run_id;
      }
