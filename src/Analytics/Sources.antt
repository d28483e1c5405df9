-- ===== src/Analytics/Sources.antt =====
-- The daily figures as both services/analytics/src/netpulse_analytics/repository.py and orchestration/repository.py select them:
-- the observations of a range of dates, grouped by their grain.
pub mod Grain
pub mod Figures
use local_network_kafka_moni.Base.{
  ℕ, suc, ◌+◌, ◌-◌, ◌*◌, ◌/◌, Bool, true, false, not, ◌&&◌, List, [], ◌∷◌, ◌++◌, map, Option, none,
  some, leb, ltb, ◌==◌, length, filter, if◌then◌else◌,
}
use local_network_kafka_moni.Base.Number.{Number}
use local_network_kafka_moni.Base.Grouping.{distinct}
use local_network_kafka_moni.Query.Models.{
  SourceKind, network_measurement, service_check, Text, Date, CursorKey,
}
use local_network_kafka_moni.Query.Cursor.Format.{same}

-- The columns of the two tables that the analytics read. Latencies and losses are of a type `R`.
pub record Measurement (R : Type 0) : Type 0 where
  pub event_time : ℕ
  pub agent_id : Text
  pub target_id : Text
  pub measurement_type : Text
  pub success : Bool
  pub latency_ms : Option R
  pub packet_loss_pct : Option R

pub record ServiceCheck (R : Type 0) : Type 0 where
  pub event_time : ℕ
  pub agent_id : Text
  pub endpoint_id : Text
  pub check_type : Text
  pub success : Bool
  pub total_duration_ms : Option R

pub record Observation (R : Type 0) : Type 0 where
  pub grain : CursorKey
  pub success : Bool
  pub latency_ms : Option R
  pub packet_loss_pct : Option R

-- A row of `fact_reliability_daily`.
pub record Fact (R : Type 0) : Type 0 where
  pub grain : CursorKey
  pub total_count : ℕ
  pub success_count : ℕ
  pub failure_count : ℕ
  pub latency_sum_ms : Option R
  pub latency_count : ℕ
  pub packet_loss_sum_pct : Option R
  pub packet_loss_count : ℕ

-- The microseconds of a day, and the times since the start of the year 1, whose first date is 1.
abbrev pub day : ℕ
day = 86400000000

-- `(event_time AT TIME ZONE 'UTC')::date`
unfoldable pub date_of : ℕ → Date
date_of event_time = event_time / day + 1

-- `date AT TIME ZONE 'UTC'`
unfoldable pub start_of : Date → ℕ
start_of date = (date - 1) * day

-- `event_time >= from AND event_time < through + 1`
unfoldable pub in_window : Date → Date → ℕ → Bool
unfolding start_of
in_window from through event_time =
    leb (start_of from) event_time && ltb event_time (start_of (through + 1))

-- `date_utc BETWEEN from AND through`
unfoldable pub between : Date → Date → Date → Bool
between from through date = leb from date && leb date through

unfoldable pub same_kind : SourceKind → SourceKind → Bool
same_kind network_measurement network_measurement = true
same_kind service_check service_check = true
same_kind _ _ = false

-- The equality of `GROUP BY` and `USING`.
unfoldable pub same_grain : CursorKey → CursorKey → Bool
unfolding same same_kind
same_grain a b =
    (a.date_utc == b.date_utc)
    && (same a.agent_id b.agent_id
        && (same a.endpoint_id b.endpoint_id
            && (same_kind a.source_kind b.source_kind && same a.probe_type b.probe_type)))

module _ {R : Type 0} where
  unfoldable pub of_measurement : Measurement R → Observation R
  unfolding date_of
  of_measurement nm = record {
    grain = record {
      date_utc = date_of nm.event_time;
      agent_id = nm.agent_id;
      endpoint_id = nm.target_id;
      source_kind = network_measurement;
      probe_type = nm.measurement_type;
    };
    success = nm.success;
    latency_ms = nm.latency_ms;
    packet_loss_pct = nm.packet_loss_pct;
  }

  unfoldable pub of_check : ServiceCheck R → Observation R
  unfolding date_of
  of_check sc = record {
    grain = record {
      date_utc = date_of sc.event_time;
      agent_id = sc.agent_id;
      endpoint_id = sc.endpoint_id;
      source_kind = service_check;
      probe_type = sc.check_type;
    };
    success = sc.success;
    latency_ms = sc.total_duration_ms;
    packet_loss_pct = none;
  }

  -- The common table expression `observations`.
  unfoldable pub observations :
      Date → Date → List (Measurement R) → List (ServiceCheck R) → List (Observation R)
  unfolding in_window of_measurement of_check
  observations from through measurements checks =
      map of_measurement (filter (λ nm. in_window from through nm.event_time) measurements)
      ++ map of_check (filter (λ sc. in_window from through sc.event_time) checks)

  -- The values that are not NULL.
  unfoldable pub present : List (Option R) → List R
  present [] = []
  present (none ∷ values) = present values
  present (some value ∷ values) = value ∷ present values

module _ {R : Type 0} ⦃num : Number R⦄ where
  unfoldable pub add_all : R → List R → R
  add_all sum [] = sum
  add_all sum (value ∷ values) = add_all (num.add sum value) values

  -- `SUM`, which is NULL on no values, over the values in the order in which the statement reads them.
  unfoldable pub sum_of : List R → Option R
  unfolding add_all
  sum_of [] = none
  sum_of (value ∷ values) = some (add_all value values)

  unfoldable pub aggregate : CursorKey → List (Observation R) → Fact R
  unfolding same_grain sum_of present
  aggregate grain rows =
      let members = filter (λ row. same_grain row.grain grain) rows in
      let latencies = present (map (λ row. row.latency_ms) members) in
      let losses = present (map (λ row. row.packet_loss_pct) members) in
      record {
        grain = grain;
        total_count = length members;
        success_count = length (filter (λ row. row.success) members);
        failure_count = length (filter (λ row. not row.success) members);
        latency_sum_ms = sum_of latencies;
        latency_count = length latencies;
        packet_loss_sum_pct = sum_of losses;
        packet_loss_count = length losses;
      }

  -- `SELECT ... FROM observations GROUP BY ...`
  unfoldable pub group_by_grain : List (Observation R) → List (Fact R)
  unfolding aggregate
  group_by_grain rows =
      map (λ grain. aggregate grain rows) (distinct same_grain (map (λ row. row.grain) rows))
