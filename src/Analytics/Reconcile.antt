-- ===== src/Analytics/Reconcile.antt =====
-- services/analytics/src/netpulse_analytics/orchestration/repository.py: the checks that compare the warehouse with the
-- sources.
pub mod Join
pub mod Daily
pub mod After
pub mod Exact
use local_network_kafka_moni.Base.{
  ℕ, ◌+◌, Bool, true, false, not, ◌&&◌, ◌||◌, List, [], ◌∷◌, ◌++◌, map, Option, none, some, leb,
  ltb, ◌==◌, length, filter, any, nonempty, if◌then◌else◌,
}
use local_network_kafka_moni.Base.Number.{Number}
use local_network_kafka_moni.Base.Grouping.{distinct}
use local_network_kafka_moni.Query.Models.{Text, Date, CursorKey}
use local_network_kafka_moni.Query.Cursor.Format.{same}
use local_network_kafka_moni.Analytics.Models.{DateRange, ReconciliationResult}
use local_network_kafka_moni.Analytics.Sources.{
  Fact, between, same_grain, observations, group_by_grain,
}
use local_network_kafka_moni.Analytics.Warehouse.{
  SourceIncident, FactIncident, Operational, Warehouse,
}
use local_network_kafka_moni.Analytics.Refresh.{bounds_of, available_dates}

-- A row of the left side with its matches, or with NULL.
unfoldable pub pair_with : {X Y : Type 0} → X → List Y → List ((Option X) × (Option Y))
pair_with x [] = (some x, none) ∷ []
pair_with x (y ∷ ys) = map (λ z. (some x, some z)) (y ∷ ys)

-- `FULL OUTER JOIN`: the pairs with equal keys, and the rows of either side without one.
module _ {K X Y : Type 0} (eq : K → K → Bool) (left_key : X → K) (right_key : Y → K) where
  unfoldable pub matches : X → List Y → List Y
  matches x ys = filter (λ y. eq (right_key y) (left_key x)) ys

  unfoldable pub left_rows : List X → List Y → List ((Option X) × (Option Y))
  unfolding matches pair_with
  left_rows [] ys = []
  left_rows (x ∷ xs) ys = pair_with x (matches x ys) ++ left_rows xs ys

  unfoldable pub right_rows : List X → List Y → List ((Option X) × (Option Y))
  right_rows xs [] = []
  right_rows xs (y ∷ ys) =
      let rest = right_rows xs ys in
      if any (λ x. eq (right_key y) (left_key x)) xs then rest else (none, some y) ∷ rest

  unfoldable pub full_join : List X → List Y → List ((Option X) × (Option Y))
  unfolding left_rows right_rows
  full_join xs ys = left_rows xs ys ++ right_rows xs ys

-- `a IS DISTINCT FROM b`
unfoldable pub is_distinct : {A : Type 0} → (A → A → Bool) → Option A → Option A → Bool
is_distinct eq none none = false
is_distinct eq none (some b) = true
is_distinct eq (some a) none = true
is_distinct eq (some a) (some b) = not (eq a b)

-- What the comparison of the incidents looks at.
pub record IncidentSummary : Type 0 where
  pub incident_id : Text
  pub status : Text
  pub state_revision : ℕ
  pub agent_count : ℕ
  pub endpoint_count : ℕ

-- `incident_id IS NULL OR actual_id IS NULL OR status IS DISTINCT FROM actual_status OR ...`
unfoldable pub incident_mismatch : (Option IncidentSummary) × (Option IncidentSummary) → Bool
incident_mismatch (none, actual) = true
incident_mismatch (some expected, none) = true
incident_mismatch (some expected, some actual) =
    not (same expected.status actual.status)
    || (not (expected.state_revision == actual.state_revision)
        || (not (expected.agent_count == actual.agent_count)
            || not (expected.endpoint_count == actual.endpoint_count)))

module _ {R : Type 0} where
  unfoldable pub expected_incident : SourceIncident R → IncidentSummary
  expected_incident ni = record {
    incident_id = ni.row.incident_id;
    status = ni.row.status;
    state_revision = ni.row.state_revision;
    agent_count = length ni.affected_agents;
    endpoint_count = length ni.affected_endpoints;
  }

  unfoldable pub actual_incident : Warehouse R → FactIncident R → IncidentSummary
  actual_incident w fi = record {
    incident_id = fi.incident_id;
    status = fi.status;
    state_revision = fi.state_revision;
    agent_count = length (filter (λ ba. same ba.0 fi.incident_id) w.bridge_agents);
    endpoint_count = length (filter (λ be. same be.0 fi.incident_id) w.bridge_endpoints);
  }

  -- `_INCIDENT_RECONCILIATION_SQL`
  unfoldable pub incident_comparison :
      Operational R → Warehouse R → List ((Option IncidentSummary) × (Option IncidentSummary))
  unfolding expected_incident actual_incident full_join
  incident_comparison source w =
      full_join same (λ row. row.incident_id) (λ row. row.incident_id)
        (map expected_incident source.incidents) (map (actual_incident w) w.fact_incidents)

module _ {R : Type 0} ⦃num : Number R⦄ where
  -- Equality of floats.
  unfoldable pub same_number : R → R → Bool
  same_number a b = num.leb a b && num.leb b a

  -- `date_utc IS NULL OR actual_date IS NULL OR total_count IS DISTINCT FROM actual_total_count OR ...`
  unfoldable pub daily_mismatch : (Option (Fact R)) × (Option (Fact R)) → Bool
  unfolding is_distinct same_number
  daily_mismatch (none, actual) = true
  daily_mismatch (some expected, none) = true
  daily_mismatch (some expected, some actual) =
      not (expected.total_count == actual.total_count)
      || (not (expected.success_count == actual.success_count)
          || (not (expected.failure_count == actual.failure_count)
              || (is_distinct same_number expected.latency_sum_ms actual.latency_sum_ms
                  || (not (expected.latency_count == actual.latency_count)
                      || (is_distinct same_number expected.packet_loss_sum_pct
                            actual.packet_loss_sum_pct
                          || not (expected.packet_loss_count == actual.packet_loss_count))))))

  unfoldable pub expected_daily : Operational R → Date → Date → List (Fact R)
  unfolding group_by_grain observations
  expected_daily source from through =
      group_by_grain (observations from through source.measurements source.checks)

  unfoldable pub actual_daily : Warehouse R → Date → Date → List (Fact R)
  unfolding between
  actual_daily w from through = filter (λ fact. between from through fact.grain.date_utc) w.facts

  -- `_DAILY_RECONCILIATION_SQL`
  unfoldable pub daily_comparison :
      Operational R → Warehouse R → Date → Date → List ((Option (Fact R)) × (Option (Fact R)))
  unfolding expected_daily actual_daily full_join same_grain
  daily_comparison source w from through =
      full_join same_grain (λ fact. fact.grain) (λ fact. fact.grain)
        (expected_daily source from through) (actual_daily w from through)

  unfoldable pub reconcile : Operational R → Warehouse R → DateRange → ReconciliationResult
  unfolding daily_comparison daily_mismatch incident_comparison incident_mismatch
  reconcile source w selected = record {
    daily_source_rows = length (expected_daily source selected.from_date selected.through_date);
    daily_fact_rows = length (actual_daily w selected.from_date selected.through_date);
    daily_mismatch_rows = length (
        filter daily_mismatch (daily_comparison source w selected.from_date selected.through_date));
    source_incidents = length source.incidents;
    fact_incidents = length w.fact_incidents;
    incident_mismatch_rows = length (filter incident_mismatch (incident_comparison source w));
  }

  -- `reconcile_all`, on a given day.
  unfoldable pub reconcile_all : (today : Date) → Operational R → Warehouse R → ReconciliationResult
  unfolding reconcile bounds_of available_dates
  reconcile_all today source w = elim (bounds_of (available_dates source w)) [
    | none ↦ reconcile source w (record { from_date = today; through_date = today })
    | some bounds ↦ reconcile source w (record { from_date = bounds.0; through_date = bounds.1 })
  ]
