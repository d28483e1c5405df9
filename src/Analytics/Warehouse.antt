-- ===== src/Analytics/Warehouse.antt =====
-- The tables that services/analytics/src/netpulse_analytics/repository.py reads and writes, with the constraints of
-- database/migrations/versions/0005_phase5a_analytics.py: an insertion that violates one fails.
use local_network_kafka_moni.Base.{
  ℕ, ◌+◌, Bool, true, false, not, ◌&&◌, ◌||◌, List, [], ◌∷◌, ◌++◌, map, Option, none, some, leb,
  ltb, ◌==◌, all, if◌then◌else◌,
}
use local_network_kafka_moni.Base.Grouping.{member, unique}
use local_network_kafka_moni.Query.Models.{SourceKind, Text, Date}
use local_network_kafka_moni.Query.Cursor.Format.{same}
use local_network_kafka_moni.Analytics.Sources.{
  Measurement, ServiceCheck, Fact, same_kind, same_grain,
}

-- A row of `agents` or `endpoints`, of `dim_agent` or of `dim_endpoint`: the identifier, the role or type, and the name.
pub record Named : Type 0 where
  pub id : Text
  pub category : Text
  pub display_name : Text

-- A row of `fact_incident`, which has the columns of a row of `network_incidents` but the affected agents and endpoints.
pub record FactIncident (R : Type 0) : Type 0 where
  pub incident_id : Text
  pub start_time : ℕ
  pub end_time : Option ℕ
  pub status : Text
  pub incident_type : Text
  pub severity : Text
  pub confidence_score : R
  pub duration_ms : R
  pub rule_version : Text
  pub state_revision : ℕ

pub record SourceIncident (R : Type 0) : Type 0 where
  pub row : FactIncident R
  pub affected_agents : List Text
  pub affected_endpoints : List Text

pub record JobRun : Type 0 where
  pub run_id : ℕ
  pub from_date : Option Date
  pub through_date : Option Date
  pub is_all : Bool
  pub daily_rows : ℕ
  pub incident_rows : ℕ

-- The tables that the refresh reads, with their rows in the order in which a statement reads them.
pub record Operational (R : Type 0) : Type 0 where
  pub measurements : List (Measurement R)
  pub checks : List (ServiceCheck R)
  pub agents : List Named
  pub endpoints : List Named
  pub incidents : List (SourceIncident R)

-- The tables that it writes; `next_run_id` is the sequence of the identity column.
pub record Warehouse (R : Type 0) : Type 0 where
  pub dim_agent : List Named
  pub dim_endpoint : List Named
  pub dim_date : List Date
  pub dim_probe : List (SourceKind × Text)
  pub facts : List (Fact R)
  pub fact_incidents : List (FactIncident R)
  pub bridge_agents : List (Text × Text)
  pub bridge_endpoints : List (Text × Text)
  pub job_runs : List JobRun
  pub next_run_id : ℕ

-- `INSERT ... SELECT ... ON CONFLICT (id) DO UPDATE`
unfoldable pub upsert : Named → List Named → List Named
upsert new [] = new ∷ []
upsert new (row ∷ rows) = if same row.id new.id then new ∷ rows else row ∷ upsert new rows

unfoldable pub upsert_all : List Named → List Named → List Named
unfolding upsert
upsert_all [] rows = rows
upsert_all (new ∷ news) rows = upsert_all news (upsert new rows)

-- `INSERT ... SELECT ... ON CONFLICT DO NOTHING`
unfoldable pub insert_missing : {A : Type 0} → (A → A → Bool) → List A → List A → List A
insert_missing eq [] rows = rows
insert_missing eq (new ∷ news) rows =
    insert_missing eq news (if member eq new rows then rows else rows ++ new ∷ [])

unfoldable pub same_probe : SourceKind × Text → SourceKind × Text → Bool
unfolding same_kind same
same_probe a b = same_kind a.0 b.0 && same a.1 b.1

unfoldable pub same_pair : Text × Text → Text × Text → Bool
unfolding same
same_pair a b = same a.0 b.0 && same a.1 b.1

abbrev pub same_date : Date → Date → Bool
same_date a b = a == b

-- `(count = 0) = (sum IS NULL)`
unfoldable pub null_when_empty : {R : Type 0} → ℕ → Option R → Bool
null_when_empty count none = count == 0
null_when_empty count (some sum) = not (count == 0)

unfoldable pub ids : List Named → List Text
ids rows = map (λ row. row.id) rows

-- The foreign keys of a bridge, and its primary key.
unfoldable pub bridge_known : List Text → List Text → List (Text × Text) → Bool
unfolding same_pair
bridge_known incidents members pairs =
    all (λ pair. member same pair.0 incidents && member same pair.1 members) pairs
    && unique same_pair pairs

-- `from_date IS NOT NULL AND through_date IS NOT NULL AND from_date <= through_date`
unfoldable pub ordered : Option Date → Option Date → Bool
ordered none through = false
ordered (some from) none = false
ordered (some from) (some through) = leb from through

unfoldable pub absent : Option Date → Bool
absent none = true
absent (some date) = false

-- The CHECK constraint of `analytics_job_runs`.
unfoldable pub run_allowed : JobRun → Bool
unfolding ordered absent
run_allowed run =
    (run.is_all && (absent run.from_date && absent run.through_date))
    || (not run.is_all && ordered run.from_date run.through_date)

module _ {R : Type 0} where
  -- The CHECK constraints of `fact_reliability_daily`.
  unfoldable pub satisfies_checks : Fact R → Bool
  unfolding null_when_empty
  satisfies_checks fact =
      ltb 0 fact.total_count
      && ((fact.success_count + fact.failure_count == fact.total_count)
          && (leb fact.latency_count fact.total_count
              && (leb fact.packet_loss_count fact.total_count
                  && (null_when_empty fact.latency_count fact.latency_sum_ms
                      && null_when_empty fact.packet_loss_count fact.packet_loss_sum_pct))))

  -- The foreign keys of `fact_reliability_daily`.
  unfoldable pub references_known : Warehouse R → Fact R → Bool
  unfolding ids same_probe
  references_known w fact =
      member same_date fact.grain.date_utc w.dim_date
      && (member same fact.grain.agent_id (ids w.dim_agent)
          && (member same fact.grain.endpoint_id (ids w.dim_endpoint)
              && member same_probe (fact.grain.source_kind, fact.grain.probe_type) w.dim_probe))

  unfoldable pub insert_facts : List (Fact R) → Warehouse R → Option (Warehouse R)
  unfolding satisfies_checks references_known
  insert_facts new w =
      if all satisfies_checks new
        && (all (references_known w) new
            && unique same_grain (map (λ fact. fact.grain) (w.facts ++ new)))
      then some (record w { facts = w.facts ++ new })
      else none

  unfoldable pub insert_incidents : List (FactIncident R) → Warehouse R → Option (Warehouse R)
  insert_incidents new w =
      if all (λ row. ltb 0 row.state_revision) new
        && unique same (map (λ row. row.incident_id) (w.fact_incidents ++ new))
      then some (record w { fact_incidents = w.fact_incidents ++ new })
      else none

  abbrev pub incident_ids : Warehouse R → List Text
  incident_ids w = map (λ row. row.incident_id) w.fact_incidents

  unfoldable pub insert_bridge_agents : List (Text × Text) → Warehouse R → Option (Warehouse R)
  unfolding bridge_known ids
  insert_bridge_agents new w =
      if bridge_known (incident_ids w) (ids w.dim_agent) (w.bridge_agents ++ new)
      then some (record w { bridge_agents = w.bridge_agents ++ new })
      else none

  unfoldable pub insert_bridge_endpoints : List (Text × Text) → Warehouse R → Option (Warehouse R)
  unfolding bridge_known ids
  insert_bridge_endpoints new w =
      if bridge_known (incident_ids w) (ids w.dim_endpoint) (w.bridge_endpoints ++ new)
      then some (record w { bridge_endpoints = w.bridge_endpoints ++ new })
      else none

  unfoldable pub insert_run : JobRun → Warehouse R → Option (Warehouse R)
  unfolding run_allowed
  insert_run run w =
      if run_allowed run
      then some (record w { job_runs = w.job_runs ++ run ∷ []; next_run_id = w.next_run_id + 1 })
      else none
