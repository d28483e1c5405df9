-- ===== src/Analytics/Refresh.antt =====
-- services/analytics/src/netpulse_analytics/repository.py: the transaction that brings the warehouse up to date, under an
-- advisory lock. A failed statement raises, and the transaction leaves no trace but the number of the sequence that the
-- record of the run may have taken.
pub mod Lookup
pub mod Dimensions
pub mod References
pub mod Bridges
pub mod Succeeds
pub mod Settled
pub mod Figures
pub mod Bounds
pub mod Everything
use local_network_kafka_moni.Base.{
  ℕ, zero, suc, ◌+◌, ◌-◌, Bool, true, false, not, List, [], ◌∷◌, ◌++◌, map, Option, none, some, leb,
  length, filter, if◌then◌else◌, ◌⊎◌, inl, inr, ◌&&◌,
}
use local_network_kafka_moni.Base.Options.{◌>>=◌}
use local_network_kafka_moni.Base.Number.{Number}
use local_network_kafka_moni.Base.Grouping.{distinct}
use local_network_kafka_moni.Query.Models.{
  SourceKind, network_measurement, service_check, Text, Date,
}
use local_network_kafka_moni.Analytics.Sources.{date_of, between, observations, group_by_grain}
use local_network_kafka_moni.Analytics.Warehouse.{
  SourceIncident, Operational, Warehouse, upsert_all, insert_missing, same_date, same_probe,
  same_pair, insert_facts, insert_incidents, insert_bridge_agents, insert_bridge_endpoints,
  insert_run,
}

-- cli.py: what a refresh is asked for.
pub record DateSelection : Type 0 where
  pub from_date : Option Date
  pub through_date : Option Date
  pub is_all : Bool

pub record RefreshResult : Type 0 where
  pub run_id : ℕ
  pub daily_rows : ℕ
  pub incident_rows : ℕ

pub data RefreshError : Type 0 where
  -- `RuntimeError("analytics refresh already running")`
  already_running : RefreshError
  -- `ValueError("explicit analytics range requires both dates")`
  missing_dates : RefreshError
  -- A constraint of the database.
  violation : RefreshError

pub data Outcome : Type 0 where
  refreshed : RefreshResult → Outcome
  raised : RefreshError → Outcome

-- `MIN` and `MAX` of dates, NULL on none.
unfoldable pub least : Date → List Date → Date
least low [] = low
least low (date ∷ dates) = least (if leb low date then low else date) dates

unfoldable pub greatest : Date → List Date → Date
greatest high [] = high
greatest high (date ∷ dates) = greatest (if leb date high then high else date) dates

unfoldable pub bounds_of : List Date → Option (Date × Date)
unfolding least greatest
bounds_of [] = none
bounds_of (date ∷ dates) = some (least date dates, greatest date dates)

-- `count` days from a date on.
unfoldable pub days_from : Date → ℕ → List Date
days_from date zero = []
days_from date (suc count) = date ∷ days_from (suc date) count

-- `generate_series(from, through, '1 day')`
unfoldable pub generate_series : Date → Date → List Date
unfolding days_from
generate_series from through = days_from from (through + 1 - from)

unfoldable pub members_of : Text → List Text → List (Text × Text)
members_of incident_id [] = []
members_of incident_id (member ∷ members) = (incident_id, member) ∷ members_of incident_id members

module _ {R : Type 0} where
  unfoldable pub probes_of : Operational R → List (SourceKind × Text)
  probes_of source =
      map (λ nm. (network_measurement, nm.measurement_type)) source.measurements
      ++ map (λ sc. (service_check, sc.check_type)) source.checks

  -- The dates of the sources and of the warehouse.
  unfoldable pub available_dates : Operational R → Warehouse R → List Date
  unfolding date_of
  available_dates source w =
      map (λ nm. date_of nm.event_time) source.measurements
      ++ (map (λ sc. date_of sc.event_time) source.checks
          ++ map (λ fact. fact.grain.date_utc) w.facts)

  unfoldable pub refresh_dimensions : Operational R → Warehouse R → Warehouse R
  unfolding upsert_all insert_missing probes_of
  refresh_dimensions source w = record w {
    dim_agent = upsert_all source.agents w.dim_agent;
    dim_endpoint = upsert_all source.endpoints w.dim_endpoint;
    dim_probe = insert_missing same_probe (distinct same_probe (probes_of source)) w.dim_probe;
  }

  -- `SELECT ni.incident_id, member FROM network_incidents ni CROSS JOIN LATERAL jsonb_array_elements_text(...)`
  unfoldable pub pairs_of :
      (SourceIncident R → List Text) → List (SourceIncident R) → List (Text × Text)
  unfolding members_of
  pairs_of affected [] = []
  pairs_of affected (incident ∷ incidents) =
      members_of incident.row.incident_id (affected incident) ++ pairs_of affected incidents

  -- The three `DELETE` statements.
  unfoldable pub clear_incidents : Warehouse R → Warehouse R
  clear_incidents w = record w { fact_incidents = []; bridge_agents = []; bridge_endpoints = [] }

  unfoldable pub refresh_incidents : Operational R → Warehouse R → Option (ℕ × Warehouse R)
  unfolding clear_incidents insert_incidents pairs_of
  refresh_incidents source w = do
    w1 ← insert_incidents (map (λ incident. incident.row) source.incidents) (clear_incidents w)
    w2 ←
        insert_bridge_agents
          (distinct same_pair (pairs_of (λ incident. incident.affected_agents) source.incidents)) w1
    w3 ←
        insert_bridge_endpoints
          (distinct same_pair (pairs_of (λ incident. incident.affected_endpoints) source.incidents))
          w2
    some (length w3.fact_incidents, w3)

  -- `INSERT INTO dim_date`, then `DELETE FROM fact_reliability_daily`.
  unfoldable pub clear_daily : Date → Date → Warehouse R → Warehouse R
  unfolding insert_missing generate_series between
  clear_daily from through w = record w {
    dim_date = insert_missing same_date (generate_series from through) w.dim_date;
    facts = filter (λ fact. not (between from through fact.grain.date_utc)) w.facts;
  }

  unfoldable pub resolve_bounds :
      Operational R → DateSelection → Warehouse R → (Option (Date × Date)) ⊎ RefreshError
  unfolding bounds_of available_dates
  resolve_bounds source selection w =
      if not selection.is_all
      then elim selection.from_date [
        | none ↦ inr missing_dates
        | some from ↦ elim selection.through_date [
          | none ↦ inr missing_dates
          | some through ↦ inl (some (from, through))
        ]
      ]
      else inl (bounds_of (available_dates source w))

  -- The end of the transaction. A rollback does not give back the numbers that it took from the sequence.
  unfoldable pub commit :
      Option (RefreshResult × Warehouse R)
      → (numbers_taken : ℕ) → Warehouse R
      → Outcome × Warehouse R
  commit none taken w = (raised violation, record w { next_run_id = w.next_run_id + taken })
  commit (some result) taken w = (refreshed result.0, result.1)

module _ {R : Type 0} ⦃num : Number R⦄ where
  unfoldable pub refresh_daily :
      Operational R → Date → Date → Warehouse R → Option (ℕ × Warehouse R)
  unfolding clear_daily group_by_grain observations
  refresh_daily source from through w =
      let rows = group_by_grain (observations from through source.measurements source.checks) in
      do w1 ← insert_facts rows (clear_daily from through w); some (length rows, w1)

  -- Nothing without bounds.
  unfoldable pub refresh_daily_within :
      Operational R → Option (Date × Date) → Warehouse R → Option (ℕ × Warehouse R)
  unfolding refresh_daily
  refresh_daily_within source none w = some (0, w)
  refresh_daily_within source (some bounds) w = refresh_daily source bounds.0 bounds.1 w

  -- The statements between `_resolve_bounds` and the record of the run: the rows of the facts and of the incidents.
  unfoldable pub refresh_tables :
      Operational R → Option (Date × Date) → Warehouse R → Option (ℕ × (ℕ × Warehouse R))
  unfolding refresh_dimensions refresh_daily_within refresh_incidents
  refresh_tables source bounds w = do
    daily ← refresh_daily_within source bounds (refresh_dimensions source w)
    incident ← refresh_incidents source daily.1
    some (daily.0, (incident.0, incident.1))

  -- The statements after `_resolve_bounds`.
  unfoldable pub transaction :
      Operational R
      → DateSelection
      → Option (Date × Date)
      → Warehouse R
      → Option (RefreshResult × Warehouse R)
  unfolding refresh_tables insert_run
  transaction source selection bounds w = do
    tables ← refresh_tables source bounds w
    w3 ←
        insert_run
          (record {
            run_id = tables.1.1.next_run_id;
            from_date = selection.from_date;
            through_date = selection.through_date;
            is_all = selection.is_all;
            daily_rows = tables.0;
            incident_rows = tables.1.0;
          })
          tables.1.1
    some (
      record { run_id = tables.1.1.next_run_id; daily_rows = tables.0; incident_rows = tables.1.0 },
      w3,
    )

  -- The INSERT of the run takes a number even when a constraint then refuses it.
  unfoldable pub numbers_taken : Operational R → Option (Date × Date) → Warehouse R → ℕ
  unfolding refresh_tables
  numbers_taken source bounds w = elim (refresh_tables source bounds w) [
    | none ↦ 0
    | some tables ↦ 1
  ]

  -- What follows `_resolve_bounds`.
  unfoldable pub with_bounds :
      Operational R
      → DateSelection
      → (Option (Date × Date)) ⊎ RefreshError
      → Warehouse R
      → Outcome × Warehouse R
  unfolding transaction numbers_taken commit
  with_bounds source selection (inl bounds) w =
      commit (transaction source selection bounds w) (numbers_taken source bounds w) w
  with_bounds source selection (inr error) w = (raised error, w)

  -- `run`, given whether another session holds the lock; the session releases its own in every case.
  unfoldable pub run :
      (lock_free : Bool) → Operational R → DateSelection → Warehouse R → Outcome × Warehouse R
  unfolding resolve_bounds with_bounds
  run lock_free source selection w =
      if lock_free
      then with_bounds source selection (resolve_bounds source selection w) w
      else (raised already_running, w)
