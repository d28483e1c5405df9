-- ===== src/Analytics/Refresh/Settled.antt =====
-- The warehouse after a transaction that succeeds.
use local_network_kafka_moni.Base.{
  ℕ, ◌+◌, ◌≤◌, true, ◌&&◌, List, [], ◌∷◌, ◌++◌, map, none, some, ◌≡◌, refl, all, length,
}
use local_network_kafka_moni.Base.Options.{option_map}
use local_network_kafka_moni.Base.Number.{Number}
use local_network_kafka_moni.Base.Grouping.{
  member, distinct, Unique, unique-of, all-distinct, all-of_Mem, all-Mem, distinct-Unique,
}
use local_network_kafka_moni.Query.Models.{Date, Text}
use local_network_kafka_moni.Query.Cursor.Format.{same}
use local_network_kafka_moni.Analytics.Sources.{same_grain}
use local_network_kafka_moni.Analytics.Warehouse.{
  SourceIncident, insert_incidents, insert_run, insert_bridge_agents, insert_bridge_endpoints,
  Operational, Warehouse, same_date, same_probe, same_pair, upsert_all, insert_missing,
  bridge_known, run_allowed, ids,
}
use local_network_kafka_moni.Analytics.Refresh.{
  DateSelection, generate_series, probes_of, pairs_of, refresh_dimensions, clear_daily,
  refresh_daily_within, refresh_incidents, clear_incidents, refresh_tables, transaction,
}
use local_network_kafka_moni.Analytics.Refresh.References.{
  IsReferenced, agent_known, endpoint_known,
}
use local_network_kafka_moni.Analytics.Refresh.Bridges.{
  same_pair-IsEquality, pairs-known, incident_id_list, member-incident_id_list,
}
use local_network_kafka_moni.Analytics.Refresh.Succeeds.{
  fresh, kept, refresh_daily-some, fact_grains,
}

module _ {R : Type 0} ⦃num : Number R⦄ where
  -- The tables of the incidents after a refresh.
  abbrev pub with_incidents : Operational R → Warehouse R → Warehouse R
  with_incidents source w = record w {
    fact_incidents = map (λ incident. incident.row) source.incidents;
    bridge_agents =
        distinct same_pair (pairs_of (λ incident. incident.affected_agents) source.incidents);
    bridge_endpoints =
        distinct same_pair (pairs_of (λ incident. incident.affected_endpoints) source.incidents);
  }

  bridge-known :
      (affected : SourceIncident R → List Text) (M N : List Text) (source : Operational R)
      → ((a : Text) → member same a M ≡ true → member same a N ≡ true)
      → all (λ incident. all (λ a. member same a M) (affected incident)) source.incidents ≡ true
      → bridge_known
          (incident_id_list source.incidents)
          N
          (distinct same_pair (pairs_of affected source.incidents))
        ≡ true
  unfolding bridge_known incident_id_list
  bridge-known affected M N source widen h =
      let own : all
            (λ incident. member same incident.row.incident_id (incident_id_list source.incidents))
            source.incidents
          ≡ true =
        all-of_Mem _ source.incidents
          (λ incident m. member-incident_id_list incident source.incidents m) in
      let named : all (λ incident. all (λ a. member same a N) (affected incident)) source.incidents
          ≡ true =
        all-of_Mem _ source.incidents (λ incident m. all-of_Mem _ (affected incident) (λ a k.
          widen a (
            all-Mem (λ b. member same b M) (affected incident) a
              (all-Mem (λ i. all (λ b. member same b M) (affected i)) source.incidents incident h m)
              k))) in
      let pairs = pairs_of affected source.incidents in
      rw
        (
          all-distinct same_pair
              (λ pair.
                member same pair.0 (incident_id_list source.incidents) && member same pair.1 N)
              pairs
              (pairs-known affected (incident_id_list source.incidents) N source.incidents own
                named),
          unique-of same_pair _ (distinct-Unique same_pair same_pair-IsEquality pairs),
        )
        refl

  pub refresh_incidents-some :
      (source : Operational R) (w : Warehouse R)
      → IsReferenced source
      → ((a : Text)
          → member same a (ids source.agents) ≡ true
          → member same a (ids w.dim_agent) ≡ true)
      → ((a : Text)
          → member same a (ids source.endpoints) ≡ true
          → member same a (ids w.dim_endpoint) ≡ true)
      → refresh_incidents source w
        ≡ some (length (map (λ incident. incident.row) source.incidents), with_incidents source w)
  unfolding refresh_incidents insert_incidents insert_bridge_agents insert_bridge_endpoints
      clear_incidents incident_id_list
  refresh_incidents-some source w s agents endpoints =
      let agents_known =
        bridge-known (λ incident. incident.affected_agents) (ids source.agents) (ids w.dim_agent)
          source agents s.affected_agents in
      let endpoints_known =
        bridge-known (λ incident. incident.affected_endpoints) (ids source.endpoints)
          (ids w.dim_endpoint) source endpoints s.affected_endpoints in
      rw
        (
          s.revisions, s.incident_ids, insert_bridge_agents, agents_known, insert_bridge_endpoints,
          endpoints_known,
        )
        refl

  -- The warehouse after a refresh of a range.
  abbrev pub settled : Operational R → DateSelection → Date → Date → Warehouse R → Warehouse R
  settled source selection from through w = record {
    dim_agent = upsert_all source.agents w.dim_agent;
    dim_endpoint = upsert_all source.endpoints w.dim_endpoint;
    dim_date = insert_missing same_date (generate_series from through) w.dim_date;
    dim_probe = insert_missing same_probe (distinct same_probe (probes_of source)) w.dim_probe;
    facts = kept from through w ++ fresh source from through;
    fact_incidents = map (λ incident. incident.row) source.incidents;
    bridge_agents =
        distinct same_pair (pairs_of (λ incident. incident.affected_agents) source.incidents);
    bridge_endpoints =
        distinct same_pair (pairs_of (λ incident. incident.affected_endpoints) source.incidents);
    job_runs =
        w.job_runs
        ++ record {
          run_id = w.next_run_id;
          from_date = selection.from_date;
          through_date = selection.through_date;
          is_all = selection.is_all;
          daily_rows = length (fresh source from through);
          incident_rows = length (map (λ incident. incident.row) source.incidents);
        }
          ∷ [];
    next_run_id = w.next_run_id + 1;
  }

  pub transaction-settled :
      (source : Operational R) (selection : DateSelection) (from through : Date) (w : Warehouse R)
      → IsReferenced source
      → 1 ≤ from
      → Unique same_grain (fact_grains w.facts)
      → ((run_id rows incidents : ℕ)
          → run_allowed (record {
            run_id = run_id;
            from_date = selection.from_date;
            through_date = selection.through_date;
            is_all = selection.is_all;
            daily_rows = rows;
            incident_rows = incidents;
          })
            ≡ true)
      → transaction source selection (some (from, through)) w
        ≡ some (
          record {
            run_id = w.next_run_id;
            daily_rows = length (fresh source from through);
            incident_rows = length (map (λ incident. incident.row) source.incidents);
          },
          settled source selection from through w,
        )
  unfolding transaction refresh_tables refresh_daily_within insert_run refresh_dimensions
      clear_daily
  transaction-settled source selection from through w s h u allowed =
      let daily = refresh_daily-some source from through w s h u in
      let middle : Warehouse R = record (clear_daily from through (refresh_dimensions source w)) {
        facts = kept from through w ++ fresh source from through;
      } in
      let incidents =
        refresh_incidents-some source middle s (agent_known source w) (endpoint_known source w) in
      rw (daily, incidents, allowed w.next_run_id _ _) refl

  -- Without a date the facts stay.
  pub transaction-nothing :
      (source : Operational R) (selection : DateSelection) (w : Warehouse R)
      → IsReferenced source
      → ((run_id rows incidents : ℕ)
          → run_allowed (record {
            run_id = run_id;
            from_date = selection.from_date;
            through_date = selection.through_date;
            is_all = selection.is_all;
            daily_rows = rows;
            incident_rows = incidents;
          })
            ≡ true)
      → option_map (λ result. result.1.facts) (transaction source selection none w) ≡ some w.facts
  unfolding transaction refresh_tables refresh_daily_within insert_run refresh_dimensions
  transaction-nothing source selection w s allowed =
      let incidents =
        refresh_incidents-some source (refresh_dimensions source w) s (agent_known source w)
          (endpoint_known source w) in
      rw (incidents, allowed w.next_run_id _ _) refl
