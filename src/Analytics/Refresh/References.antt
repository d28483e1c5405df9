-- ===== src/Analytics/Refresh/References.antt =====
-- The foreign keys of the daily facts hold after the dimensions are refreshed, when the sources refer
-- to rows of `agents` and `endpoints`, as their own foreign keys say.
use local_network_kafka_moni.Base.{
  ℕ, ◌≤◌, Bool, true, ◌&&◌, map, ◌≡◌, refl, sym, ◌∙◌, all, filter, arith, ltb, Memᴰ, All-filter_mem,
  All-member,
}
use local_network_kafka_moni.Base.Number.{Number}
use local_network_kafka_moni.Base.Grouping.{
  member, unique, distinct, member-append, member-distinct, all-member, member-map, all-map_member,
  all-Mem, all-of_Mem, all-map, map-map, map-append, all-append,
}
use local_network_kafka_moni.Query.Models.{
  network_measurement, service_check, Text, Date, CursorKey,
}
use local_network_kafka_moni.Query.Cursor.Format.{same}
use local_network_kafka_moni.Analytics.Sources.{
  Measurement, ServiceCheck, date_of, in_window, same_grain, of_measurement, of_check, observations,
  aggregate, group_by_grain,
}
use local_network_kafka_moni.Analytics.Sources.Grain.{grain-IsEquality, in_window-between}
use local_network_kafka_moni.Analytics.Warehouse.{
  Operational, Warehouse, ids, same_date, same_probe, references_known,
}
use local_network_kafka_moni.Analytics.Refresh.{
  generate_series, probes_of, refresh_dimensions, clear_daily,
}
use local_network_kafka_moni.Analytics.Refresh.Dimensions.{
  member-upsert_all, member-insert_missing, probe-IsEquality, date-IsEquality,
  member-generate_series,
}

-- What the constraints of the operational tables say.
pub record IsReferenced {R : Type 0} (source : Operational R) : Type 0 where
  pub measurement_agents :
      all (λ nm. member same nm.agent_id (ids source.agents)) source.measurements ≡ true
  pub measurement_targets :
      all (λ nm. member same nm.target_id (ids source.endpoints)) source.measurements ≡ true
  pub check_agents : all (λ sc. member same sc.agent_id (ids source.agents)) source.checks ≡ true
  pub check_endpoints :
      all (λ sc. member same sc.endpoint_id (ids source.endpoints)) source.checks ≡ true
  pub incident_ids :
      unique same (map (λ row. row.incident_id) (map (λ incident. incident.row) source.incidents))
      ≡ true
  pub revisions :
      all (λ row. ltb 0 row.state_revision) (map (λ incident. incident.row) source.incidents) ≡ true
  pub affected_agents :
      all
        (λ incident. all (λ a. member same a (ids source.agents)) incident.affected_agents)
        source.incidents
      ≡ true
  pub affected_endpoints :
      all
        (λ incident. all (λ a. member same a (ids source.endpoints)) incident.affected_endpoints)
        source.incidents
      ≡ true

module _ {R : Type 0} (source : Operational R) (w : Warehouse R) where
  pub agent_known :
      (a : Text)
      → member same a (ids source.agents) ≡ true
      → member same a (ids (refresh_dimensions source w).dim_agent) ≡ true
  unfolding refresh_dimensions
  agent_known a h = rw (member-upsert_all a source.agents w.dim_agent, h) refl

  pub endpoint_known :
      (a : Text)
      → member same a (ids source.endpoints) ≡ true
      → member same a (ids (refresh_dimensions source w).dim_endpoint) ≡ true
  unfolding refresh_dimensions
  endpoint_known a h = rw (member-upsert_all a source.endpoints w.dim_endpoint, h) refl

  measurement_probe_known :
      (nm : Measurement R)
      → Memᴰ nm source.measurements
      → member same_probe
          (network_measurement, nm.measurement_type)
          (refresh_dimensions source w).dim_probe
        ≡ true
  unfolding refresh_dimensions probes_of
  measurement_probe_known nm m =
      let listed =
        member-map same_probe (λ n. (network_measurement, n.measurement_type)) nm
          source.measurements probe-IsEquality m in
      rw
        (
          member-insert_missing same_probe probe-IsEquality
              (network_measurement, nm.measurement_type) (distinct same_probe (probes_of source))
              w.dim_probe,
          member-distinct same_probe probe-IsEquality (network_measurement, nm.measurement_type)
              (probes_of source),
          member-append same_probe (network_measurement, nm.measurement_type)
              (map (λ n. (network_measurement, n.measurement_type)) source.measurements)
              (map (λ s. (service_check, s.check_type)) source.checks),
          listed,
        )
        refl

  check_probe_known :
      (sc : ServiceCheck R)
      → Memᴰ sc source.checks
      → member same_probe (service_check, sc.check_type) (refresh_dimensions source w).dim_probe
        ≡ true
  unfolding refresh_dimensions probes_of
  check_probe_known sc m =
      let listed =
        member-map same_probe (λ s. (service_check, s.check_type)) sc source.checks probe-IsEquality
          m in
      rw
        (
          member-insert_missing same_probe probe-IsEquality (service_check, sc.check_type)
              (distinct same_probe (probes_of source)) w.dim_probe,
          member-distinct same_probe probe-IsEquality (service_check, sc.check_type)
              (probes_of source),
          member-append same_probe (service_check, sc.check_type)
              (map (λ n. (network_measurement, n.measurement_type)) source.measurements)
              (map (λ s. (service_check, s.check_type)) source.checks),
          listed,
        )
        (ground arith)

  module _ (s : IsReferenced source) (from through : Date) (positive : 1 ≤ from) where
    -- The test of the foreign keys, on a grain.
    unfoldable known : CursorKey → Bool
    unfolding ids
    known g =
        member same_date g.date_utc
          (clear_daily from through (refresh_dimensions source w)).dim_date
        && (member same g.agent_id (ids (refresh_dimensions source w).dim_agent)
            && (member same g.endpoint_id (ids (refresh_dimensions source w).dim_endpoint)
                && member same_probe (g.source_kind, g.probe_type)
                    (refresh_dimensions source w).dim_probe))

    date_known :
        (t : ℕ)
        → in_window from through t ≡ true
        → member same_date
            (date_of t)
            (clear_daily from through (refresh_dimensions source w)).dim_date
          ≡ true
    unfolding clear_daily
    date_known t h =
        let inside = sym (in_window-between from through t positive) ∙ h in
        rw
          (
            member-insert_missing same_date date-IsEquality (date_of t)
                (generate_series from through) (refresh_dimensions source w).dim_date,
            member-generate_series from through (date_of t) inside,
          )
          refl

    measurement_known :
        (nm : Measurement R)
        → Memᴰ nm source.measurements
        → in_window from through nm.event_time ≡ true
        → known (of_measurement nm).grain ≡ true
    unfolding of_measurement known
    measurement_known nm m h =
        rw
          (
            date_known nm.event_time h,
            agent_known nm.agent_id (all-Mem _ source.measurements nm s.measurement_agents m),
            endpoint_known nm.target_id (all-Mem _ source.measurements nm s.measurement_targets m),
            measurement_probe_known nm m,
          )
          refl

    check_known :
        (sc : ServiceCheck R)
        → Memᴰ sc source.checks
        → in_window from through sc.event_time ≡ true
        → known (of_check sc).grain ≡ true
    unfolding of_check known
    check_known sc m h =
        rw
          (
            date_known sc.event_time h,
            agent_known sc.agent_id (all-Mem _ source.checks sc s.check_agents m),
            endpoint_known sc.endpoint_id (all-Mem _ source.checks sc s.check_endpoints m),
            check_probe_known sc m,
          )
          refl

    measurements_known :
        all known (
          map
            (λ row. row.grain)
            (map of_measurement
              (filter (λ nm. in_window from through nm.event_time) source.measurements)))
        ≡ true
    measurements_known =
        let chosen = filter (λ nm. in_window from through nm.event_time) source.measurements in
        rw
          (
            map-map of_measurement (λ row. row.grain) chosen,
            all-map (λ nm. (of_measurement nm).grain) known chosen,
          )
          (all-of_Mem _ chosen (λ nm m.
            let from_source =
              All-member _ chosen nm
                (All-filter_mem (λ n. in_window from through n.event_time) source.measurements) m in
            measurement_known nm from_source.0 from_source.1))

    checks_known :
        all known (
          map
            (λ row. row.grain)
            (map of_check (filter (λ sc. in_window from through sc.event_time) source.checks)))
        ≡ true
    checks_known =
        let chosen = filter (λ sc. in_window from through sc.event_time) source.checks in
        rw
          (
            map-map of_check (λ row. row.grain) chosen,
            all-map (λ sc. (of_check sc).grain) known chosen,
          )
          (all-of_Mem _ chosen (λ sc m.
            let from_source =
              All-member _ chosen sc
                (All-filter_mem (λ n. in_window from through n.event_time) source.checks) m in
            check_known sc from_source.0 from_source.1))

    grains_known :
        all known
          (map (λ row. row.grain) (observations from through source.measurements source.checks))
        ≡ true
    unfolding observations
    grains_known =
        let ms =
          map of_measurement
            (filter (λ nm. in_window from through nm.event_time) source.measurements) in
        let cs = map of_check (filter (λ sc. in_window from through sc.event_time) source.checks) in
        rw (map-append (λ row. row.grain) ms cs)
          (all-append known _ _ measurements_known checks_known)

    pub facts_known :
        ⦃num : Number R⦄
        → all
            (references_known (clear_daily from through (refresh_dimensions source w)))
            (group_by_grain (observations from through source.measurements source.checks))
          ≡ true
    unfolding group_by_grain references_known aggregate known clear_daily
    facts_known =
        let keys =
          map (λ row. row.grain) (observations from through source.measurements source.checks) in
        all-map_member same_grain grain-IsEquality _ _ (distinct same_grain keys) (λ g m.
          all-member same_grain known keys g grain-IsEquality grains_known
            (sym (member-distinct same_grain grain-IsEquality g keys) ∙ m))
