-- ===== src/Analytics/Reconcile/After.antt =====
-- The reconciliation of a range after a refresh of it.
use local_network_kafka_moni.Base.{
  ℕ, ◌≤◌, Bool, true, false, not, List, [], ◌∷◌, map, Option, none, some, ◌≡◌, refl, sym, ap, ◌∙◌,
  subst, ◌==◌, all, All, length, filter, filter-append, arith, and-left, and-right, Memᴰ,
}
use local_network_kafka_moni.Base.Number.{Number}
use local_network_kafka_moni.Base.Grouping.{
  Unique, Unique-of_unique, distinct, distinct_id, distinct-Unique, map-map, length-map,
}
use local_network_kafka_moni.Query.Models.{Date, CursorKey, Text}
use local_network_kafka_moni.Query.Cursor.Format.{same}
use local_network_kafka_moni.Analytics.Sources.{Fact, between, same_grain, observations}
use local_network_kafka_moni.Analytics.Sources.Grain.{grain-IsEquality, same_refl, same-IsEquality}
use local_network_kafka_moni.Analytics.Warehouse.{SourceIncident, Operational, Warehouse, same_pair}
use local_network_kafka_moni.Analytics.Refresh.{pairs_of, run}
use local_network_kafka_moni.Analytics.Refresh.Lookup.{grains}
use local_network_kafka_moni.Analytics.Refresh.References.{IsReferenced}
use local_network_kafka_moni.Analytics.Refresh.Bridges.{
  same_pair-IsEquality, rows_of, length-rows_of, pairs_of-Unique, incident_id_list,
}
use local_network_kafka_moni.Analytics.Refresh.Succeeds.{
  fact_grains, fresh, kept, kept_apart, fresh-between, grains-group_by_grain,
}
use local_network_kafka_moni.Analytics.Refresh.Settled.{settled}
use local_network_kafka_moni.Analytics.Refresh.Figures.{range, run-settled}
use local_network_kafka_moni.Analytics.Reconcile.{
  is_distinct, same_number, IncidentSummary, incident_mismatch, expected_incident, actual_incident,
  incident_comparison, daily_mismatch, expected_daily, actual_daily, daily_comparison, reconcile,
}
use local_network_kafka_moni.Analytics.Reconcile.Join.{full_join-agreed}
use local_network_kafka_moni.Analytics.Reconcile.Daily.{count-of_all}

pub eqb_refl : (n : ℕ) → (n == n) ≡ true
eqb_refl n = ground arith

map-cong :
    {A B : Type 0} (f g : A → B) (xs : List A)
    → ((x : A) → Memᴰ x xs → f x ≡ g x)
    → map f xs ≡ map g xs
map-cong f g [] h = refl
map-cong f g (x ∷ xs) h = rw (h x (Memᴰ.head refl), map-cong f g xs (λ y m. h y (Memᴰ.tail m))) refl

incident-same : (row : IncidentSummary) → incident_mismatch (some row, some row) ≡ false
unfolding incident_mismatch
incident-same row =
    rw
      (
        same_refl row.status,
        eqb_refl row.state_revision,
        eqb_refl row.agent_count,
        eqb_refl row.endpoint_count,
      )
      refl

module _ {R : Type 0} where
  rows-stay :
      (q : CursorKey → Bool) (facts : List (Fact R))
      → all q (fact_grains facts) ≡ true
      → filter (λ fact. q fact.grain) facts ≡ facts
  unfolding fact_grains
  rows-stay q [] h = refl
  rows-stay q (fact ∷ facts) h =
      rw (and-left (q fact.grain) _ h, rows-stay q facts (and-right (q fact.grain) _ h)) refl

  rows-go :
      (q : CursorKey → Bool) (facts : List (Fact R))
      → all (λ g. not (q g)) (fact_grains facts) ≡ true
      → filter (λ fact. q fact.grain) facts ≡ []
  unfolding fact_grains
  rows-go q [] h = refl
  rows-go q (fact ∷ facts) h =
      let out : q fact.grain ≡ false = ground (arith, and-left (not (q fact.grain)) _ h) in
      rw out (rows-go q facts (and-right (not (q fact.grain)) _ h))

  -- The number of the rows of an incident in a bridge.
  count-distinct :
      (affected : SourceIncident R → List Text) (incidents : List (SourceIncident R))
      → Unique same (incident_id_list incidents)
      → All (λ incident. Unique same (affected incident)) incidents
      → (incident : SourceIncident R) → Memᴰ incident incidents
      → length (
          filter
            (λ pair. same pair.0 incident.row.incident_id)
            (distinct same_pair (pairs_of affected incidents)))
        ≡ length (affected incident)
  unfolding rows_of
  count-distinct affected incidents u h incident m =
      rw
        (distinct_id same_pair same_pair-IsEquality (pairs_of affected incidents)
          (pairs_of-Unique affected incidents u h))
        (length-rows_of affected incidents u incident m)

module _ {R : Type 0} ⦃num : Number R⦄ where
  number-same : (o : Option R) → is_distinct same_number o o ≡ false
  unfolding is_distinct same_number
  number-same none = refl
  number-same (some a) = rw (num.leb_refl a) refl

  daily-same : (fact : Fact R) → daily_mismatch (some fact, some fact) ≡ false
  unfolding daily_mismatch
  daily-same fact =
      rw
        (
          eqb_refl fact.total_count,
          eqb_refl fact.success_count,
          eqb_refl fact.failure_count,
          eqb_refl fact.latency_count,
          eqb_refl fact.packet_loss_count,
          number-same fact.latency_sum_ms,
          number-same fact.packet_loss_sum_pct,
        )
        refl

  pub actual_daily-settled :
      (source : Operational R) (from through : Date) (w : Warehouse R)
      → 1 ≤ from
      → actual_daily (settled source (range from through) from through w) from through
        ≡ fresh source from through
  unfolding actual_daily
  actual_daily-settled source from through w h =
      let inside : CursorKey → Bool = λ g. between from through g.date_utc in
      rw
        (
          filter-append (λ fact. inside fact.grain) (kept from through w)
              (fresh source from through),
          rows-go inside (kept from through w) (kept_apart from through w),
        )
        (rows-stay inside (fresh source from through) (fresh-between source from through h))

  daily-none :
      (source : Operational R) (from through : Date) (w : Warehouse R)
      → 1 ≤ from
      → length (
          filter daily_mismatch (
            daily_comparison source
              (settled source (range from through) from through w)
              from
              through))
        ≡ 0
  unfolding daily_comparison expected_daily fact_grains
  daily-none source from through w h =
      let rows = observations from through source.measurements source.checks in
      let apart : Unique same_grain (fact_grains (fresh source from through)) =
        subst (Unique same_grain) (sym (grains-group_by_grain rows))
          (distinct-Unique same_grain grain-IsEquality (grains rows)) in
      rw (actual_daily-settled source from through w h) (
        count-of_all daily_mismatch _ (
          full_join-agreed same_grain grain-IsEquality (λ fact. fact.grain) daily_mismatch
            daily-same (fresh source from through) apart))

  module _ (source : Operational R) (from through : Date) (w : Warehouse R)
      (s : IsReferenced source)
      (agents_apart : All (λ incident. Unique same incident.affected_agents) source.incidents)
      (endpoints_apart : All
        (λ incident. Unique same incident.affected_endpoints)
        source.incidents) where
    incidents_alike :
        map
          (actual_incident (settled source (range from through) from through w))
          (map (λ incident. incident.row) source.incidents)
        ≡ map expected_incident source.incidents
    unfolding actual_incident expected_incident incident_id_list
    incidents_alike =
        let ids_apart = Unique-of_unique same _ s.incident_ids in
        map-map (λ incident. incident.row)
          (actual_incident (settled source (range from through) from through w)) source.incidents
        ∙ map-cong _ expected_incident source.incidents (λ incident m.
          (rw
            (
              count-distinct (λ i. i.affected_agents) source.incidents ids_apart agents_apart
                  incident m,
              count-distinct (λ i. i.affected_endpoints) source.incidents ids_apart endpoints_apart
                  incident m,
            )
            refl))

    incidents-none :
        length (
          filter incident_mismatch
            (incident_comparison source (settled source (range from through) from through w)))
        ≡ 0
    unfolding incident_comparison expected_incident
    incidents-none =
        let ids_apart : Unique same
            (map (λ row. row.incident_id) (map expected_incident source.incidents)) =
          subst (Unique same)
            (map-map (λ incident. incident.row) (λ row. row.incident_id) source.incidents
              ∙ sym (map-map expected_incident (λ row. row.incident_id) source.incidents))
            (Unique-of_unique same _ s.incident_ids) in
        rw incidents_alike (
          count-of_all incident_mismatch _ (
            full_join-agreed same same-IsEquality (λ row. row.incident_id) incident_mismatch
              incident-same (map expected_incident source.incidents) ids_apart))

    -- The reconciliation of a range after a refresh of it reports no mismatch, as many facts as grains of the sources in
    -- the range, and as many incidents as the sources have, when the refresh finds the lock free and known agents and
    -- endpoints, the range is ordered, no grain stands twice among the facts before, and no incident lists an agent or an
    -- endpoint twice, and when both statements read the rows of the sources in the same order.
    pub reconcile-run :
        1 ≤ from
        → from ≤ through
        → Unique same_grain (fact_grains w.facts)
        → reconcile source
            (run true source (range from through) w).1
            (record { from_date = from; through_date = through })
          ≡ record {
            daily_source_rows = length (expected_daily source from through);
            daily_fact_rows = length (expected_daily source from through);
            daily_mismatch_rows = 0;
            source_incidents = length source.incidents;
            fact_incidents = length source.incidents;
            incident_mismatch_rows = 0;
          }
    unfolding reconcile expected_daily
    reconcile-run h ordered u =
        let after = settled source (range from through) from through w in
        let counted : length (actual_daily after from through)
            ≡ length (fresh source from through) =
          ap length (actual_daily-settled source from through w h) in
        let stored : length after.fact_incidents ≡ length source.incidents =
          length-map (λ incident. incident.row) source.incidents in
        rw
          (
            run-settled source from through w s h ordered u,
            counted,
            stored,
            daily-none source from through w h,
            incidents-none,
          )
          refl
