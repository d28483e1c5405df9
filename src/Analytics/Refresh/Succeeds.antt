-- ===== src/Analytics/Refresh/Succeeds.antt =====
-- A refresh of a range of dates succeeds, and what it leaves in the warehouse.
use local_network_kafka_moni.Base.{
  ◌≤◌, true, not, List, [], ◌∷◌, ◌++◌, map, some, ◌≡◌, refl, sym, ◌∙◌, subst, all, filter, length,
  arith, inl, inr, Bool-cases,
}
use local_network_kafka_moni.Base.Number.{Number}
use local_network_kafka_moni.Base.Grouping.{
  member, distinct, Unique, Unique-append, unique-of, all-distinct, map-append, map-map, map_id,
  filter-map, all-filter_self, filter-Unique, distinct-Unique, all-member,
}
use local_network_kafka_moni.Query.Models.{Date, CursorKey}
use local_network_kafka_moni.Analytics.Sources.{
  Observation, Fact, between, same_grain, observations, aggregate, group_by_grain,
}
use local_network_kafka_moni.Analytics.Sources.Grain.{grain-IsEquality}
use local_network_kafka_moni.Analytics.Sources.Figures.{group_by_grain-checks}
use local_network_kafka_moni.Analytics.Warehouse.{Operational, Warehouse, insert_facts}
use local_network_kafka_moni.Analytics.Refresh.{refresh_dimensions, clear_daily, refresh_daily}
use local_network_kafka_moni.Analytics.Refresh.Lookup.{
  all_observations, grains, observations-filter,
}
use local_network_kafka_moni.Analytics.Refresh.References.{IsReferenced, facts_known}

-- The grains of the facts, which are their primary key.
unfoldable pub fact_grains : {R : Type 0} → List (Fact R) → List CursorKey
fact_grains facts = map (λ fact. fact.grain) facts

module _ {R : Type 0} ⦃num : Number R⦄ where
  pub grains-group_by_grain :
      (rows : List (Observation R))
      → fact_grains (group_by_grain rows) ≡ distinct same_grain (grains rows)
  unfolding fact_grains group_by_grain aggregate grains
  grains-group_by_grain rows =
      map-map (λ g. aggregate g rows) (λ fact. fact.grain) (distinct same_grain (grains rows))
      ∙ map_id (distinct same_grain (grains rows))

  -- The rows that a refresh of a range puts in.
  abbrev pub fresh : Operational R → Date → Date → List (Fact R)
  fresh source from through =
      group_by_grain (observations from through source.measurements source.checks)

  -- The rows that it leaves.
  abbrev pub kept : Date → Date → Warehouse R → List (Fact R)
  kept from through w = filter (λ fact. not (between from through fact.grain.date_utc)) w.facts

  kept-Unique :
      (from through : Date) (w : Warehouse R)
      → Unique same_grain (fact_grains w.facts)
      → Unique same_grain (fact_grains (kept from through w))
  unfolding fact_grains
  kept-Unique from through w h =
      rw (filter-map (λ fact. fact.grain) (λ g. not (between from through g.date_utc)) w.facts) (
        filter-Unique same_grain grain-IsEquality (λ g. not (between from through g.date_utc))
          (map (λ fact. fact.grain) w.facts) h)

  grains-between :
      (from through : Date) (rows : List (Observation R))
      → all
          (λ g. between from through g.date_utc)
          (grains (filter (λ row. between from through row.grain.date_utc) rows))
        ≡ true
  unfolding grains
  grains-between from through [] = refl
  grains-between from through (row ∷ rows) =
      elim (Bool-cases (between from through row.grain.date_utc)) [
        | inl e ↦ rw (e, e, grains-between from through rows) refl
        | inr e ↦ rw e (grains-between from through rows)
      ]

  pub kept_apart :
      (from through : Date) (w : Warehouse R)
      → all (λ g. not (between from through g.date_utc)) (fact_grains (kept from through w)) ≡ true
  unfolding fact_grains
  kept_apart from through w =
      rw (filter-map (λ fact. fact.grain) (λ g. not (between from through g.date_utc)) w.facts) (
        all-filter_self (λ g. not (between from through g.date_utc))
          (map (λ fact. fact.grain) w.facts))

  pub fresh-between :
      (source : Operational R) (from through : Date)
      → 1 ≤ from
      → all (λ g. between from through g.date_utc) (fact_grains (fresh source from through)) ≡ true
  fresh-between source from through h =
      rw
        (
          grains-group_by_grain (observations from through source.measurements source.checks),
          observations-filter from through source.measurements source.checks h,
        )
        (all-distinct same_grain (λ g. between from through g.date_utc)
          (grains (
            filter (λ row. between from through row.grain.date_utc)
              (all_observations source.measurements source.checks)))
          (grains-between from through (all_observations source.measurements source.checks)))

  -- The primary key holds of the rows that are left with the new ones.
  pub refreshed-Unique :
      (source : Operational R) (from through : Date) (w : Warehouse R)
      → 1 ≤ from
      → Unique same_grain (fact_grains w.facts)
      → Unique same_grain (fact_grains (kept from through w ++ fresh source from through))
  unfolding fact_grains
  refreshed-Unique source from through w h u =
      rw (map-append (λ fact. fact.grain) (kept from through w) (fresh source from through)) (
        Unique-append same_grain (fact_grains (kept from through w))
          (fact_grains (fresh source from through)) (kept-Unique from through w u)
          (subst (λ gs. Unique same_grain gs)
            (sym
              (grains-group_by_grain (observations from through source.measurements source.checks)))
            (distinct-Unique same_grain grain-IsEquality
              (grains (observations from through source.measurements source.checks))))
          (λ g m.
            elim (Bool-cases (member same_grain g (fact_grains (fresh source from through)))) [
              | inl k ↦
                  let inside =
                    all-member same_grain _ _ g grain-IsEquality
                      (fresh-between source from through h) k in
                  let outside =
                    all-member same_grain _ _ g grain-IsEquality (kept_apart from through w) m in
                  ground (arith, inside, outside)
              | inr k ↦ k
            ])
          grain-IsEquality)

  pub refresh_daily-some :
      (source : Operational R) (from through : Date) (w : Warehouse R)
      → IsReferenced source
      → 1 ≤ from
      → Unique same_grain (fact_grains w.facts)
      → refresh_daily source from through (refresh_dimensions source w)
        ≡ some (
          length (fresh source from through),
          record (clear_daily from through (refresh_dimensions source w)) {
            facts = kept from through w ++ fresh source from through;
          },
        )
  unfolding refresh_daily insert_facts clear_daily refresh_dimensions fact_grains
  refresh_daily-some source from through w s h u =
      let accepted =
        group_by_grain-checks (observations from through source.measurements source.checks) in
      let referring = facts_known source w s from through h in
      let one_row = unique-of same_grain _ (refreshed-Unique source from through w h u) in
      rw (accepted, referring, one_row) refl
