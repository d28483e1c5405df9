-- ===== src/Analytics/Reporting/Valid.antt =====
-- The validation of the view after a refresh.
use local_network_kafka_moni.Base.{
  ◌≤◌, Bool, true, not, ◌↔◌, All, List, [], ◌∷◌, ◌++◌, map, ◌≡◌, refl, sym, ap, ◌∙◌, subst, ltb,
  all, any, length, filter, arith,
}
use local_network_kafka_moni.Base.Number.{Number}
use local_network_kafka_moni.Base.Grouping.{
  Unique, distinct_id, distinct-Unique, all-map, all-of_Mem, map-map, filter-map, length-map,
}
use local_network_kafka_moni.Query.Models.{Date, DailyReliabilityRow}
use local_network_kafka_moni.Analytics.Sources.{
  Fact, between, same_grain, observations, group_by_grain,
}
use local_network_kafka_moni.Analytics.Sources.Grain.{grain-IsEquality}
use local_network_kafka_moni.Analytics.Warehouse.{Operational, Warehouse, JobRun}
use local_network_kafka_moni.Analytics.Refresh.{run}
use local_network_kafka_moni.Analytics.Refresh.Lookup.{grains}
use local_network_kafka_moni.Analytics.Refresh.References.{IsReferenced}
use local_network_kafka_moni.Analytics.Refresh.Succeeds.{fact_grains, fresh, grains-group_by_grain}
use local_network_kafka_moni.Analytics.Refresh.Settled.{settled}
use local_network_kafka_moni.Analytics.Refresh.Figures.{range, run-settled}
use local_network_kafka_moni.Analytics.Reconcile.{matches, actual_daily}
use local_network_kafka_moni.Analytics.Reconcile.Join.{matches_self}
use local_network_kafka_moni.Analytics.Reconcile.Daily.{count-of_all}
use local_network_kafka_moni.Analytics.Reconcile.After.{actual_daily-settled, eqb_refl}
use local_network_kafka_moni.Analytics.Reporting.Plausible.{IsPlausible, none_invalid-All}
use local_network_kafka_moni.Analytics.Reporting.{
  Quotients, same_some_date, view_row, daily_view, duplicate_grains, run_matches, is_invalid,
  validate_reporting,
}

any-last :
    (p : JobRun → Bool) (runs : List JobRun) (last : JobRun)
    → p last ≡ true
    → any p (runs ++ last ∷ []) ≡ true
any-last p [] last h = rw h refl
any-last p (x ∷ xs) last h = rw (any-last p xs last h) (ground arith)

module _ {R : Type 0} where
  -- No grain is a duplicate where the grains are distinct.
  pub duplicate_grains-none :
      (rows : List (DailyReliabilityRow R))
      → Unique same_grain (map (λ row. row.key) rows)
      → duplicate_grains rows ≡ 0
  unfolding duplicate_grains matches
  duplicate_grains-none rows u =
      let single : all (λ g. not (ltb 1 (length (filter (λ row. same_grain row.key g) rows))))
            (map (λ row. row.key) rows)
          ≡ true =
        all-map (λ row. row.key)
          (λ g. not (ltb 1 (length (filter (λ row. same_grain row.key g) rows)))) rows
        ∙ all-of_Mem _ rows (λ row m.
          (rw (matches_self same_grain grain-IsEquality (λ r. r.key) row rows u m) refl)) in
      rw (distinct_id same_grain grain-IsEquality (map (λ row. row.key) rows) u) (
        count-of_all (λ g. ltb 1 (length (filter (λ row. same_grain row.key g) rows)))
          (map (λ row. row.key) rows) single)

module _ {R : Type 0} ⦃num : Number R⦄ where
  view-between :
      (quotients : Quotients R) (w : Warehouse R) (from through : Date)
      → filter (λ row. between from through row.key.date_utc) (daily_view quotients w)
        ≡ map (view_row quotients) (actual_daily w from through)
  unfolding daily_view actual_daily view_row
  view-between quotients w from through =
      sym (filter-map (view_row quotients) (λ row. between from through row.key.date_utc) w.facts)

  view-keys :
      (quotients : Quotients R) (facts : List (Fact R))
      → map (λ row. row.key) (map (view_row quotients) facts) ≡ fact_grains facts
  unfolding view_row fact_grains
  view-keys quotients facts = map-map (view_row quotients) (λ row. row.key) facts

  pub fresh-Unique :
      (source : Operational R) (from through : Date)
      → Unique same_grain (fact_grains (fresh source from through))
  fresh-Unique source from through =
      subst (Unique same_grain)
        (sym (grains-group_by_grain (observations from through source.measurements source.checks)))
        (distinct-Unique same_grain grain-IsEquality
          (grains (observations from through source.measurements source.checks)))

  pub validate_reporting-run_lem :
      (quotients : Quotients R) (source : Operational R) (from through : Date) (w : Warehouse R)
      → IsReferenced source
      → 1 ≤ from
      → from ≤ through
      → Unique same_grain (fact_grains w.facts)
      → validate_reporting quotients
          (run true source (range from through) w).1
          (record { from_date = from; through_date = through })
          w.next_run_id
        ≡ record {
          reporting_rows = length (fresh source from through);
          duplicate_rows = 0;
          invalid_rows =
              length (filter is_invalid (map (view_row quotients) (fresh source from through)));
          run_matches = true;
        }
  unfolding validate_reporting run_matches same_some_date
  validate_reporting-run_lem quotients source from through w s h ordered u =
      let after = settled source (range from through) from through w in
      let shown : filter (λ row. between from through row.key.date_utc) (daily_view quotients after)
          ≡ map (view_row quotients) (fresh source from through) =
        view-between quotients after from through
        ∙ ap (map (view_row quotients)) (actual_daily-settled source from through w h) in
      let apart =
        subst (Unique same_grain) (sym (view-keys quotients (fresh source from through)))
          (fresh-Unique source from through) in
      let found : run_matches after (record { from_date = from; through_date = through })
            w.next_run_id
          ≡ true =
        any-last _ w.job_runs _
          (rw (eqb_refl w.next_run_id, eqb_refl from, eqb_refl through) refl) in
      rw
        (
          run-settled source from through w s h ordered u,
          shown,
          found,
          duplicate_grains-none (map (view_row quotients) (fresh source from through)) apart,
          length-map (view_row quotients) (fresh source from through),
        )
        refl

  -- The validation of a range after a refresh of it, under the number of the run, finds a row for each grain of the sources
  -- in the range, no duplicate and the run, when the refresh finds the lock free and known agents and endpoints, the range
  -- is ordered and no grain stands twice among the facts before. It finds no invalid row exactly when in every figure of
  -- the sources in the range the counts add up, the success rate and the mean packet loss are between 0 and 100 and the
  -- mean latency is not negative, as far as there are such figures.
  pub validate_reporting-run :
      (quotients : Quotients R) (source : Operational R) (from through : Date) (w : Warehouse R)
      → IsReferenced source
      → 1 ≤ from
      → from ≤ through
      → Unique same_grain (fact_grains w.facts)
      → let found =
          validate_reporting quotients
            (run true source (range from through) w).1
            (record { from_date = from; through_date = through })
            w.next_run_id in
        (found.reporting_rows
          ≡ length (group_by_grain (observations from through source.measurements source.checks)))
        × ((found.duplicate_rows ≡ 0)
            × ((found.run_matches ≡ true)
                × ((found.invalid_rows ≡ 0)
                    ↔ All (IsPlausible quotients) (
                        group_by_grain
                          (observations from through source.measurements source.checks)))))
  unfolding fresh
  validate_reporting-run quotients source from through w s h ordered u =
      let whole = validate_reporting-run_lem quotients source from through w s h ordered u in
      let plausible = none_invalid-All quotients (fresh source from through) in
      (
        ap (λ v. v.reporting_rows) whole,
        (
          ap (λ v. v.duplicate_rows) whole,
          (
            ap (λ v. v.run_matches) whole,
            (
              (λ none. plausible.0 (sym (ap (λ v. v.invalid_rows) whole) ∙ none)),
              (λ good. ap (λ v. v.invalid_rows) whole ∙ plausible.1 good),
            ),
          ),
        ),
      )
