-- ===== src/Analytics/Refresh/Figures.antt =====
-- A refresh implements its abstract view: the daily facts as a function of their grain, brought up to date within a range.
use local_network_kafka_moni.Base.{
  ◌≤◌, Bool, true, false, not, List, [], ◌∷◌, ◌++◌, some, ◌≡◌, refl, sym, ap, ◌∙◌, length, filter,
  filter-append, le→leb, inl, inr, Bool-cases, Option-cases, and-left, and-right, if◌then◌else◌,
  append_nil, leb, all,
}
use local_network_kafka_moni.Base.Number.{Number}
use local_network_kafka_moni.Base.Grouping.{Unique, distinct, filter-filter, length-map}
use local_network_kafka_moni.Query.Models.{Date, CursorKey}
use local_network_kafka_moni.Analytics.Sources.{
  Fact, between, same_grain, observations, group_by_grain,
}
use local_network_kafka_moni.Analytics.Warehouse.{Operational, Warehouse, run_allowed}
use local_network_kafka_moni.Analytics.Refresh.{
  DateSelection, refreshed, resolve_bounds, commit, with_bounds, run,
}
use local_network_kafka_moni.Analytics.Refresh.Lookup.{
  lookup, all_observations, grains, observations-filter, lookup-append, lookup-filter, figure,
  lookup-group_by_grain, figure-filter, figure-filter_out,
}
use local_network_kafka_moni.Analytics.Refresh.References.{IsReferenced}
use local_network_kafka_moni.Analytics.Refresh.Succeeds.{
  fact_grains, fresh, kept, refreshed-Unique, grains-group_by_grain, fresh-between,
}
use local_network_kafka_moni.Analytics.Refresh.Settled.{settled, transaction-settled}

-- `DateSelection(from_date, through_date, False)`
abbrev pub range : Date → Date → DateSelection
range from through = record { from_date = some from; through_date = some through; is_all = false }

module _ {R : Type 0} ⦃num : Number R⦄ where
  pub run-settled :
      (source : Operational R) (from through : Date) (w : Warehouse R)
      → IsReferenced source
      → 1 ≤ from
      → from ≤ through
      → Unique same_grain (fact_grains w.facts)
      → run true source (range from through) w ≡ (
        refreshed (record {
          run_id = w.next_run_id;
          daily_rows = length (fresh source from through);
          incident_rows = length source.incidents;
        }),
        settled source (range from through) from through w,
      )
  unfolding run with_bounds resolve_bounds commit run_allowed
  run-settled source from through w s h ordered u =
      let in_order : leb from through ≡ true = le→leb from through ordered in
      rw
        (
          transaction-settled source (range from through) from through w s h u
              (λ i rows incidents. (rw in_order refl)),
          length-map (λ incident. incident.row) source.incidents,
        )
        refl

  -- What becomes of a grain among the rows that stay and those that come.
  pub lookup-settled :
      (source : Operational R) (from through : Date) (w : Warehouse R) (g : CursorKey)
      → 1 ≤ from
      → lookup g (kept from through w ++ fresh source from through) ≡ (
          if between from through g.date_utc
          then figure g (all_observations source.measurements source.checks)
          else lookup g w.facts)
  lookup-settled source from through w g h =
      let stays = lookup-filter (λ date. not (between from through date)) g w.facts in
      let comes =
        lookup-group_by_grain g (observations from through source.measurements source.checks)
        ∙ ap (λ rows. figure g rows)
            (observations-filter from through source.measurements source.checks h) in
      elim (Bool-cases (between from through g.date_utc)) [
        | inl e ↦
            rw
              (
                lookup-append g (kept from through w) (fresh source from through),
                stays,
                e,
                comes,
                figure-filter (between from through) g
                    (all_observations source.measurements source.checks) e,
              )
              refl
        | inr e ↦
            let nothing =
              comes
              ∙ figure-filter_out (between from through) g
                  (all_observations source.measurements source.checks) e in
            rw (lookup-append g (kept from through w) (fresh source from through), stays, e)
              (elim (Option-cases (lookup g w.facts)) [
                | inl k ↦ rw (k, nothing) refl
                | inr (fact, k) ↦ rw k refl
              ])
      ]

  -- The figure of a grain after a refresh of a range that finds the lock free: within the range
  -- what the sources say of it, and outside the range what the warehouse said before, provided
  -- that the sources refer to known agents and endpoints, the range is ordered, and no grain
  -- stands twice among the facts before.
  pub run-figure :
      (source : Operational R) (from through : Date) (w : Warehouse R) (g : CursorKey)
      → IsReferenced source
      → 1 ≤ from
      → from ≤ through
      → Unique same_grain (fact_grains w.facts)
      → lookup g (run true source (range from through) w).1.facts ≡ (
          if between from through g.date_utc
          then figure g (all_observations source.measurements source.checks)
          else lookup g w.facts)
  run-figure source from through w g s h ordered u =
      rw (run-settled source from through w s h ordered u)
        (lookup-settled source from through w g h)

  -- A refresh of an ordered range succeeds when no other session holds the lock, the sources refer
  -- to known agents and endpoints and no grain stands twice among the facts before: it returns the
  -- next number of a run, the number of the grains that the sources have in the range, and the
  -- number of the incidents.
  pub run-succeeds :
      (source : Operational R) (from through : Date) (w : Warehouse R)
      → IsReferenced source
      → 1 ≤ from
      → from ≤ through
      → Unique same_grain (fact_grains w.facts)
      → (run true source (range from through) w).0
        ≡ refreshed (record {
          run_id = w.next_run_id;
          daily_rows = length (
              distinct same_grain (
                grains (
                  filter
                    (λ row. between from through row.grain.date_utc)
                    (all_observations source.measurements source.checks))));
          incident_rows = length source.incidents;
        })
  unfolding fact_grains
  run-succeeds source from through w s h ordered u =
      let rows = observations from through source.measurements source.checks in
      let counted : length (fresh source from through)
          ≡ length (distinct same_grain (grains rows)) =
        sym (length-map (λ fact. fact.grain) (group_by_grain rows))
        ∙ ap length (grains-group_by_grain rows) in
      rw
        (
          run-settled source from through w s h ordered u,
          counted,
          observations-filter from through source.measurements source.checks h,
        )
        refl

  fresh_stay :
      (p : CursorKey → Bool) (facts : List (Fact R))
      → all p (fact_grains facts) ≡ true
      → filter (λ fact. not (p fact.grain)) facts ≡ []
  unfolding fact_grains
  fresh_stay p [] h = refl
  fresh_stay p (fact ∷ facts) h =
      rw (and-left (p fact.grain) _ h) (fresh_stay p facts (and-right (p fact.grain) _ h))

  -- A second refresh of a range, from the same sources, leaves the rows of the facts as the first
  -- one has left them, when both find the lock free, the sources refer to known agents and
  -- endpoints, the range is ordered, and no grain stands twice among the facts before.
  pub run-run_facts :
      (source : Operational R) (from through : Date) (w : Warehouse R)
      → IsReferenced source
      → 1 ≤ from
      → from ≤ through
      → Unique same_grain (fact_grains w.facts)
      → (run true source (range from through) (run true source (range from through) w).1).1.facts
        ≡ (run true source (range from through) w).1.facts
  run-run_facts source from through w s h ordered u =
      let once = run-settled source from through w s h ordered u in
      let settled_once = settled source (range from through) from through w in
      let twice =
        run-settled source from through settled_once s h ordered
          (refreshed-Unique source from through w h u) in
      let gone : filter (λ fact. not (between from through fact.grain.date_utc))
            (fresh source from through)
          ≡ [] =
        fresh_stay (λ g. between from through g.date_utc) (fresh source from through)
          (fresh-between source from through h) in
      let out : Fact R → Bool = λ fact. not (between from through fact.grain.date_utc) in
      rw
        (
          once,
          twice,
          filter-append out (kept from through w) (fresh source from through),
          gone,
          filter-filter out w.facts,
          append_nil (kept from through w),
        )
        refl
