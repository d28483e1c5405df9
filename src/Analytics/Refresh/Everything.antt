-- ===== src/Analytics/Refresh/Everything.antt =====
-- A refresh of everything, `--all`: its range reaches from the first to the last date of the sources and the warehouse.
use local_network_kafka_moni.Base.{
  ℕ, ◌≤◌, true, false, ◌||◌, List, [], ◌∷◌, ◌++◌, map, Option, none, some, ◌≡◌, refl, sym, ap, ◌∙◌,
  subst, arith, inl, inr, Bool-cases, leb, all, and-right,
}
use local_network_kafka_moni.Base.Options.{option_map}
use local_network_kafka_moni.Base.Number.{Number}
use local_network_kafka_moni.Base.Grouping.{
  Unique, member, member-append, append_assoc, all-append, all-map, all-of_Mem, List-cases,
  nil_of_map, map-append, map-map,
}
use local_network_kafka_moni.Query.Models.{Date, CursorKey}
use local_network_kafka_moni.Analytics.Sources.{
  Fact, date_of, between, same_grain, of_measurement, of_check,
}
use local_network_kafka_moni.Analytics.Sources.Grain.{eq_of_grain}
use local_network_kafka_moni.Analytics.Warehouse.{Operational, Warehouse, same_date, run_allowed}
use local_network_kafka_moni.Analytics.Refresh.{
  DateSelection, RefreshResult, least, greatest, bounds_of, available_dates, resolve_bounds,
  transaction, numbers_taken, commit, with_bounds, run,
}
use local_network_kafka_moni.Analytics.Refresh.Bounds.{bounds-member, least-pos}
use local_network_kafka_moni.Analytics.Refresh.Lookup.{lookup, all_observations, grains, figure}
use local_network_kafka_moni.Analytics.Refresh.References.{IsReferenced}
use local_network_kafka_moni.Analytics.Refresh.Succeeds.{fact_grains}
use local_network_kafka_moni.Analytics.Refresh.Settled.{
  settled, transaction-settled, transaction-nothing,
}
use local_network_kafka_moni.Analytics.Refresh.Figures.{lookup-settled}

-- `DateSelection(None, None, True)`
abbrev pub everything : DateSelection
everything = record { from_date = none; through_date = none; is_all = true }

member-dates :
    (g : CursorKey) (gs : List CursorKey)
    → member same_grain g gs ≡ true
    → member same_date g.date_utc (map (λ k. k.date_utc) gs) ≡ true
member-dates g [] h = cc
member-dates g (k ∷ gs) h = elim (Bool-cases (same_grain k g)) [
  | inl e ↦ rw (ap (λ key. key.date_utc) (eq_of_grain k g e)) (ground arith)
  | inr e ↦ rw (member-dates g gs (ground (arith, h, e))) (ground arith)
]

module _ {R : Type 0} where
  lookup-absent :
      (g : CursorKey) (facts : List (Fact R))
      → member same_grain g (fact_grains facts) ≡ false
      → lookup g facts ≡ none
  unfolding lookup fact_grains
  lookup-absent g [] h = refl
  lookup-absent g (fact ∷ facts) h =
      let other : same_grain fact.grain g ≡ false = ground (arith, h) in
      rw other (lookup-absent g facts (ground (arith, h)))

  available_dates-grains :
      (source : Operational R) (w : Warehouse R)
      → available_dates source w
        ≡ map
            (λ g. g.date_utc)
            (grains (all_observations source.measurements source.checks) ++ fact_grains w.facts)
  unfolding available_dates all_observations grains of_measurement of_check fact_grains
  available_dates-grains source w =
      let ms = map of_measurement source.measurements in
      let cs = map of_check source.checks in
      rw
        (
          map-append (λ row. row.grain) ms cs,
          map-append (λ g. g.date_utc) (map (λ row. row.grain) ms ++ map (λ row. row.grain) cs)
              (map (λ fact. fact.grain) w.facts),
          map-append (λ g. g.date_utc) (map (λ row. row.grain) ms) (map (λ row. row.grain) cs),
          map-map (λ row. row.grain) (λ g. g.date_utc) ms,
          map-map (λ row. row.grain) (λ g. g.date_utc) cs,
          map-map of_measurement (λ row. row.grain.date_utc) source.measurements,
          map-map of_check (λ row. row.grain.date_utc) source.checks,
          map-map (λ fact. fact.grain) (λ g. g.date_utc) w.facts,
        )
        (sym (
          append_assoc (map (λ nm. date_of nm.event_time) source.measurements)
            (map (λ sc. date_of sc.event_time) source.checks)
            (map (λ fact. fact.grain.date_utc) w.facts)))

  available_dates-pos :
      (source : Operational R) (w : Warehouse R)
      → all (λ fact. leb 1 fact.grain.date_utc) w.facts ≡ true
      → all (λ date. leb 1 date) (available_dates source w) ≡ true
  unfolding available_dates date_of
  available_dates-pos source w h =
      all-append (λ date. leb 1 date) (map (λ nm. date_of nm.event_time) source.measurements) _
        (all-map (λ nm. date_of nm.event_time) (λ date. leb 1 date) source.measurements
          ∙ all-of_Mem _ source.measurements (λ nm m. ground arith))
        (all-append (λ date. leb 1 date) (map (λ sc. date_of sc.event_time) source.checks) _
          (all-map (λ sc. date_of sc.event_time) (λ date. leb 1 date) source.checks
            ∙ all-of_Mem _ source.checks (λ sc m. ground arith))
          (all-map (λ fact. fact.grain.date_utc) (λ date. leb 1 date) w.facts ∙ h))

module _ {R : Type 0} ⦃num : Number R⦄ where
  -- Without a date there is no grain, in the sources or in the warehouse.
  figure-none :
      (g : CursorKey) (source : Operational R) (w : Warehouse R)
      → member same_grain g
          (grains (all_observations source.measurements source.checks) ++ fact_grains w.facts)
        ≡ false
      → figure g (all_observations source.measurements source.checks) ≡ lookup g w.facts
  unfolding figure
  figure-none g source w h =
      let gs = grains (all_observations source.measurements source.checks) in
      let apart : (member same_grain g gs || member same_grain g (fact_grains w.facts)) ≡ false =
        sym (member-append same_grain g gs (fact_grains w.facts)) ∙ h in
      let none_there : member same_grain g gs ≡ false = ground (arith, apart) in
      let none_stored : member same_grain g (fact_grains w.facts) ≡ false = ground (arith, apart) in
      rw (none_there, lookup-absent g w.facts none_stored) refl

  resolved :
      (source : Operational R) (w : Warehouse R) (first : Date) (rest : List Date)
      → available_dates source w ≡ first ∷ rest
      → run true source everything w
        ≡ commit
            (transaction source everything (some (least first rest, greatest first rest)) w)
            (numbers_taken source (some (least first rest, greatest first rest)) w)
            w
  unfolding run with_bounds resolve_bounds bounds_of
  resolved source w first rest h = rw h refl

  -- The lookup after the refresh of a range that holds every date there is.
  lookup-all :
      (source : Operational R) (w : Warehouse R) (g : CursorKey) (first : Date) (rest : List Date)
      → available_dates source w ≡ first ∷ rest
      → 1 ≤ least first rest
      → lookup g (settled source everything (least first rest) (greatest first rest) w).facts
        ≡ figure g (all_observations source.measurements source.checks)
  lookup-all source w g first rest h low =
      let gs = grains (all_observations source.measurements source.checks) ++ fact_grains w.facts in
      let within = lookup-settled source (least first rest) (greatest first rest) w g low in
      elim (Bool-cases (between (least first rest) (greatest first rest) g.date_utc)) [
        | inl e ↦ within ∙ (rw e refl)
        | inr e ↦
            let absent : member same_grain g gs ≡ false =
              elim (Bool-cases (member same_grain g gs)) [
                | inl m ↦
                    let listed : member same_date g.date_utc (first ∷ rest) ≡ true =
                      subst (λ dates. member same_date g.date_utc dates ≡ true)
                        (sym (available_dates-grains source w) ∙ h) (member-dates g gs m) in
                    let inside = bounds-member g.date_utc first rest listed in cc
                | inr m ↦ m
              ] in
            within ∙ rw e (sym (figure-none g source w absent))
      ]

  unresolved :
      (source : Operational R) (w : Warehouse R)
      → available_dates source w ≡ []
      → run true source everything w
        ≡ commit (transaction source everything none w) (numbers_taken source none w) w
  unfolding run with_bounds resolve_bounds bounds_of
  unresolved source w h = rw h refl

  commit-facts :
      (o : Option (RefreshResult × Warehouse R)) (taken : ℕ) (w : Warehouse R)
      (facts : List (Fact R))
      → option_map (λ result. result.1.facts) o ≡ some facts
      → (commit o taken w).1.facts ≡ facts
  unfolding commit
  commit-facts none taken w facts h = cc
  commit-facts (some result) taken w facts h =
      ap (λ o. elim o [ none ↦ facts | some rows ↦ rows ]) h

  -- The figure of a grain after a refresh of everything that finds the lock free is what the
  -- sources say of it, provided that the sources refer to known agents and endpoints, and that no
  -- grain stands twice among the facts before and each has a date of at least 1.
  pub run-figure-everything :
      (source : Operational R) (w : Warehouse R) (g : CursorKey)
      → IsReferenced source
      → Unique same_grain (fact_grains w.facts)
      → all (λ fact. leb 1 fact.grain.date_utc) w.facts ≡ true
      → lookup g (run true source everything w).1.facts
        ≡ figure g (all_observations source.measurements source.checks)
  unfolding run_allowed commit
  run-figure-everything source w g s u dated = elim (List-cases (available_dates source w)) [
    | inl e ↦
        let stay =
          commit-facts (transaction source everything none w) (numbers_taken source none w) w
            w.facts (transaction-nothing source everything w s (λ i rows incidents. refl)) in
        let empty : grains (all_observations source.measurements source.checks)
              ++ fact_grains w.facts
            ≡ [] =
          nil_of_map (λ k. k.date_utc) _ (sym (available_dates-grains source w) ∙ e) in
        rw (unresolved source w e, stay)
          (sym (figure-none g source w (ap (λ gs. member same_grain g gs) empty)))
    | inr (first, rest, e) ↦
        let positive : all (λ date. leb 1 date) (first ∷ rest) ≡ true =
          subst (λ dates. all (λ date. leb 1 date) dates ≡ true) e
            (available_dates-pos source w dated) in
        let low : 1 ≤ least first rest =
          least-pos first rest (ground (arith, positive)) (and-right (leb 1 first) _ positive) in
        rw
          (
            resolved source w first rest e,
            transaction-settled source everything (least first rest) (greatest first rest) w s low u
                (λ i rows incidents. refl),
          )
          (lookup-all source w g first rest e low)
  ]
