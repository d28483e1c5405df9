-- ===== src/Analytics/Refresh/Lookup.antt =====
-- The daily facts as a function of their grain, and what a refresh of a range of dates makes of it.
use local_network_kafka_moni.Base.{
  ◌≤◌, Bool, true, false, List, [], ◌∷◌, ◌++◌, map, Option, none, some, ◌≡◌, refl, sym, ap, ◌∙◌,
  inl, inr, filter, filter-append, if◌then◌else◌, Bool-cases,
}
use local_network_kafka_moni.Base.Number.{Number}
use local_network_kafka_moni.Base.Grouping.{member, distinct, member-distinct}
use local_network_kafka_moni.Query.Models.{Date, CursorKey}
use local_network_kafka_moni.Analytics.Sources.{
  Measurement, ServiceCheck, Observation, Fact, in_window, between, same_grain, of_measurement,
  of_check, observations, aggregate, group_by_grain,
}
use local_network_kafka_moni.Analytics.Sources.Grain.{
  grain-IsEquality, eq_of_grain, in_window-between,
}

module _ {R : Type 0} where
  -- The row of a grain.
  unfoldable pub lookup : CursorKey → List (Fact R) → Option (Fact R)
  lookup grain [] = none
  lookup grain (fact ∷ facts) =
      if same_grain fact.grain grain then some fact else lookup grain facts

  unfoldable pub all_observations :
      List (Measurement R) → List (ServiceCheck R) → List (Observation R)
  unfolding of_measurement of_check
  all_observations measurements checks = map of_measurement measurements ++ map of_check checks

  -- The grains of the observations, in the order of the first ones.
  unfoldable pub grains : List (Observation R) → List CursorKey
  grains rows = map (λ row. row.grain) rows

  map-filter_measurements :
      (from through : Date) (ms : List (Measurement R))
      → 1 ≤ from
      → map of_measurement (filter (λ nm. in_window from through nm.event_time) ms)
        ≡ filter (λ row. between from through row.grain.date_utc) (map of_measurement ms)
  unfolding of_measurement
  map-filter_measurements from through [] h = refl
  map-filter_measurements from through (nm ∷ ms) h =
      let same_test = in_window-between from through nm.event_time h in
      elim (Bool-cases (in_window from through nm.event_time)) [
        | inl e ↦ rw (e, sym same_test ∙ e, map-filter_measurements from through ms h) refl
        | inr e ↦ rw (e, sym same_test ∙ e, map-filter_measurements from through ms h) refl
      ]

  map-filter_checks :
      (from through : Date) (cs : List (ServiceCheck R))
      → 1 ≤ from
      → map of_check (filter (λ sc. in_window from through sc.event_time) cs)
        ≡ filter (λ row. between from through row.grain.date_utc) (map of_check cs)
  unfolding of_check
  map-filter_checks from through [] h = refl
  map-filter_checks from through (sc ∷ cs) h =
      let same_test = in_window-between from through sc.event_time h in
      elim (Bool-cases (in_window from through sc.event_time)) [
        | inl e ↦ rw (e, sym same_test ∙ e, map-filter_checks from through cs h) refl
        | inr e ↦ rw (e, sym same_test ∙ e, map-filter_checks from through cs h) refl
      ]

  -- The window of times is the range of dates.
  pub observations-filter :
      (from through : Date) (ms : List (Measurement R)) (cs : List (ServiceCheck R))
      → 1 ≤ from
      → observations from through ms cs
        ≡ filter (λ row. between from through row.grain.date_utc) (all_observations ms cs)
  unfolding observations all_observations
  observations-filter from through ms cs h =
      rw (map-filter_measurements from through ms h, map-filter_checks from through cs h)
        (sym (
          filter-append (λ row. between from through row.grain.date_utc) (map of_measurement ms)
            (map of_check cs)))

  pub lookup-append :
      (g : CursorKey) (xs ys : List (Fact R))
      → lookup g (xs ++ ys) ≡ (elim (lookup g xs) [ none ↦ lookup g ys | some fact ↦ some fact ])
  unfolding lookup
  lookup-append g [] ys = refl
  lookup-append g (x ∷ xs) ys = elim (Bool-cases (same_grain x.grain g)) [
    | inl e ↦ rw e refl
    | inr e ↦ rw e (lookup-append g xs ys)
  ]

  -- A test of the date keeps or removes all rows of a grain.
  pub lookup-filter :
      (p : Date → Bool) (g : CursorKey) (xs : List (Fact R))
      → lookup g (filter (λ fact. p fact.grain.date_utc) xs)
        ≡ (if p g.date_utc then lookup g xs else none)
  unfolding lookup
  lookup-filter p g [] = elim (Bool-cases (p g.date_utc)) [ inl e ↦ rw e refl | inr e ↦ rw e refl ]
  lookup-filter p g (x ∷ xs) = elim (Bool-cases (same_grain x.grain g)) [
    | inl e ↦
        let at : x.grain ≡ g = eq_of_grain x.grain g e in
        let same_date : p x.grain.date_utc ≡ p g.date_utc = ap (λ k. p k.date_utc) at in
        elim (Bool-cases (p g.date_utc)) [
          | inl k ↦ rw (same_date ∙ k, k, e) refl
          | inr k ↦ rw (same_date ∙ k, k) (lookup-filter p g xs ∙ (rw k refl))
        ]
    | inr e ↦ elim (Bool-cases (p x.grain.date_utc)) [
      | inl k ↦ rw (k, e) (lookup-filter p g xs)
      | inr k ↦ rw (k, e) (lookup-filter p g xs)
    ]
  ]

  filter-filter_grain :
      (p : Date → Bool) (g : CursorKey) (rows : List (Observation R))
      → p g.date_utc ≡ true
      → filter (λ row. same_grain row.grain g) (filter (λ row. p row.grain.date_utc) rows)
        ≡ filter (λ row. same_grain row.grain g) rows
  filter-filter_grain p g [] h = refl
  filter-filter_grain p g (row ∷ rows) h = elim (Bool-cases (same_grain row.grain g)) [
    | inl e ↦
        let kept : p row.grain.date_utc ≡ true =
          ap (λ k. p k.date_utc) (eq_of_grain row.grain g e) ∙ h in
        rw (kept, e, filter-filter_grain p g rows h) refl
    | inr e ↦ elim (Bool-cases (p row.grain.date_utc)) [
      | inl k ↦ rw (k, e, filter-filter_grain p g rows h) refl
      | inr k ↦ rw (k, e, filter-filter_grain p g rows h) refl
    ]
  ]

  member-grains-filter :
      (p : Date → Bool) (g : CursorKey) (rows : List (Observation R))
      → p g.date_utc ≡ true
      → member same_grain g (grains (filter (λ row. p row.grain.date_utc) rows))
        ≡ member same_grain g (grains rows)
  unfolding grains
  member-grains-filter p g [] h = refl
  member-grains-filter p g (row ∷ rows) h = elim (Bool-cases (same_grain row.grain g)) [
    | inl e ↦
        let kept : p row.grain.date_utc ≡ true =
          ap (λ k. p k.date_utc) (eq_of_grain row.grain g e) ∙ h in
        rw (kept, e) refl
    | inr e ↦ elim (Bool-cases (p row.grain.date_utc)) [
      | inl k ↦ rw (k, e) (member-grains-filter p g rows h)
      | inr k ↦ rw (k, e) (member-grains-filter p g rows h)
    ]
  ]

  member-grains-filter_out :
      (p : Date → Bool) (g : CursorKey) (rows : List (Observation R))
      → p g.date_utc ≡ false
      → member same_grain g (grains (filter (λ row. p row.grain.date_utc) rows)) ≡ false
  unfolding grains
  member-grains-filter_out p g [] h = refl
  member-grains-filter_out p g (row ∷ rows) h = elim (Bool-cases (same_grain row.grain g)) [
    | inl e ↦
        let gone : p row.grain.date_utc ≡ false =
          ap (λ k. p k.date_utc) (eq_of_grain row.grain g e) ∙ h in
        rw gone (member-grains-filter_out p g rows h)
    | inr e ↦ elim (Bool-cases (p row.grain.date_utc)) [
      | inl k ↦ rw (k, e) (member-grains-filter_out p g rows h)
      | inr k ↦ rw k (member-grains-filter_out p g rows h)
    ]
  ]

module _ {R : Type 0} ⦃num : Number R⦄ where
  pub lookup-map-aggregate :
      (g : CursorKey) (rows : List (Observation R)) (keys : List CursorKey)
      → lookup g (map (λ grain. aggregate grain rows) keys)
        ≡ (if member same_grain g keys then some (aggregate g rows) else none)
  unfolding lookup aggregate
  lookup-map-aggregate g rows [] = refl
  lookup-map-aggregate g rows (key ∷ keys) = elim (Bool-cases (same_grain key g)) [
    | inl e ↦ rw e (ap (λ k. some (aggregate k rows)) (eq_of_grain key g e))
    | inr e ↦ rw e (lookup-map-aggregate g rows keys)
  ]

  -- What the sources say of a grain.
  unfoldable pub figure : CursorKey → List (Observation R) → Option (Fact R)
  unfolding grains
  figure g rows = if member same_grain g (grains rows) then some (aggregate g rows) else none

  pub lookup-group_by_grain :
      (g : CursorKey) (rows : List (Observation R)) → lookup g (group_by_grain rows) ≡ figure g rows
  unfolding group_by_grain figure
  lookup-group_by_grain g rows =
      lookup-map-aggregate g rows (distinct same_grain (grains rows))
      ∙ ap (λ t. if t then some (aggregate g rows) else none)
          (member-distinct same_grain grain-IsEquality g (grains rows))

  pub figure-filter :
      (p : Date → Bool) (g : CursorKey) (rows : List (Observation R))
      → p g.date_utc ≡ true
      → figure g (filter (λ row. p row.grain.date_utc) rows) ≡ figure g rows
  unfolding figure aggregate
  figure-filter p g rows h =
      rw (member-grains-filter p g rows h, filter-filter_grain p g rows h) refl

  pub figure-filter_out :
      (p : Date → Bool) (g : CursorKey) (rows : List (Observation R))
      → p g.date_utc ≡ false
      → figure g (filter (λ row. p row.grain.date_utc) rows) ≡ none
  unfolding figure
  figure-filter_out p g rows h = rw (member-grains-filter_out p g rows h) refl
