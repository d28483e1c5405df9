-- ===== src/Analytics/Sources/Figures.antt =====
-- The daily figures meet the CHECK constraints of `fact_reliability_daily`.
use local_network_kafka_moni.Base.{
  ◌+◌, ◌≤◌, ◌<◌, Bool, true, not, List, [], ◌∷◌, map, Option, ◌≡◌, refl, sym, ◌∙◌, inl, inr, length,
  filter, Bool-cases, Option-cases, arith, ltb, leb, ◌==◌, le→leb, lt→ltb, all,
}
use local_network_kafka_moni.Base.Number.{Number}
use local_network_kafka_moni.Base.Grouping.{member, distinct, all-map_member, member-distinct}
use local_network_kafka_moni.Query.Models.{CursorKey}
use local_network_kafka_moni.Analytics.Sources.{
  Observation, same_grain, present, sum_of, aggregate, group_by_grain,
}
use local_network_kafka_moni.Analytics.Sources.Grain.{grain-IsEquality}
use local_network_kafka_moni.Analytics.Warehouse.{null_when_empty, satisfies_checks}

length-filter-split :
    {A : Type 0} (p : A → Bool) (xs : List A)
    → length (filter p xs) + length (filter (λ x. not (p x)) xs) ≡ length xs
length-filter-split p [] = refl
length-filter-split p (x ∷ xs) = elim (Bool-cases (p x)) [
  | inl e ↦ rw e (omega (arith, length-filter-split p xs))
  | inr e ↦ rw e (omega (arith, length-filter-split p xs))
]

length-present-le :
    {R A : Type 0} (f : A → Option R) (xs : List A) → length (present (map f xs)) ≤ length xs
unfolding present
length-present-le f [] = omega arith
length-present-le f (x ∷ xs) = elim (Option-cases (f x)) [
  | inl e ↦ rw e (omega (arith, length-present-le f xs))
  | inr (value, e) ↦ rw e (omega (arith, length-present-le f xs))
]

module _ {R : Type 0} ⦃num : Number R⦄ where
  null-sum_of : (values : List R) → null_when_empty (length values) (sum_of values) ≡ true
  unfolding null_when_empty sum_of
  null-sum_of [] = refl
  null-sum_of (value ∷ values) = ground arith

  pub filter_grain-pos :
      (g : CursorKey) (rows : List (Observation R))
      → member same_grain g (map (λ row. row.grain) rows) ≡ true
      → 0 < length (filter (λ row. same_grain row.grain g) rows)
  filter_grain-pos g [] h = cc
  filter_grain-pos g (row ∷ rows) h = elim (Bool-cases (same_grain row.grain g)) [
    | inl e ↦ rw e (omega arith)
    | inr e ↦ rw e (filter_grain-pos g rows (ground (arith, h)))
  ]

  aggregate-checks :
      (g : CursorKey) (rows : List (Observation R))
      → member same_grain g (map (λ row. row.grain) rows) ≡ true
      → satisfies_checks (aggregate g rows) ≡ true
  unfolding satisfies_checks aggregate
  aggregate-checks g rows h =
      let members = filter (λ row. same_grain row.grain g) rows in
      let some_row : ltb 0 (length members) ≡ true = lt→ltb _ _ (filter_grain-pos g rows h) in
      let split : (length (filter (λ row. row.success) members)
              + length (filter (λ row. not row.success) members)
            == length members)
          ≡ true =
        ground (arith, length-filter-split (λ row. row.success) members) in
      let latencies : leb (length (present (map (λ row. row.latency_ms) members))) (length members)
          ≡ true =
        le→leb _ _ (length-present-le (λ row. row.latency_ms) members) in
      let losses : leb (length (present (map (λ row. row.packet_loss_pct) members)))
            (length members)
          ≡ true =
        le→leb _ _ (length-present-le (λ row. row.packet_loss_pct) members) in
      rw
        (
          some_row,
          split,
          latencies,
          losses,
          null-sum_of (present (map (λ row. row.latency_ms) members)),
          null-sum_of (present (map (λ row. row.packet_loss_pct) members)),
        )
        refl

  -- Every row that the query inserts is one that the table accepts.
  pub group_by_grain-checks :
      (rows : List (Observation R)) → all satisfies_checks (group_by_grain rows) ≡ true
  unfolding group_by_grain
  group_by_grain-checks rows =
      let keys = map (λ row. row.grain) rows in
      all-map_member same_grain grain-IsEquality (λ g. aggregate g rows) satisfies_checks
        (distinct same_grain keys)
        (λ g h.
          aggregate-checks g rows (sym (member-distinct same_grain grain-IsEquality g keys) ∙ h))
