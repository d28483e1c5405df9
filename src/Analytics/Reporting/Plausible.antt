-- ===== src/Analytics/Reporting/Plausible.antt =====
-- What makes a row of the view plausible, apart from the condition of the validation.
use local_network_kafka_moni.Base.{
  ℕ, ◌+◌, true, false, not, ◌&&◌, Option, none, some, ◌==◌, ◌⊎◌, ◌↔◌, inl, inr, Bool-cases,
  if◌then◌else◌, All, List, [], ◌∷◌, map, ◌≡◌, refl, length, filter, arith,
}
use local_network_kafka_moni.Base.Number.{Number}
use local_network_kafka_moni.Analytics.Sources.{Fact}
use local_network_kafka_moni.Analytics.Reporting.{
  Quotients, view_row, is_invalid, mean_of, outside_hundred, is_negative,
}

module _ {R : Type 0} ⦃num : Number R⦄ where
  abbrev pub WithinHundred : R → Type 0
  WithinHundred value = (num.leb (num.of_ℕ 0) value ≡ true) × (num.leb value (num.of_ℕ 100) ≡ true)

  -- A mean, where there is one, has a property.
  abbrev pub MeanIs : (R → Type 0) → Quotients R → Option R → ℕ → Type 0
  MeanIs P quotients none count = Unit
  MeanIs P quotients (some sum) count = (count ≡ 0) ⊎ P (quotients.mean sum count)

  -- The counts of a fact add up, its rate and its mean loss are between 0 and 100, and its mean latency is not negative.
  pub record IsPlausible (quotients : Quotients R) (fact : Fact R) : Type 0 where
    pub counts : fact.total_count ≡ fact.success_count + fact.failure_count
    pub rate :
        (fact.total_count ≡ 0)
        ⊎ WithinHundred (quotients.percentage fact.success_count fact.total_count)
    pub latency :
        MeanIs
          (λ value. num.leb (num.of_ℕ 0) value ≡ true)
          quotients
          fact.latency_sum_ms
          fact.latency_count
    pub loss : MeanIs WithinHundred quotients fact.packet_loss_sum_pct fact.packet_loss_count

  WithinHundred-of_outside :
      (quotients : Quotients R) (sum : Option R) (count : ℕ)
      → outside_hundred (mean_of quotients sum count) ≡ false
      → MeanIs WithinHundred quotients sum count
  unfolding outside_hundred mean_of
  WithinHundred-of_outside quotients none count h = tt
  WithinHundred-of_outside quotients (some sum) count h = elim (Bool-cases (count == 0)) [
    | inl e ↦ inl (ground (arith, e))
    | inr e ↦
        let k : not (
              num.leb (num.of_ℕ 0) (quotients.mean sum count)
              && num.leb (quotients.mean sum count) (num.of_ℕ 100))
            ≡ false =
          rw e at h in
        inr (ground (arith, k), ground (arith, k))
  ]

  outside-WithinHundred :
      (quotients : Quotients R) (sum : Option R) (count : ℕ)
      → MeanIs WithinHundred quotients sum count
      → outside_hundred (mean_of quotients sum count) ≡ false
  unfolding outside_hundred mean_of
  outside-WithinHundred quotients none count h = refl
  outside-WithinHundred quotients (some sum) count (inl e) = rw e refl
  outside-WithinHundred quotients (some sum) count (inr (low, high)) =
      elim (Bool-cases (count == 0)) [ inl e ↦ rw e refl | inr e ↦ rw (e, low, high) refl ]

  nonneg-of_mean :
      (quotients : Quotients R) (sum : Option R) (count : ℕ)
      → is_negative (mean_of quotients sum count) ≡ false
      → MeanIs (λ value. num.leb (num.of_ℕ 0) value ≡ true) quotients sum count
  unfolding is_negative mean_of
  nonneg-of_mean quotients none count h = tt
  nonneg-of_mean quotients (some sum) count h = elim (Bool-cases (count == 0)) [
    | inl e ↦ inl (ground (arith, e))
    | inr e ↦
        let k : not (num.leb (num.of_ℕ 0) (quotients.mean sum count)) ≡ false = rw e at h in
        inr (ground (arith, k))
  ]

  mean-of_nonneg :
      (quotients : Quotients R) (sum : Option R) (count : ℕ)
      → MeanIs (λ value. num.leb (num.of_ℕ 0) value ≡ true) quotients sum count
      → is_negative (mean_of quotients sum count) ≡ false
  unfolding is_negative mean_of
  mean-of_nonneg quotients none count h = refl
  mean-of_nonneg quotients (some sum) count (inl e) = rw e refl
  mean-of_nonneg quotients (some sum) count (inr low) = elim (Bool-cases (count == 0)) [
    | inl e ↦ rw e refl
    | inr e ↦ rw (e, low) refl
  ]

  rate-of_outside :
      (quotients : Quotients R) (total successes : ℕ)
      → outside_hundred (if total == 0 then none else some (quotients.percentage successes total))
        ≡ false
      → (total ≡ 0) ⊎ WithinHundred (quotients.percentage successes total)
  unfolding outside_hundred
  rate-of_outside quotients total successes h = elim (Bool-cases (total == 0)) [
    | inl e ↦ inl (ground (arith, e))
    | inr e ↦
        let k : not (
              num.leb (num.of_ℕ 0) (quotients.percentage successes total)
              && num.leb (quotients.percentage successes total) (num.of_ℕ 100))
            ≡ false =
          rw e at h in
        inr (ground (arith, k), ground (arith, k))
  ]

  outside-of_rate :
      (quotients : Quotients R) (total successes : ℕ)
      → (total ≡ 0) ⊎ WithinHundred (quotients.percentage successes total)
      → outside_hundred (if total == 0 then none else some (quotients.percentage successes total))
        ≡ false
  unfolding outside_hundred
  outside-of_rate quotients total successes (inl e) = rw e refl
  outside-of_rate quotients total successes (inr (low, high)) = elim (Bool-cases (total == 0)) [
    | inl e ↦ rw e refl
    | inr e ↦ rw (e, low, high) refl
  ]

  IsPlausible-of_row :
      (quotients : Quotients R) (fact : Fact R)
      → is_invalid (view_row quotients fact) ≡ false
      → IsPlausible quotients fact
  unfolding is_invalid view_row
  IsPlausible-of_row quotients fact h = record {
    counts = ground (arith, h);
    rate = rate-of_outside quotients fact.total_count fact.success_count (ground (arith, h));
    latency = nonneg-of_mean quotients fact.latency_sum_ms fact.latency_count (ground (arith, h));
    loss =
        WithinHundred-of_outside quotients fact.packet_loss_sum_pct fact.packet_loss_count
          (ground (arith, h));
  }

  row-IsPlausible :
      (quotients : Quotients R) (fact : Fact R)
      → IsPlausible quotients fact
      → is_invalid (view_row quotients fact) ≡ false
  unfolding is_invalid view_row
  row-IsPlausible quotients fact p =
      rw
        (
          outside-of_rate quotients fact.total_count fact.success_count p.rate,
          mean-of_nonneg quotients fact.latency_sum_ms fact.latency_count p.latency,
          outside-WithinHundred quotients fact.packet_loss_sum_pct fact.packet_loss_count p.loss,
        )
        (ground (arith, p.counts))

  pub none_invalid-All :
      (quotients : Quotients R) (facts : List (Fact R))
      → (length (filter is_invalid (map (view_row quotients) facts)) ≡ 0)
        ↔ All (IsPlausible quotients) facts
  none_invalid-All quotients [] = ((λ h. tt), (λ h. refl))
  none_invalid-All quotients (fact ∷ facts) =
      let rest = none_invalid-All quotients facts in
      elim (Bool-cases (is_invalid (view_row quotients fact))) [
        | inl e ↦ (
          (λ h.
              let k : length
                    (view_row quotients fact ∷ filter is_invalid (map (view_row quotients) facts))
                  ≡ 0 =
                rw e at h in
              ground (arith, k)),
          (λ h. let good = row-IsPlausible quotients fact h.0 in cc),
        )
        | inr e ↦ (
          (λ h. (IsPlausible-of_row quotients fact e, rest.0 (rw e at h))),
          (λ h. rw e (rest.1 h.1)),
        )
      ]
