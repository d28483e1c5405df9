-- ===== src/Analytics/Reconcile/Daily.antt =====
-- What it means for the facts that the reconciliation of the daily figures reports no mismatch.
use local_network_kafka_moni.Base.{
  ◌≤◌, Bool, true, false, not, List, [], ◌∷◌, Option, none, some, ◌≡◌, refl, sym, ap, ◌∙◌, subst,
  all, any, length, filter, arith, inl, inr, Bool-cases, and-left, and-right,
}
use local_network_kafka_moni.Base.Number.{Number}
use local_network_kafka_moni.Base.Grouping.{equality_sym, all-append_left, all-append_right}
use local_network_kafka_moni.Query.Models.{Date, CursorKey}
use local_network_kafka_moni.Analytics.Models.{DateRange}
use local_network_kafka_moni.Analytics.Sources.{Fact, between, same_grain, observations}
use local_network_kafka_moni.Analytics.Sources.Grain.{grain-IsEquality, eq_of_grain}
use local_network_kafka_moni.Analytics.Warehouse.{Operational, Warehouse}
use local_network_kafka_moni.Analytics.Refresh.Lookup.{
  lookup, all_observations, observations-filter, lookup-filter, figure, lookup-group_by_grain,
  figure-filter,
}
use local_network_kafka_moni.Analytics.Reconcile.{
  matches, pair_with, left_rows, right_rows, full_join, daily_mismatch, is_distinct, same_number,
  expected_daily, actual_daily, daily_comparison, reconcile,
}

pub all-of_count :
    {A : Type 0} (p : A → Bool) (xs : List A)
    → length (filter p xs) ≡ 0
    → all (λ x. not (p x)) xs ≡ true
all-of_count p [] h = refl
all-of_count p (x ∷ xs) h = elim (Bool-cases (p x)) [
  | inl e ↦
      let one_more : length (filter p (x ∷ xs)) ≡ length (x ∷ filter p xs) = rw e refl in
      ground (arith, sym one_more ∙ h)
  | inr e ↦
      let the_rest : length (filter p (x ∷ xs)) ≡ length (filter p xs) = rw e refl in
      rw (e, all-of_count p xs (sym the_rest ∙ h)) refl
]

pub count-of_all :
    {A : Type 0} (p : A → Bool) (xs : List A)
    → all (λ x. not (p x)) xs ≡ true
    → length (filter p xs) ≡ 0
count-of_all p [] h = refl
count-of_all p (x ∷ xs) h = elim (Bool-cases (p x)) [
  | inl e ↦ ground (arith, h)
  | inr e ↦ rw e (count-of_all p xs (and-right (not (p x)) _ h))
]

unfoldable pub first : {A : Type 0} → List A → Option A
first [] = none
first (x ∷ xs) = some x

module _ {R : Type 0} where
  lookup-first :
      (g : CursorKey) (facts : List (Fact R))
      → lookup g facts ≡ first (filter (λ fact. same_grain fact.grain g) facts)
  unfolding lookup first
  lookup-first g [] = refl
  lookup-first g (fact ∷ facts) = elim (Bool-cases (same_grain fact.grain g)) [
    | inl e ↦ rw e refl
    | inr e ↦ rw e (lookup-first g facts)
  ]

  pub lookup-matches :
      (g : CursorKey) (x : Fact R) (ys : List (Fact R))
      → x.grain ≡ g
      → lookup g ys ≡ first (matches same_grain (λ fact. fact.grain) (λ fact. fact.grain) x ys)
  unfolding matches
  lookup-matches g x ys e =
      lookup-first g ys ∙ ap (λ k. first (filter (λ fact. same_grain fact.grain k) ys)) (sym e)

  -- No row has a grain that is not found.
  pub any-lookup :
      (g : CursorKey) (xs : List (Fact R))
      → lookup g xs ≡ none
      → any (λ x. same_grain g x.grain) xs ≡ false
  unfolding lookup
  any-lookup g [] h = refl
  any-lookup g (x ∷ xs) h = elim (Bool-cases (same_grain x.grain g)) [
    | inl e ↦ let found : lookup g (x ∷ xs) ≡ some x = rw e refl in cc
    | inr e ↦
        let rest : lookup g (x ∷ xs) ≡ lookup g xs = rw e refl in
        rw (equality_sym same_grain grain-IsEquality g x.grain ∙ e) (any-lookup g xs (sym rest ∙ h))
  ]

module _ {R : Type 0} ⦃num : Number R⦄ where
  abbrev agreed : (Option (Fact R)) × (Option (Fact R)) → Bool
  agreed pair = not (daily_mismatch pair)

  -- Two figures of a grain, or two missing ones.
  unfoldable agrees : Option (Fact R) → Option (Fact R) → Bool
  unfolding daily_mismatch
  agrees none none = true
  agrees none (some actual) = false
  agrees (some expected) actual = not (daily_mismatch (some expected, actual))

  pair-agreed :
      (x : Fact R) (ms : List (Fact R))
      → all agreed (pair_with x ms) ≡ true
      → agrees (some x) (first ms) ≡ true
  unfolding pair_with agrees first
  pair-agreed x [] h = and-left _ true h
  pair-agreed x (m ∷ ms) h = and-left _ _ h

  -- The agreement of a grain, from that of the pairs of the rows of the left side and of the rows that it lacks.
  left-agrees :
      (g : CursorKey) (xs ys : List (Fact R))
      → all agreed (left_rows same_grain (λ fact. fact.grain) (λ fact. fact.grain) xs ys) ≡ true
      → (lookup g xs ≡ none → lookup g ys ≡ none)
      → agrees (lookup g xs) (lookup g ys) ≡ true
  unfolding left_rows lookup agrees
  left-agrees g [] ys h k = rw (k refl) refl
  left-agrees g (x ∷ xs) ys h k =
      let ms = matches same_grain (λ fact. fact.grain) (λ fact. fact.grain) x ys in
      elim (Bool-cases (same_grain x.grain g)) [
        | inl e ↦
            let own : agrees (some x) (first ms) ≡ true =
              pair-agreed x ms (all-append_left agreed (pair_with x ms) _ h) in
            let there : lookup g ys ≡ first ms = lookup-matches g x ys (eq_of_grain x.grain g e) in
            rw (e, there) own
        | inr e ↦
            let skip : lookup g (x ∷ xs) ≡ lookup g xs = rw e refl in
            rw e (
              left-agrees g xs ys (all-append_right agreed (pair_with x ms) _ h)
                (λ m. k (skip ∙ m)))
      ]

  right-none :
      (g : CursorKey) (xs ys : List (Fact R))
      → all agreed (right_rows same_grain (λ fact. fact.grain) (λ fact. fact.grain) xs ys) ≡ true
      → lookup g xs ≡ none
      → lookup g ys ≡ none
  unfolding right_rows lookup daily_mismatch
  right-none g xs [] h k = refl
  right-none g xs (y ∷ ys) h k = elim (Bool-cases (any (λ x. same_grain y.grain x.grain) xs)) [
    | inl e ↦
        let rest : right_rows same_grain (λ fact. fact.grain) (λ fact. fact.grain) xs (y ∷ ys)
            ≡ right_rows same_grain (λ fact. fact.grain) (λ fact. fact.grain) xs ys =
          rw e refl in
        let other : same_grain y.grain g ≡ false = elim (Bool-cases (same_grain y.grain g)) [
          | inl m ↦
              let at : y.grain ≡ g = eq_of_grain y.grain g m in
              let there = subst (λ b. any (λ x. same_grain b x.grain) xs ≡ true) at e in
              let nowhere = any-lookup g xs k in cc
          | inr m ↦ m
        ] in
        rw other (right-none g xs ys (subst (λ l. all agreed l ≡ true) rest h) k)
    | inr e ↦
        let lonely : right_rows same_grain (λ fact. fact.grain) (λ fact. fact.grain) xs (y ∷ ys)
            ≡ (none, some y)
              ∷ right_rows same_grain (λ fact. fact.grain) (λ fact. fact.grain) xs ys =
          rw e refl in
        let wrong = subst (λ l. all agreed l ≡ true) lonely h in cc
  ]

  -- The expected figure of a grain within the range.
  pub lookup-expected :
      (source : Operational R) (from through : Date) (g : CursorKey)
      → 1 ≤ from
      → between from through g.date_utc ≡ true
      → lookup g (expected_daily source from through)
        ≡ figure g (all_observations source.measurements source.checks)
  unfolding expected_daily
  lookup-expected source from through g h inside =
      lookup-group_by_grain g (observations from through source.measurements source.checks)
      ∙ ap (λ rows. figure g rows)
          (observations-filter from through source.measurements source.checks h)
      ∙ figure-filter (between from through) g (all_observations source.measurements source.checks)
          inside

  pub lookup-actual :
      (w : Warehouse R) (from through : Date) (g : CursorKey)
      → between from through g.date_utc ≡ true
      → lookup g (actual_daily w from through) ≡ lookup g w.facts
  unfolding actual_daily
  lookup-actual w from through g inside =
      lookup-filter (between from through) g w.facts ∙ (rw inside refl)

  -- Two sums that are equal as floats, or both NULL.
  abbrev pub SameSum : Option R → Option R → Type 0
  SameSum none none = Unit
  SameSum none (some b) = false ≡ true
  SameSum (some a) none = false ≡ true
  SameSum (some a) (some b) = (num.leb a b ≡ true) × (num.leb b a ≡ true)

  -- The counts of two rows are equal, and so are their sums.
  pub record SameFigures (expected actual : Fact R) : Type 0 where
    pub total : expected.total_count ≡ actual.total_count
    pub successes : expected.success_count ≡ actual.success_count
    pub failures : expected.failure_count ≡ actual.failure_count
    pub latencies : expected.latency_count ≡ actual.latency_count
    pub latency_sum : SameSum expected.latency_sum_ms actual.latency_sum_ms
    pub losses : expected.packet_loss_count ≡ actual.packet_loss_count
    pub loss_sum : SameSum expected.packet_loss_sum_pct actual.packet_loss_sum_pct

  -- Two rows with the same figures, or none on either side.
  abbrev pub SameRows : Option (Fact R) → Option (Fact R) → Type 0
  SameRows none none = Unit
  SameRows none (some actual) = false ≡ true
  SameRows (some expected) none = false ≡ true
  SameRows (some expected) (some actual) = SameFigures expected actual

  is_distinct-SameSum : (a b : Option R) → is_distinct same_number a b ≡ false → SameSum a b
  unfolding is_distinct same_number
  is_distinct-SameSum none none h = tt
  is_distinct-SameSum none (some b) h = sym h
  is_distinct-SameSum (some a) none h = sym h
  is_distinct-SameSum (some a) (some b) h = (ground (arith, h), ground (arith, h))

  agrees-SameRows : (e a : Option (Fact R)) → agrees e a ≡ true → SameRows e a
  unfolding agrees daily_mismatch
  agrees-SameRows none none h = tt
  agrees-SameRows none (some a) h = h
  agrees-SameRows (some e) none h = h
  agrees-SameRows (some e) (some a) h = record {
    total = ground (arith, h);
    successes = ground (arith, h);
    failures = ground (arith, h);
    latencies = ground (arith, h);
    latency_sum = is_distinct-SameSum e.latency_sum_ms a.latency_sum_ms (ground (arith, h));
    losses = ground (arith, h);
    loss_sum = is_distinct-SameSum e.packet_loss_sum_pct a.packet_loss_sum_pct (ground (arith, h));
  }

  -- When the reconciliation of a range reports no daily mismatch, then for every grain with a date in the range the facts
  -- hold a row exactly when the sources have observations of it, and then each of its five counts is that of the sources,
  -- and each of its two sums is equal to theirs or missing in both; the facts, unlike those after a refresh, may be any.
  pub reconcile-agrees :
      (source : Operational R) (w : Warehouse R) (selected : DateRange) (g : CursorKey)
      → 1 ≤ selected.from_date
      → between selected.from_date selected.through_date g.date_utc ≡ true
      → (reconcile source w selected).daily_mismatch_rows ≡ 0
      → SameRows (figure g (all_observations source.measurements source.checks)) (lookup g w.facts)
  unfolding reconcile daily_comparison full_join
  reconcile-agrees source w selected g h inside none_reported =
      let expected = expected_daily source selected.from_date selected.through_date in
      let actual = actual_daily w selected.from_date selected.through_date in
      let fine =
        all-of_count (daily_mismatch {R = R})
          (daily_comparison source w selected.from_date selected.through_date) none_reported in
      let left =
        all-append_left agreed
          (left_rows same_grain (λ fact. fact.grain) (λ fact. fact.grain) expected actual) _ fine in
      let right =
        all-append_right agreed
          (left_rows same_grain (λ fact. fact.grain) (λ fact. fact.grain) expected actual) _ fine in
      let both = left-agrees g expected actual left (right-none g expected actual right) in
      agrees-SameRows _ _ (
        rw
          (
            sym (lookup-expected source selected.from_date selected.through_date g h inside),
            sym (lookup-actual w selected.from_date selected.through_date g inside),
          )
          both)
