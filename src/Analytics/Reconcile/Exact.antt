-- ===== src/Analytics/Reconcile/Exact.antt =====
-- When the reconciliation of the daily figures reports no mismatch, for sources that a statement may read in another order.
use local_network_kafka_moni.Base.{
  ◌≤◌, Bool, true, false, not, List, [], ◌∷◌, map, Option, none, some, ◌≡◌, refl, sym, ap, ◌∙◌,
  subst, all, any, length, filter, arith, inl, inr, Bool-cases, Option-cases, and-left, and-right,
  Memᴰ, All-filter_mem, All-member,
}
use local_network_kafka_moni.Base.Number.{Number}
use local_network_kafka_moni.Base.Grouping.{
  Unique, distinct-Unique, filter-Unique, filter-map, all-append,
}
use local_network_kafka_moni.Query.Models.{Date, CursorKey}
use local_network_kafka_moni.Analytics.Sources.{Fact, between, same_grain, observations}
use local_network_kafka_moni.Analytics.Sources.Grain.{grain-IsEquality, eq_of_grain}
use local_network_kafka_moni.Analytics.Warehouse.{Operational, Warehouse}
use local_network_kafka_moni.Analytics.Refresh.{run}
use local_network_kafka_moni.Analytics.Refresh.Lookup.{lookup, all_observations, figure, grains}
use local_network_kafka_moni.Analytics.Refresh.References.{IsReferenced}
use local_network_kafka_moni.Analytics.Refresh.Succeeds.{
  fact_grains, fresh, refreshed-Unique, fresh-between, grains-group_by_grain,
}
use local_network_kafka_moni.Analytics.Refresh.Figures.{range, run-settled, run-figure}
use local_network_kafka_moni.Analytics.Reconcile.{
  matches, pair_with, left_rows, right_rows, full_join, is_distinct, same_number, daily_mismatch,
  expected_daily, actual_daily, daily_comparison, reconcile,
}
use local_network_kafka_moni.Analytics.Reconcile.Join.{matches_self, any-Mem}
use local_network_kafka_moni.Analytics.Reconcile.Daily.{
  first, count-of_all, lookup-matches, lookup-expected, lookup-actual, SameSum, SameFigures,
  SameRows,
}

all-found :
    {A B : Type 0} (p : B → Bool) (f : A → B) (xs : List A) (x : A)
    → all p (map f xs) ≡ true
    → Memᴰ x xs
    → p (f x) ≡ true
all-found p f [] x h m = elim m [ ]
all-found p f (y ∷ ys) x h (Memᴰ.head e) =
    subst (λ z. p (f z) ≡ true) (sym e) (and-left (p (f y)) _ h)
all-found p f (y ∷ ys) x h (Memᴰ.tail m) = all-found p f ys x (and-right (p (f y)) _ h) m

module _ {R : Type 0} where
  lookup-Mem :
      (g : CursorKey) (ys : List (Fact R)) (y : Fact R)
      → lookup g ys ≡ some y
      → Memᴰ y ys × (y.grain ≡ g)
  unfolding lookup
  lookup-Mem g [] y h = cc
  lookup-Mem g (x ∷ ys) y h = elim (Bool-cases (same_grain x.grain g)) [
    | inl e ↦
        let found : some x ≡ some y = rw e at h in
        let one : x ≡ y = cc in
        (Memᴰ.head (sym one), ap (λ z. z.grain) (sym one) ∙ eq_of_grain x.grain g e)
    | inr e ↦ let later = lookup-Mem g ys y (rw e at h) in (Memᴰ.tail later.0, later.1)
  ]

  nil_of_first : (ys : List (Fact R)) → first ys ≡ none → ys ≡ []
  unfolding first
  nil_of_first [] h = refl
  nil_of_first (y ∷ ys) h = cc

  lookup_self :
      (x : Fact R) (xs : List (Fact R))
      → Unique same_grain (map (λ fact. fact.grain) xs)
      → Memᴰ x xs
      → lookup x.grain xs ≡ some x
  unfolding first
  lookup_self x xs u m =
      lookup-matches x.grain x xs refl
      ∙ ap first (matches_self same_grain grain-IsEquality (λ fact. fact.grain) x xs u m)

  matches-none :
      (x : Fact R) (ys : List (Fact R))
      → lookup x.grain ys ≡ none
      → matches same_grain (λ fact. fact.grain) (λ fact. fact.grain) x ys ≡ []
  matches-none x ys h = nil_of_first _ (sym (lookup-matches x.grain x ys refl) ∙ h)

  matches-some :
      (x y : Fact R) (ys : List (Fact R))
      → Unique same_grain (map (λ fact. fact.grain) ys)
      → lookup x.grain ys ≡ some y
      → matches same_grain (λ fact. fact.grain) (λ fact. fact.grain) x ys ≡ y ∷ []
  unfolding matches
  matches-some x y ys u h =
      let found = lookup-Mem x.grain ys y h in
      subst (λ g. filter (λ z. same_grain z.grain g) ys ≡ y ∷ []) found.1
        (matches_self same_grain grain-IsEquality (λ fact. fact.grain) y ys u found.0)

  right-nothing :
      (xs ys : List (Fact R))
      → ((y : Fact R) → Memᴰ y ys → any (λ x. same_grain y.grain x.grain) xs ≡ true)
      → right_rows same_grain (λ fact. fact.grain) (λ fact. fact.grain) xs ys ≡ []
  unfolding right_rows
  right-nothing xs [] h = refl
  right-nothing xs (y ∷ ys) h =
      rw (h y (Memᴰ.head refl)) (right-nothing xs ys (λ z m. h z (Memᴰ.tail m)))

  any-found :
      (g : CursorKey) (xs : List (Fact R)) (x : Fact R)
      → lookup g xs ≡ some x
      → any (λ z. same_grain g z.grain) xs ≡ true
  any-found g xs x h =
      let found = lookup-Mem g xs x h in
      subst (λ k. any (λ z. same_grain k z.grain) xs ≡ true) found.1
        (any-Mem same_grain grain-IsEquality (λ fact. fact.grain) x xs found.0)

module _ {R : Type 0} ⦃num : Number R⦄ where
  SameSum-is_distinct : (a b : Option R) → SameSum a b → is_distinct same_number a b ≡ false
  unfolding is_distinct same_number
  SameSum-is_distinct none none h = refl
  SameSum-is_distinct none (some b) h = cc
  SameSum-is_distinct (some a) none h = cc
  SameSum-is_distinct (some a) (some b) h = rw (h.0, h.1) refl

  SameFigures-daily_mismatch :
      (a b : Fact R) → SameFigures a b → daily_mismatch (some a, some b) ≡ false
  unfolding daily_mismatch
  SameFigures-daily_mismatch a b s =
      rw
        (
          SameSum-is_distinct a.latency_sum_ms b.latency_sum_ms s.latency_sum,
          SameSum-is_distinct a.packet_loss_sum_pct b.packet_loss_sum_pct s.loss_sum,
        )
        (ground (arith, s.total, s.successes, s.failures, s.latencies, s.losses))

  left-agreed :
      (xs ys : List (Fact R))
      → Unique same_grain (map (λ fact. fact.grain) ys)
      → ((x : Fact R) → Memᴰ x xs → SameRows (some x) (lookup x.grain ys))
      → all
          (λ pair. not (daily_mismatch pair))
          (left_rows same_grain (λ fact. fact.grain) (λ fact. fact.grain) xs ys)
        ≡ true
  unfolding left_rows pair_with
  left-agreed [] ys u h = refl
  left-agreed (x ∷ xs) ys u h =
      let rest = left-agreed xs ys u (λ z m. h z (Memᴰ.tail m)) in
      elim (Option-cases (lookup x.grain ys)) [
        | inl e ↦
            let wrong : false ≡ true = subst (SameRows (some x)) e (h x (Memᴰ.head refl)) in cc
        | inr (y, e) ↦
            let same : SameFigures x y = subst (SameRows (some x)) e (h x (Memᴰ.head refl)) in
            rw (matches-some x y ys u e, SameFigures-daily_mismatch x y same) rest
      ]

  module _ (source : Operational R) (w : Warehouse R) (from through : Date) (h : 1 ≤ from)
      (u : Unique same_grain (fact_grains w.facts))
      (alike : (g : CursorKey)
        → between from through g.date_utc ≡ true
        → SameRows
            (figure g (all_observations source.measurements source.checks))
            (lookup g w.facts)) where
    actual-Unique : Unique same_grain (map (λ fact. fact.grain) (actual_daily w from through))
    unfolding actual_daily fact_grains
    actual-Unique =
        let inside : CursorKey → Bool = λ g. between from through g.date_utc in
        rw (filter-map (λ fact. fact.grain) inside w.facts)
          (filter-Unique same_grain grain-IsEquality inside (map (λ fact. fact.grain) w.facts) u)

    expected-Unique :
        Unique same_grain (map (λ fact. fact.grain) (expected_daily source from through))
    unfolding expected_daily fact_grains
    expected-Unique =
        let rows = observations from through source.measurements source.checks in
        subst (Unique same_grain) (sym (grains-group_by_grain rows))
          (distinct-Unique same_grain grain-IsEquality (grains rows))

    rows-alike :
        (g : CursorKey)
        → between from through g.date_utc ≡ true
        → SameRows
            (lookup g (expected_daily source from through))
            (lookup g (actual_daily w from through))
    rows-alike g inside =
        rw (lookup-expected source from through g h inside, lookup-actual w from through g inside)
          (alike g inside)

    expected-alike :
        (x : Fact R)
        → Memᴰ x (expected_daily source from through)
        → SameRows (some x) (lookup x.grain (actual_daily w from through))
    unfolding expected_daily fact_grains
    expected-alike x m =
        let inside =
          all-found (λ g. between from through g.date_utc) (λ fact. fact.grain)
            (fresh source from through) x (fresh-between source from through h) m in
        let mine = lookup_self x (expected_daily source from through) expected-Unique m in
        subst (λ o. SameRows o (lookup x.grain (actual_daily w from through))) mine
          (rows-alike x.grain inside)

    actual-found :
        (y : Fact R)
        → Memᴰ y (actual_daily w from through)
        → any (λ x. same_grain y.grain x.grain) (expected_daily source from through) ≡ true
    unfolding actual_daily
    actual-found y m =
        let expected = expected_daily source from through in
        let inside =
          (All-member _ (filter (λ fact. between from through fact.grain.date_utc) w.facts) y
            (All-filter_mem (λ fact. between from through fact.grain.date_utc) w.facts) m).1 in
        let mine = lookup_self y (actual_daily w from through) actual-Unique m in
        elim (Option-cases (lookup y.grain expected)) [
          | inr (x, e) ↦ any-found y.grain expected x e
          | inl e ↦
              let both =
                subst (λ o. SameRows (lookup y.grain expected) o) mine
                  (rows-alike y.grain inside) in
              let wrong : false ≡ true = subst (λ o. SameRows o (some y)) e both in cc
        ]

    daily_comparison-agreed :
        length (filter daily_mismatch (daily_comparison source w from through)) ≡ 0
    unfolding daily_comparison full_join
    daily_comparison-agreed =
        let expected = expected_daily source from through in
        let actual = actual_daily w from through in
        count-of_all daily_mismatch _ (
          all-append (λ pair. not (daily_mismatch pair))
            (left_rows same_grain (λ fact. fact.grain) (λ fact. fact.grain) expected actual) _
            (left-agreed expected actual actual-Unique expected-alike)
            (rw (right-nothing expected actual actual-found) refl))

  -- A reconciliation after a refresh of the same range reports no daily mismatch, although it may read other sources, or
  -- the same rows in another order, when for every grain with a date in the range its sources have the same counts as those
  -- of the refresh and sums that are equal as floats, or no observation in both; the refresh finds the lock free and known
  -- agents and endpoints, the range is ordered, and no grain stands twice among the facts before.
  pub reconcile-run_other :
      (source other : Operational R) (from through : Date) (w : Warehouse R)
      → IsReferenced source
      → 1 ≤ from
      → from ≤ through
      → Unique same_grain (fact_grains w.facts)
      → ((g : CursorKey)
          → between from through g.date_utc ≡ true
          → SameRows
              (figure g (all_observations other.measurements other.checks))
              (figure g (all_observations source.measurements source.checks)))
      → (reconcile other
          (run true source (range from through) w).1
          (record { from_date = from; through_date = through })).daily_mismatch_rows
        ≡ 0
  unfolding reconcile
  reconcile-run_other source other from through w s h ordered u alike =
      let after = (run true source (range from through) w).1 in
      let one_row : Unique same_grain (fact_grains after.facts) =
        rw (run-settled source from through w s h ordered u)
          (refreshed-Unique source from through w h u) in
      daily_comparison-agreed other after from through h one_row (λ g inside.
        (let now : lookup g after.facts
              ≡ figure g (all_observations source.measurements source.checks) =
            run-figure source from through w g s h ordered u ∙ (rw inside refl) in
          subst (SameRows (figure g (all_observations other.measurements other.checks))) (sym now)
            (alike g inside)))

  -- A figure is the same as itself.
  pub SameRows-refl : (o : Option (Fact R)) → SameRows o o
  SameRows-refl none = tt
  SameRows-refl (some fact) = record {
    total = refl;
    successes = refl;
    failures = refl;
    latencies = refl;
    latency_sum = SameSum-refl fact.latency_sum_ms;
    losses = refl;
    loss_sum = SameSum-refl fact.packet_loss_sum_pct;
  }
    where
      SameSum-refl : (sum : Option R) → SameSum sum sum
      SameSum-refl none = tt
      SameSum-refl (some value) = (num.leb_refl value, num.leb_refl value)
