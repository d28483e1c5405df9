-- ===== src/Analytics/Quality/Decision.antt =====
-- When the assessment of a window lets the refresh go on, said of the tables.
use local_network_kafka_moni.Base.{
  ℕ, suc, ◌+◌, ◌≤◌, String, Bool, true, false, not, ◌&&◌, ◌||◌, List, [], ◌∷◌, some, ◌≡◌, refl, sym,
  ap, ◌∙◌, leb, ltb, ◌==◌, all, any, length, filter, arith, ◌⊎◌, inl, inr, Bool-cases, nonempty,
}
use local_network_kafka_moni.Base.Grouping.{List-cases}
use local_network_kafka_moni.Base.Number.{Number}
use local_network_kafka_moni.Analytics.Models.{
  DateRange, SourceSnapshot, SourceAssessment, may_refresh,
}
use local_network_kafka_moni.Analytics.Warehouse.{Operational}
use local_network_kafka_moni.Analytics.Quality.{
  Activity, Seconds, in_range, latest_from, latest, is_relevant, is_relevant_failure, observed,
  load_source_snapshot, is_stale, is_delayed, lacks_heartbeat, assess_observed,
  assess_source_quality,
}

-- `assessment.may_refresh`, where there is an assessment.
unfoldable pub permits : {R : Type 0} → (SourceAssessment R) ⊎ String → Bool
unfolding may_refresh
permits (inl assessment) = may_refresh assessment.status
permits (inr message) = false

all-latest :
    (x high : ℕ) (ts : List ℕ) → all (λ t. leb t x) (high ∷ ts) ≡ leb (latest_from high ts) x
unfolding latest_from
all-latest x high [] = ground arith
all-latest x high (t ∷ ts) = elim (Bool-cases (leb t high)) [
  | inl e ↦ rw (e, sym (all-latest x high ts)) (ground (arith, e))
  | inr e ↦ rw (e, sym (all-latest x t ts)) (ground (arith, e))
]

any-latest :
    (m s high : ℕ) (ts : List ℕ)
    → any (λ t. leb m (t + s)) (high ∷ ts) ≡ leb m (latest_from high ts + s)
unfolding latest_from
any-latest m s high [] = ground arith
any-latest m s high (t ∷ ts) = elim (Bool-cases (leb t high)) [
  | inl e ↦ rw (e, sym (any-latest m s high ts)) (ground (arith, e))
  | inr e ↦ rw (e, sym (any-latest m s t ts)) (ground (arith, e))
]

any-cong : {A : Type 0} (p q : A → Bool) (xs : List A) → ((a : A) → p a ≡ q a) → any p xs ≡ any q xs
any-cong p q [] h = refl
any-cong p q (x ∷ xs) h = rw (h x, any-cong p q xs h) refl

nonzero : (n : ℕ) → (suc n == 0) ≡ false
nonzero n = ground arith

leb-not-ltb : (a b : ℕ) → leb a b ≡ not (ltb b a)
leb-not-ltb a b = ground arith

-- An observation after which no heartbeat comes by more than the threshold, against the latest of both.
not_stale :
    (stale_after t : ℕ) (ts heartbeats : List ℕ)
    → any (λ o. all (λ b. leb b (o + stale_after)) heartbeats) (t ∷ ts)
      ≡ not (is_stale stale_after (latest_from t ts) (latest heartbeats))
unfolding is_stale latest
not_stale stale_after t ts [] = refl
not_stale stale_after t ts (b ∷ bs) =
    any-cong _ (λ o. leb (latest_from b bs) (o + stale_after)) (t ∷ ts)
      (λ o. all-latest (o + stale_after) b bs)
    ∙ any-latest (latest_from b bs) stale_after t ts
    ∙ leb-not-ltb (latest_from b bs) (latest_from t ts + stale_after)

-- Whether the tables let the refresh go on: no processing of the relevant topics has failed in the window, and either the
-- window is empty of observations, relevant raw events and heartbeats, or it has an observation after which no heartbeat
-- comes by more than `stale_after`.
unfoldable pub is_trustworthy : {R : Type 0} → ℕ → DateRange → Operational R → Activity → Bool
is_trustworthy stale_after selected source activity =
    not (nonempty (filter (is_relevant_failure selected) activity.failures))
    && (not (
          nonempty (observed selected source)
          || (nonempty (filter (is_relevant selected) activity.raw_events)
              || nonempty (filter (in_range selected) activity.heartbeats)))
        || any
            (λ o.
              all (λ b. leb b (o + stale_after)) (filter (in_range selected) activity.heartbeats))
            (observed selected source))

module _ {R : Type 0} ⦃num : Number R⦄ (seconds : Seconds R) where
  lacks-none :
      (selected : DateRange) (source : Operational R) (activity : Activity)
      → lacks_heartbeat (load_source_snapshot seconds selected source activity) ≡ false
  unfolding lacks_heartbeat load_source_snapshot latest
  lacks-none selected source activity =
      elim (List-cases (filter (in_range selected) activity.heartbeats)) [
        | inl e ↦ rw e refl
        | inr (b, bs, e) ↦ rw e refl
      ]

  permits-observed :
      (snapshot : SourceSnapshot R) (stale_after delay_after observation : ℕ)
      → lacks_heartbeat snapshot ≡ false
      → permits (assess_observed seconds snapshot stale_after delay_after (some observation))
        ≡ not (is_stale stale_after observation snapshot.latest_heartbeat_at)
  unfolding permits assess_observed
  permits-observed snapshot stale_after delay_after observation h =
      elim (Bool-cases (is_stale stale_after observation snapshot.latest_heartbeat_at)) [
        | inl e ↦ rw (h, e) refl
        | inr e ↦
            elim (Bool-cases
              (is_delayed seconds delay_after snapshot.maximum_ingestion_delay_seconds)) [
                | inl k ↦ rw (h, e, k) refl
                | inr k ↦ rw (h, e, k) refl
              ]
      ]

  -- With positive thresholds the assessment of the snapshot of a window lets the refresh go on exactly when the tables are
  -- trustworthy in it.
  pub assess-permits :
      (selected : DateRange) (source : Operational R) (activity : Activity)
      (stale_after delay_after : ℕ)
      → 1 ≤ stale_after
      → 1 ≤ delay_after
      → permits (
          assess_source_quality seconds
            (load_source_snapshot seconds selected source activity)
            stale_after
            delay_after)
        ≡ is_trustworthy stale_after selected source activity
  unfolding assess_source_quality load_source_snapshot is_trustworthy permits latest
  assess-permits selected source activity stale_after delay_after s d =
      let positive : ((stale_after == 0) || (delay_after == 0)) ≡ false = ground (arith, s, d) in
      elim (List-cases (filter (is_relevant_failure selected) activity.failures)) [
        | inr (f, fs, e) ↦ rw (positive, e, nonzero (length fs)) refl
        | inl no_failure ↦ elim (List-cases (observed selected source)) [
          | inr (t, ts, e) ↦
              let snapshot = load_source_snapshot seconds selected source activity in
              let no_failures : (length (filter (is_relevant_failure selected) activity.failures)
                    == 0)
                  ≡ true =
                rw no_failure refl in
              let observations : (length (observed selected source) == 0) ≡ false =
                rw e (nonzero (length ts)) in
              let reached : permits (assess_source_quality seconds snapshot stale_after delay_after)
                  ≡ permits (
                      assess_observed seconds snapshot stale_after delay_after
                        snapshot.latest_observation_at) =
                rw (positive, no_failures, observations) refl in
              let the_latest : snapshot.latest_observation_at ≡ some (latest_from t ts) =
                rw e refl in
              let fresh_enough : is_trustworthy stale_after selected source activity
                  ≡ not (is_stale stale_after (latest_from t ts) snapshot.latest_heartbeat_at) =
                rw (no_failure, e)
                  (not_stale stale_after t ts (filter (in_range selected) activity.heartbeats)) in
              reached
              ∙ ap (λ o. permits (assess_observed seconds snapshot stale_after delay_after o))
                  the_latest
              ∙ permits-observed snapshot stale_after delay_after (latest_from t ts)
                  (lacks-none selected source activity)
              ∙ sym fresh_enough
          | inl e ↦ elim (List-cases (filter (is_relevant selected) activity.raw_events)) [
            | inr (r, rs, k) ↦ rw (positive, no_failure, e, k, nonzero (length rs)) refl
            | inl k ↦ elim (List-cases (filter (in_range selected) activity.heartbeats)) [
              | inr (b, bs, m) ↦ rw (positive, no_failure, e, k, m, nonzero (length bs)) refl
              | inl m ↦ rw (positive, no_failure, e, k, m) refl
            ]
          ]
        ]
      ]
