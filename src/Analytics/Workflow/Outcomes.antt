-- ===== src/Analytics/Workflow/Outcomes.antt =====
-- When the workflow completes, and what its completion means.
use local_network_kafka_moni.Base.{
  ℕ, ◌≤◌, String, true, ◌≡◌, refl, sym, ap, ◌∙◌, subst, ◌==◌, arith, ◌⊎◌, inl, inr, Bool-cases,
  and-left,
}
use local_network_kafka_moni.Base.Number.{Number}
use local_network_kafka_moni.Query.Models.{Text, CursorKey}
use local_network_kafka_moni.Analytics.Models.{
  DateRange, SourceAssessment, may_refresh, is_reconciled, is_reportable,
}
use local_network_kafka_moni.Analytics.Sources.{between}
use local_network_kafka_moni.Analytics.Refresh.{Outcome, refreshed, raised}
use local_network_kafka_moni.Analytics.Refresh.Lookup.{lookup, all_observations, figure}
use local_network_kafka_moni.Analytics.Reconcile.{reconcile}
use local_network_kafka_moni.Analytics.Reconcile.Daily.{SameRows, reconcile-agrees}
use local_network_kafka_moni.Analytics.Reporting.{validate_reporting}
use local_network_kafka_moni.Analytics.Quality.{load_source_snapshot, assess_source_quality}
use local_network_kafka_moni.Analytics.Quality.Decision.{permits}
use local_network_kafka_moni.Analytics.Workflow.{
  World, Moments, completed, failed_in, start_run, Settings, fail, check_refresh, after_refresh,
  run_analytics, with_assessment, workflow,
}

module _ {R : Type 0} ⦃num : Number R⦄ (settings : Settings R) (moments : Moments R) (key : Text)
    (selected : DateRange) where
  -- The last reconciliation has found no mismatch.
  unfoldable IsReconciled : World R → Type 0
  IsReconciled world = is_reconciled (reconcile moments.reconciled world.warehouse selected) ≡ true

  check_refresh-IsReconciled :
      (run_id : ℕ) (world : World R)
      → (check_refresh settings moments key selected run_id world).0 ≡ completed
      → IsReconciled (check_refresh settings moments key selected run_id world).1
  unfolding check_refresh fail IsReconciled
  check_refresh-IsReconciled run_id world h =
      elim (Bool-cases (is_reconciled (reconcile moments.reconciled world.warehouse selected))) [
        | inr e ↦
            let reached : (check_refresh settings moments key selected run_id world).0
                ≡ failed_in "reconcile_analytics" "RuntimeError" =
              rw e refl in
            let clash : failed_in "reconcile_analytics" "RuntimeError" ≡ completed =
              sym reached ∙ h in
            cc
        | inl e ↦
            elim (Bool-cases (
              is_reportable
                (validate_reporting settings.quotients world.warehouse selected run_id))) [
                  | inl k ↦ rw (e, k) e
                  | inr k ↦ rw (e, k) e
                ]
      ]

  after_refresh-IsReconciled :
      (outcome : Outcome) (world : World R)
      → (after_refresh settings moments key selected outcome world).0 ≡ completed
      → IsReconciled (after_refresh settings moments key selected outcome world).1
  unfolding after_refresh fail
  after_refresh-IsReconciled (refreshed result) world h =
      check_refresh-IsReconciled result.run_id world h
  after_refresh-IsReconciled (raised error) world h = cc

  with_assessment-IsReconciled :
      (assessed : (SourceAssessment R) ⊎ String) (world : World R)
      → (with_assessment settings moments key selected assessed world).0 ≡ completed
      → (permits assessed ≡ true)
        × IsReconciled (with_assessment settings moments key selected assessed world).1
  unfolding with_assessment run_analytics fail permits
  with_assessment-IsReconciled (inr message) world h = cc
  with_assessment-IsReconciled (inl assessment) world h =
      elim (Bool-cases (may_refresh assessment.status)) [
        | inl e ↦
            let go_on : with_assessment settings moments key selected (inl assessment) world
                ≡ run_analytics settings moments key selected (record world {
                  runs = start_run moments.started_at key selected assessment world.runs;
                }) =
              rw e refl in
            (
              e,
              subst (λ result. IsReconciled result.1) (sym go_on)
                  (after_refresh-IsReconciled _ _ (sym (ap (λ result. result.0) go_on) ∙ h)),
            )
        | inr e ↦
            let reached : (with_assessment settings moments key selected (inl assessment) world).0
                ≡ failed_in "assess_source_quality" "RuntimeError" =
              rw e refl in
            let clash : failed_in "assess_source_quality" "RuntimeError" ≡ completed =
              sym reached ∙ h in
            cc
      ]

  -- When the workflow completes, whatever the sources did between its tasks, then the assessment of the sources let it go
  -- on, and for every grain with a date in the range the facts of the warehouse hold a row with each of the counts and sums
  -- of the sources as they stood at the reconciliation, or no row when the sources had no observation of the grain.
  pub workflow-agrees :
      (world : World R) (g : CursorKey)
      → 1 ≤ selected.from_date
      → between selected.from_date selected.through_date g.date_utc ≡ true
      → (workflow settings moments key selected world).0 ≡ completed
      → (permits (
            assess_source_quality settings.seconds
              (load_source_snapshot settings.seconds selected moments.assessed moments.activity)
              settings.stale_after
              settings.delay_after)
          ≡ true)
        × SameRows
            (figure g (all_observations moments.reconciled.measurements moments.reconciled.checks))
            (lookup g (workflow settings moments key selected world).1.warehouse.facts)
  unfolding workflow IsReconciled is_reconciled
  workflow-agrees world g positive inside h =
      let checked =
        with_assessment-IsReconciled
          (assess_source_quality settings.seconds
            (load_source_snapshot settings.seconds selected moments.assessed moments.activity)
            settings.stale_after settings.delay_after)
          world h in
      let after = (workflow settings moments key selected world).1.warehouse in
      let no_mismatch =
        and-left ((reconcile moments.reconciled after selected).daily_mismatch_rows == 0) _
          checked.1 in
      (
        checked.0,
        reconcile-agrees moments.reconciled after selected g positive inside
            (ground (arith, no_mismatch)),
      )
