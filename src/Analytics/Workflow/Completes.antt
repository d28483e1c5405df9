-- ===== src/Analytics/Workflow/Completes.antt =====
-- The conditions under which the workflow completes.
use local_network_kafka_moni.Base.{List, [], ◌∷◌, Bool, false}
use local_network_kafka_moni.Analytics.Warehouse.{Operational, Warehouse}
use local_network_kafka_moni.Base.{
  ◌≤◌, String, true, [], map, ◌≡◌, refl, ap, ◌∙◌, All, length, filter, ◌⊎◌, inl, inr,
}
use local_network_kafka_moni.Base.Number.{Number}
use local_network_kafka_moni.Base.Grouping.{Unique}
use local_network_kafka_moni.Query.Models.{Text}
use local_network_kafka_moni.Query.Cursor.Format.{same}
use local_network_kafka_moni.Analytics.Models.{
  DateRange, SourceAssessment, is_reconciled, is_reportable,
}
use local_network_kafka_moni.Analytics.Sources.{same_grain}
use local_network_kafka_moni.Analytics.Refresh.{DateSelection, run}
use local_network_kafka_moni.Analytics.Refresh.References.{IsReferenced}
use local_network_kafka_moni.Analytics.Refresh.Succeeds.{fact_grains, fresh}
use local_network_kafka_moni.Analytics.Refresh.Figures.{range, run-settled}
use local_network_kafka_moni.Analytics.Reconcile.{reconcile}
use local_network_kafka_moni.Analytics.Reconcile.After.{reconcile-run}
use local_network_kafka_moni.Analytics.Reporting.{view_row, is_invalid, validate_reporting}
use local_network_kafka_moni.Analytics.Reporting.Valid.{validate_reporting-run_lem}
use local_network_kafka_moni.Analytics.Quality.{load_source_snapshot, assess_source_quality}
use local_network_kafka_moni.Analytics.Quality.Decision.{permits, is_trustworthy, assess-permits}
use local_network_kafka_moni.Analytics.Workflow.{
  World, Moments, completed, start_run, Settings, attempt_refresh, check_refresh, after_refresh,
  run_analytics, with_assessment, workflow,
}

-- Attempts that find the lock taken leave everything to the last one.
attempt_refresh-waiting :
    {R : Type 0} ⦃num : Number R⦄ (selection : DateSelection)
    (attempts : List (Bool × Operational R)) (last : Bool × Operational R) (w : Warehouse R)
    → All (λ attempt. attempt.0 ≡ false) attempts
    → attempt_refresh selection attempts last w ≡ run last.0 last.1 selection w
unfolding attempt_refresh run
attempt_refresh-waiting selection [] last w h = refl
attempt_refresh-waiting selection (attempt ∷ attempts) last w h =
    rw h.0 (attempt_refresh-waiting selection attempts last w h.1)

module _ {R : Type 0} ⦃num : Number R⦄ (settings : Settings R) (moments : Moments R) (key : Text)
    (selected : DateRange) where
  -- What the tasks after the assessment need: attempts of the refresh that find the lock taken but the last one, sources that refer to
  -- known agents and endpoints, list no affected agent or endpoint twice, do not change until the reconciliation and have
  -- plausible rates and means in the range, and distinct grains among the facts before.
  pub record IsSteady (world : World R) : Type 0 where
    pub waiting : All (λ attempt. attempt.0 ≡ false) moments.first_attempts
    pub unlocked : moments.last_attempt ≡ (true, moments.reconciled)
    pub referenced : IsReferenced moments.reconciled
    pub agents_apart :
        All (λ incident. Unique same incident.affected_agents) moments.reconciled.incidents
    pub endpoints_apart :
        All (λ incident. Unique same incident.affected_endpoints) moments.reconciled.incidents
    pub dated : 1 ≤ selected.from_date
    pub ordered : selected.from_date ≤ selected.through_date
    pub grains_apart : Unique same_grain (fact_grains world.warehouse.facts)
    pub plausible :
        length (
          filter is_invalid (
            map
              (view_row settings.quotients)
              (fresh moments.reconciled selected.from_date selected.through_date)))
        ≡ 0

  run_analytics-completed :
      (world : World R)
      → IsSteady world
      → (run_analytics settings moments key selected world).0 ≡ completed
  unfolding run_analytics attempt_refresh after_refresh check_refresh is_reconciled is_reportable
  run_analytics-completed world s =
      let w = world.warehouse in
      let source = moments.reconciled in
      let settled =
        run-settled source selected.from_date selected.through_date w s.referenced s.dated s.ordered
          s.grains_apart in
      let reconciled =
        reconcile-run source selected.from_date selected.through_date w s.referenced s.agents_apart
          s.endpoints_apart s.dated s.ordered s.grains_apart in
      let reported =
        validate_reporting-run_lem settings.quotients source selected.from_date
          selected.through_date w s.referenced s.dated s.ordered s.grains_apart in
      let matched : is_reconciled (
            reconcile source (run true source (range selected.from_date selected.through_date) w).1
              selected)
          ≡ true =
        ap is_reconciled reconciled in
      let shown : is_reportable (
            validate_reporting settings.quotients
              (run true source (range selected.from_date selected.through_date) w).1 selected
              w.next_run_id)
          ≡ true =
        ap is_reportable reported ∙ (rw s.plausible refl) in
      rw
        (
          attempt_refresh-waiting (range selected.from_date selected.through_date)
              moments.first_attempts moments.last_attempt w s.waiting,
          s.unlocked,
          ap (λ r. r.0) settled,
          matched,
          shown,
        )
        refl

  with_assessment-completed :
      (assessed : (SourceAssessment R) ⊎ String) (world : World R)
      → IsSteady world
      → permits assessed ≡ true
      → (with_assessment settings moments key selected assessed world).0 ≡ completed
  unfolding with_assessment permits
  with_assessment-completed (inr message) world s h = cc
  with_assessment-completed (inl assessment) world s h =
      let next : World R = record world {
        runs = start_run moments.started_at key selected assessment world.runs;
      } in
      rw h (
        run_analytics-completed next (record {
          waiting = s.waiting;
          unlocked = s.unlocked;
          referenced = s.referenced;
          agents_apart = s.agents_apart;
          endpoints_apart = s.endpoints_apart;
          dated = s.dated;
          ordered = s.ordered;
          grains_apart = s.grains_apart;
          plausible = s.plausible;
        }))

  -- The workflow completes when its thresholds are positive, the tables are trustworthy in the range as the assessment finds
  -- them, and everything after it is steady: the last attempt of the refresh finds the lock free and those before it, if any, find it taken, the sources refer to
  -- known agents and endpoints, list no affected agent or endpoint twice, do not change between the refresh and the
  -- reconciliation and have plausible rates and means in the range, the range is ordered, and no grain stands twice among
  -- the facts before; the refresh and the reconciliation read the rows of the sources in the same order.
  pub workflow-completes :
      (world : World R)
      → 1 ≤ settings.stale_after
      → 1 ≤ settings.delay_after
      → is_trustworthy settings.stale_after selected moments.assessed moments.activity ≡ true
      → IsSteady world
      → (workflow settings moments key selected world).0 ≡ completed
  unfolding workflow
  workflow-completes world stale delay trusted s =
      with_assessment-completed
        (assess_source_quality settings.seconds
          (load_source_snapshot settings.seconds selected moments.assessed moments.activity)
          settings.stale_after settings.delay_after)
        world s
        (assess-permits settings.seconds selected moments.assessed moments.activity
            settings.stale_after settings.delay_after stale delay
          ∙ trusted)
