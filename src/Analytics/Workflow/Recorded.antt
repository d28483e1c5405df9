-- ===== src/Analytics/Workflow/Recorded.antt =====
-- The record of a workflow says how it ended.
use local_network_kafka_moni.Base.{
  ℕ, String, true, false, List, [], ◌∷◌, ◌++◌, Option, none, some, ◌≡◌, refl, sym, ap, subst,
  Option-cases, ◌∙◌, arith, inl, inr, Bool-cases, if◌then◌else◌,
}
use local_network_kafka_moni.Base.Number.{Number}
use local_network_kafka_moni.Query.Models.{Text}
use local_network_kafka_moni.Query.Cursor.Format.{same}
use local_network_kafka_moni.Analytics.Models.{
  DateRange, SourceAssessment, may_refresh, ReconciliationResult, is_reconciled, is_reportable,
}
use local_network_kafka_moni.Analytics.Sources.Grain.{same_refl, eq_of_same}
use local_network_kafka_moni.Analytics.Refresh.{Outcome, refreshed, raised}
use local_network_kafka_moni.Analytics.Reconcile.{reconcile}
use local_network_kafka_moni.Analytics.Reporting.{validate_reporting}
use local_network_kafka_moni.Analytics.Quality.{load_source_snapshot, assess_source_quality}
use local_network_kafka_moni.Analytics.Workflow.{
  RunStatus, running, success, failed, OrchestrationRun, update_run, has_run, started, start_run,
  record_success, record_failure, World, Moments, Completion, completed, failed_in, Settings, fail,
  check_refresh, after_refresh, run_analytics, with_assessment, workflow,
}

-- The status of the row of a key.
unfoldable pub status_of : Text → List OrchestrationRun → Option RunStatus
status_of key [] = none
status_of key (row ∷ rows) = if same row.run_key key then some row.status else status_of key rows

-- The status that a workflow leaves: a failure is recorded when the callback records it, and under this key.
unfoldable pub final_status : {R : Type 0} → Moments R → Text → Completion → RunStatus
final_status moments key completed = success
final_status moments key (failed_in task error) = elim moments.failure_key [
  | none ↦ running
  | some other ↦ if same other key then failed else running
]

has_run-of_status :
    (key : Text) (status : RunStatus) (rows : List OrchestrationRun)
    → status_of key rows ≡ some status
    → has_run key rows ≡ true
unfolding has_run status_of
has_run-of_status key status [] h = cc
has_run-of_status key status (row ∷ rows) h = elim (Bool-cases (same row.run_key key)) [
  | inl e ↦ rw e refl
  | inr e ↦ rw e (has_run-of_status key status rows (rw e at h))
]

module _ (key : Text) (change : OrchestrationRun → OrchestrationRun) where
  status_of-update :
      (status : RunStatus) (rows : List OrchestrationRun)
      → ((row : OrchestrationRun)
          → same row.run_key key ≡ true
          → same (change row).run_key key ≡ true)
      → ((row : OrchestrationRun) → (change row).status ≡ status)
      → has_run key rows ≡ true
      → status_of key (update_run key change rows) ≡ some status
  unfolding has_run update_run status_of
  status_of-update status [] kept changed h = cc
  status_of-update status (row ∷ rows) kept changed h = elim (Bool-cases (same row.run_key key)) [
    | inl e ↦ rw (e, kept row e) (ap some (changed row))
    | inr e ↦ rw (e, e) (status_of-update status rows kept changed (ground (arith, h, e)))
  ]

status_of-other :
    (key other : Text) (change : OrchestrationRun → OrchestrationRun) (rows : List OrchestrationRun)
    → same other key ≡ false
    → ((row : OrchestrationRun) → (change row).run_key ≡ row.run_key)
    → status_of key (update_run other change rows) ≡ status_of key rows
unfolding status_of update_run
status_of-other key other change [] apart kept = refl
status_of-other key other change (row ∷ rows) apart kept =
    elim (Bool-cases (same row.run_key other)) [
      | inl e ↦
          let away : same row.run_key key ≡ false =
            subst (λ k. same k key ≡ false) (sym (eq_of_same row.run_key other e)) apart in
          rw (e, kept row, away) (status_of-other key other change rows apart kept)
      | inr e ↦ elim (Bool-cases (same row.run_key key)) [
        | inl m ↦ rw (e, m) refl
        | inr m ↦ rw (e, m) (status_of-other key other change rows apart kept)
      ]
    ]

status_of-last :
    (key : Text) (rows : List OrchestrationRun) (row : OrchestrationRun)
    → same row.run_key key ≡ true
    → has_run key rows ≡ false
    → status_of key (rows ++ row ∷ []) ≡ some row.status
unfolding has_run status_of
status_of-last key [] row h absent = rw h refl
status_of-last key (first ∷ rows) row h absent = elim (Bool-cases (same first.run_key key)) [
  | inl e ↦ let there : has_run key (first ∷ rows) ≡ true = rw e refl in cc
  | inr e ↦ rw e (status_of-last key rows row h (ground (arith, absent, e)))
]

module _ {R : Type 0} where
  status_of-start :
      (now : ℕ) (key : Text) (selected : DateRange) (assessment : SourceAssessment R)
      (rows : List OrchestrationRun)
      → status_of key (start_run now key selected assessment rows) ≡ some running
  unfolding start_run started
  status_of-start now key selected assessment rows = elim (Bool-cases (has_run key rows)) [
    | inl e ↦ rw e (status_of-update key _ running rows (λ row h. same_refl key) (λ row. refl) e)
    | inr e ↦ rw e (status_of-last key rows _ (same_refl key) e)
  ]

  unfoldable IsRecorded : Moments R → Text → Completion × World R → Type 0
  IsRecorded moments key result =
      status_of key result.1.runs ≡ some (final_status moments key result.0)

  fail-IsRecorded :
      (moments : Moments R) (key : Text) (task error : String) (world : World R)
      → status_of key world.runs ≡ some running
      → IsRecorded moments key (fail moments task error world)
  unfolding fail record_failure final_status IsRecorded
  fail-IsRecorded moments key task error world h = elim (Option-cases moments.failure_key) [
    | inl e ↦ rw e h
    | inr (other, e) ↦ elim (Bool-cases (same other key)) [
      | inl m ↦
          let mine : other ≡ key = eq_of_same other key m in
          rw (e, m)
            (subst
              (λ k.
                status_of key (
                  update_run k
                    (λ row. record row {
                      status = failed;
                      completed_at = some moments.completed_at;
                      failed_task_id = some task;
                      error_type = some error;
                    })
                    world.runs)
                ≡ some failed)
              (sym mine)
              (status_of-update key _ failed world.runs (λ row k. k) (λ row. refl)
                (has_run-of_status key running world.runs h)))
      | inr m ↦ rw (e, m) (status_of-other key other _ world.runs m (λ row. refl) ∙ h)
    ]
  ]

  success-IsRecorded :
      (moments : Moments R) (key : Text) (run_id : ℕ) (result : ReconciliationResult)
      (world : World R)
      → status_of key world.runs ≡ some running
      → IsRecorded moments key (
        completed,
        record world { runs = record_success moments.completed_at key run_id result world.runs },
      )
  unfolding record_success final_status IsRecorded
  success-IsRecorded moments key run_id result world h =
      status_of-update key _ success world.runs (λ row k. k) (λ row. refl)
        (has_run-of_status key running world.runs h)

module _ {R : Type 0} ⦃num : Number R⦄ (settings : Settings R) (moments : Moments R) (key : Text)
    (selected : DateRange) where
  check_refresh-IsRecorded :
      (run_id : ℕ) (world : World R)
      → status_of key world.runs ≡ some running
      → IsRecorded moments key (check_refresh settings moments key selected run_id world)
  unfolding check_refresh
  check_refresh-IsRecorded run_id world h =
      elim (Bool-cases (is_reconciled (reconcile moments.reconciled world.warehouse selected))) [
        | inr e ↦ rw e (fail-IsRecorded moments key _ _ world h)
        | inl e ↦
            elim (Bool-cases (
              is_reportable
                (validate_reporting settings.quotients world.warehouse selected run_id))) [
                  | inl k ↦
                      rw (e, k)
                        (success-IsRecorded moments key run_id
                          (reconcile moments.reconciled world.warehouse selected) world h)
                  | inr k ↦ rw (e, k) (fail-IsRecorded moments key _ _ world h)
                ]
      ]

  after_refresh-IsRecorded :
      (outcome : Outcome) (world : World R)
      → status_of key world.runs ≡ some running
      → IsRecorded moments key (after_refresh settings moments key selected outcome world)
  unfolding after_refresh
  after_refresh-IsRecorded (refreshed result) world h =
      check_refresh-IsRecorded result.run_id world h
  after_refresh-IsRecorded (raised error) world h = fail-IsRecorded moments key _ _ world h

  with_assessment-IsRecorded :
      (assessment : SourceAssessment R) (world : World R)
      → IsRecorded moments key
          (with_assessment settings moments key selected (inl assessment) world)
  unfolding with_assessment run_analytics
  with_assessment-IsRecorded assessment world =
      let there = status_of-start moments.started_at key selected assessment world.runs in
      elim (Bool-cases (may_refresh assessment.status)) [
        | inl e ↦ rw e (after_refresh-IsRecorded _ _ there)
        | inr e ↦ rw e (fail-IsRecorded moments key _ _ _ there)
      ]

  -- Once the sources are assessed, with whatever status, the workflow leaves a record under its key that says how it ended:
  -- `success` when it completes; when a task fails, `failed` if the failure callback computes the same key and its recording
  -- does not raise, and otherwise still `running`.
  pub workflow-status_of :
      (assessment : SourceAssessment R) (world : World R)
      → assess_source_quality settings.seconds
          (load_source_snapshot settings.seconds selected moments.assessed moments.activity)
          settings.stale_after
          settings.delay_after
        ≡ inl assessment
      → status_of key (workflow settings moments key selected world).1.runs
        ≡ some (final_status moments key (workflow settings moments key selected world).0)
  unfolding workflow IsRecorded
  workflow-status_of assessment world h = rw h (with_assessment-IsRecorded assessment world)
