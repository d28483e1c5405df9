-- ===== src/Analytics/Workflow.antt =====
-- deployment/airflow/dags/netpulse_daily_reliability.py: the tasks of the workflow in their order, on a resolved range, and
-- the records that services/analytics/src/netpulse_analytics/orchestration/repository.py keeps of its runs.
pub mod Recorded
pub mod Outcomes
pub mod Completes
use local_network_kafka_moni.Base.{
  ℕ, ◌+◌, String, Bool, true, false, not, ◌&&◌, List, [], ◌∷◌, ◌++◌, Option, none, some, any, ◌⊎◌,
  inl, inr, if◌then◌else◌,
}
use local_network_kafka_moni.Base.Number.{Number}
use local_network_kafka_moni.Query.Models.{Text, Date}
use local_network_kafka_moni.Query.Cursor.Format.{same}
use local_network_kafka_moni.Analytics.Models.{
  DateRange, SourceStatus, SourceAssessment, may_refresh, ReconciliationResult, is_reconciled,
  is_reportable,
}
use local_network_kafka_moni.Analytics.Warehouse.{Operational, Warehouse}
use local_network_kafka_moni.Analytics.Refresh.{
  DateSelection, RefreshResult, RefreshError, already_running, missing_dates, violation, Outcome,
  refreshed, raised, run,
}
use local_network_kafka_moni.Analytics.Reconcile.{reconcile}
use local_network_kafka_moni.Analytics.Reporting.{Quotients, validate_reporting}
use local_network_kafka_moni.Analytics.Quality.{
  Activity, Seconds, load_source_snapshot, assess_source_quality,
}

pub data RunStatus : Type 0 where
  running success failed : RunStatus

-- A row of `analytics_orchestration_runs`.
pub record OrchestrationRun : Type 0 where
  pub run_key : Text
  pub from_date : Date
  pub through_date : Date
  pub status : RunStatus
  pub source_status : SourceStatus
  pub source_observation_count : ℕ
  pub attempt_count : ℕ
  pub started_at : ℕ
  pub completed_at : Option ℕ
  pub analytics_run_id : Option ℕ
  pub daily_mismatch_rows : Option ℕ
  pub incident_mismatch_rows : Option ℕ
  pub failed_task_id : Option String
  pub error_type : Option String

-- `UPDATE ... WHERE run_key = ...`
unfoldable pub update_run :
    Text → (OrchestrationRun → OrchestrationRun) → List OrchestrationRun → List OrchestrationRun
update_run key change [] = []
update_run key change (row ∷ rows) =
    (if same row.run_key key then change row else row) ∷ update_run key change rows

unfoldable pub has_run : Text → List OrchestrationRun → Bool
has_run key rows = any (λ row. same row.run_key key) rows

-- The row that `start_run` inserts, at a time.
unfoldable pub started :
    {R : Type 0}
    → (now : ℕ) → Text
    → DateRange
    → SourceAssessment R
    → (attempts : ℕ) → OrchestrationRun
started now key selected assessment attempts = record {
  run_key = key;
  from_date = selected.from_date;
  through_date = selected.through_date;
  status = running;
  source_status = assessment.status;
  source_observation_count = assessment.snapshot.observation_count;
  attempt_count = attempts;
  started_at = now;
  completed_at = none;
  analytics_run_id = none;
  daily_mismatch_rows = none;
  incident_mismatch_rows = none;
  failed_task_id = none;
  error_type = none;
}

unfoldable pub start_run :
    {R : Type 0}
    → (now : ℕ) → Text
    → DateRange
    → SourceAssessment R
    → List OrchestrationRun
    → List OrchestrationRun
unfolding update_run has_run started
start_run now key selected assessment rows =
    if has_run key rows
    then update_run key (λ row. started now key selected assessment (row.attempt_count + 1)) rows
    else rows ++ started now key selected assessment 1 ∷ []

unfoldable pub record_success :
    (now : ℕ)
    → Text
    → (analytics_run_id : ℕ) → ReconciliationResult
    → List OrchestrationRun
    → List OrchestrationRun
unfolding update_run
record_success now key run_id result rows =
    update_run key
      (λ row. record row {
        status = success;
        completed_at = some now;
        analytics_run_id = some run_id;
        daily_mismatch_rows = some result.daily_mismatch_rows;
        incident_mismatch_rows = some result.incident_mismatch_rows;
        failed_task_id = none;
        error_type = none;
      })
      rows

unfoldable pub record_failure :
    (now : ℕ)
    → Text
    → (failed_task_id error_type : String) → List OrchestrationRun
    → List OrchestrationRun
unfolding update_run
record_failure now key task error rows =
    update_run key
      (λ row. record row {
        status = failed;
        completed_at = some now;
        failed_task_id = some task;
        error_type = some error;
      })
      rows

-- The name of the class of an exception of the refresh, given psycopg's for a violated constraint.
unfoldable pub error_name : (violation_class : String) → RefreshError → String
error_name violation_class already_running = "RuntimeError"
error_name violation_class missing_dates = "ValueError"
error_name violation_class violation = violation_class

-- What the workflow writes.
pub record World (R : Type 0) : Type 0 where
  pub warehouse : Warehouse R
  pub runs : List OrchestrationRun

-- What the tasks find when each starts: the sources go on changing between them. `attempts` has the state of the advisory
-- lock and the sources at each attempt of the refresh, of which the last one is kept apart. `failure_key` is the key under
-- which the failure callback records a failure, or none when its recording raises.
pub record Moments (R : Type 0) : Type 0 where
  pub assessed : Operational R
  pub activity : Activity
  pub first_attempts : List (Bool × Operational R)
  pub last_attempt : Bool × Operational R
  pub reconciled : Operational R
  pub started_at : ℕ
  pub completed_at : ℕ
  pub failure_key : Option Text

pub data Completion : Type 0 where
  completed : Completion
  failed_in : (task_id error_type : String) → Completion

-- The settings of the workflow, and what the database and Python compute for it.
pub record Settings (R : Type 0) : Type 0 where
  pub seconds : Seconds R
  pub quotients : Quotients R
  pub stale_after : ℕ
  pub delay_after : ℕ
  pub violation_class : String

module _ {R : Type 0} where
  -- `on_failure_callback`: it records the failure under the key that it computes itself. An exception of the recording is
  -- logged and dropped, and leaves the record as it was.
  unfoldable pub fail : Moments R → (task_id error_type : String) → World R → Completion × World R
  unfolding record_failure
  fail moments task error world = (
    failed_in task error,
    record world {
      runs = elim moments.failure_key [
        | none ↦ world.runs
        | some key ↦ record_failure moments.completed_at key task error world.runs
      ];
    },
  )

module _ {R : Type 0} ⦃num : Number R⦄ where
  -- A task with retries: the first attempt that returns.
  unfoldable pub attempt_refresh :
      DateSelection
      → List (Bool × Operational R)
      → Bool × Operational R
      → Warehouse R
      → Outcome × Warehouse R
  unfolding run
  attempt_refresh selection [] last w = run last.0 last.1 selection w
  attempt_refresh selection (attempt ∷ attempts) last w =
      elim (run attempt.0 attempt.1 selection w).0 [
        | refreshed result ↦ (refreshed result, (run attempt.0 attempt.1 selection w).1)
        | raised error ↦
            attempt_refresh selection attempts last (run attempt.0 attempt.1 selection w).1
      ]

  module _ (settings : Settings R) (moments : Moments R) (key : Text) (selected : DateRange) where
    -- `reconcile_analytics`, `validate_reporting` and `record_workflow_success`.
    unfoldable pub check_refresh : (analytics_run_id : ℕ) → World R → Completion × World R
    unfolding reconcile is_reconciled validate_reporting is_reportable record_success fail
    check_refresh run_id world =
        let result = reconcile moments.reconciled world.warehouse selected in
        if not (is_reconciled result)
        then fail moments "reconcile_analytics" "RuntimeError" world
        else if not
            (is_reportable (validate_reporting settings.quotients world.warehouse selected run_id))
        then fail moments "validate_reporting" "RuntimeError" world
        else (
          completed,
          record world { runs = record_success moments.completed_at key run_id result world.runs },
        )

    -- What follows the attempts of `run_analytics_refresh`.
    unfoldable pub after_refresh : Outcome → World R → Completion × World R
    unfolding check_refresh fail error_name
    after_refresh (refreshed result) world = check_refresh result.run_id world
    after_refresh (raised error) world =
        fail moments "run_analytics_refresh" (error_name settings.violation_class error) world

    unfoldable pub run_analytics : World R → Completion × World R
    unfolding attempt_refresh after_refresh
    run_analytics world =
        let selection : DateSelection = record {
          from_date = some selected.from_date;
          through_date = some selected.through_date;
          is_all = false;
        } in
        let attempt =
          attempt_refresh selection moments.first_attempts moments.last_attempt world.warehouse in
        after_refresh attempt.0 (record world { warehouse = attempt.1 })

    -- `assess_source_quality`, the task, given its assessment.
    unfoldable pub with_assessment : (SourceAssessment R) ⊎ String → World R → Completion × World R
    unfolding start_run may_refresh run_analytics fail
    with_assessment (inr message) world = fail moments "assess_source_quality" "ValueError" world
    with_assessment (inl assessment) world =
        let next = record world {
          runs = start_run moments.started_at key selected assessment world.runs;
        } in
        if not (may_refresh assessment.status)
        then fail moments "assess_source_quality" "RuntimeError" next
        else run_analytics next

    -- The tasks from `assess_source_quality` on.
    unfoldable pub workflow : World R → Completion × World R
    unfolding with_assessment assess_source_quality load_source_snapshot
    workflow world =
        with_assessment
          (assess_source_quality settings.seconds
            (load_source_snapshot settings.seconds selected moments.assessed moments.activity)
            settings.stale_after settings.delay_after)
          world
