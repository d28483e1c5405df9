-- ===== src/Tests/Analytics.antt =====
-- The theorems about the analytics at concrete inputs.
use local_network_kafka_moni.Tests.Warehouse.{
  source, empty, grain, selected, quotients, seconds, activity, settings, moments, world,
}
use local_network_kafka_moni.Base.{
  ◌≡◌, ◌↔◌, All, refl, ap, true, [], ◌∷◌, none, some, ◌==◌, length, filter, all, if◌then◌else◌,
  arith,
}
use local_network_kafka_moni.Base.Grouping.{Unique, distinct}
use local_network_kafka_moni.Query.Cursor.Format.{same}
use local_network_kafka_moni.Analytics.Models.{SourceAssessment, healthy}
use local_network_kafka_moni.Analytics.Sources.{between, same_grain, group_by_grain, observations}
use local_network_kafka_moni.Analytics.Sources.Figures.{group_by_grain-checks}
use local_network_kafka_moni.Analytics.Warehouse.{Operational, ids, satisfies_checks}
use local_network_kafka_moni.Analytics.Refresh.{refreshed, run}
use local_network_kafka_moni.Analytics.Refresh.Lookup.{lookup, figure, all_observations, grains}
use local_network_kafka_moni.Analytics.Refresh.References.{IsReferenced}
use local_network_kafka_moni.Analytics.Refresh.Succeeds.{fact_grains}
use local_network_kafka_moni.Analytics.Refresh.Figures.{
  range, run-figure, run-succeeds, run-run_facts,
}
use local_network_kafka_moni.Analytics.Refresh.Everything.{everything, run-figure-everything}
use local_network_kafka_moni.Analytics.Reconcile.{reconcile, expected_daily}
use local_network_kafka_moni.Analytics.Reconcile.Daily.{SameRows, reconcile-agrees}
use local_network_kafka_moni.Analytics.Reconcile.After.{reconcile-run}
use local_network_kafka_moni.Analytics.Reconcile.Exact.{reconcile-run_other, SameRows-refl}
use local_network_kafka_moni.Analytics.Reporting.{view_row, is_invalid, validate_reporting}
use local_network_kafka_moni.Analytics.Reporting.Plausible.{IsPlausible}
use local_network_kafka_moni.Analytics.Reporting.Valid.{validate_reporting-run}
use local_network_kafka_moni.Analytics.Quality.{
  load_source_snapshot, assess_source_quality, observed, in_range, is_relevant, is_relevant_failure,
}
use local_network_kafka_moni.Analytics.Quality.Decision.{permits, is_trustworthy, assess-permits}
use local_network_kafka_moni.Analytics.Selection.{
  aware, Calendar, IsBounded, select_date_range, select_date_range-IsBounded,
}
use local_network_kafka_moni.Analytics.Workflow.{completed, workflow}
use local_network_kafka_moni.Analytics.Workflow.Outcomes.{workflow-agrees}
use local_network_kafka_moni.Analytics.Workflow.Completes.{IsSteady, workflow-completes}
use local_network_kafka_moni.Analytics.Workflow.Recorded.{
  status_of, final_status, workflow-status_of,
}
use local_network_kafka_moni.Tests.Hundredths.{ℤ, hundredths}

source-IsReferenced : IsReferenced source
unfolding same ids
source-IsReferenced = record {
  measurement_agents = refl;
  measurement_targets = refl;
  check_agents = refl;
  check_endpoints = refl;
  incident_ids = refl;
  revisions = refl;
  affected_agents = refl;
  affected_endpoints = refl;
}

empty-apart : Unique same_grain (fact_grains {R = ℤ} empty.facts)
unfolding fact_grains
empty-apart = tt

run-figure_example : lookup grain (run true source (range 2 2) empty).1.facts ≡ (
    if between 2 2 grain.date_utc
    then figure grain (all_observations source.measurements source.checks)
    else lookup {R = ℤ} grain empty.facts)
run-figure_example =
    run-figure source 2 2 empty grain source-IsReferenced (omega arith) (omega arith) empty-apart

run-succeeds_example :
    (run true source (range 2 2) empty).0
    ≡ refreshed (record {
      run_id = 1;
      daily_rows = length (
          distinct same_grain (
            grains (
              filter
                (λ row. between 2 2 row.grain.date_utc)
                (all_observations source.measurements source.checks))));
      incident_rows = 1;
    })
run-succeeds_example =
    run-succeeds source 2 2 empty source-IsReferenced (omega arith) (omega arith) empty-apart

run-run_facts_example :
    (run true source (range 2 2) (run true source (range 2 2) empty).1).1.facts
    ≡ (run true source (range 2 2) empty).1.facts
run-run_facts_example =
    run-run_facts source 2 2 empty source-IsReferenced (omega arith) (omega arith) empty-apart

run-figure-everything_example :
    lookup grain (run true source everything empty).1.facts
    ≡ figure grain (all_observations source.measurements source.checks)
run-figure-everything_example =
    run-figure-everything source empty grain source-IsReferenced empty-apart refl

reconciled_after_run : reconcile source (run true source (range 2 2) empty).1 selected ≡ record {
  daily_source_rows = length (expected_daily source 2 2);
  daily_fact_rows = length (expected_daily source 2 2);
  daily_mismatch_rows = 0;
  source_incidents = 1;
  fact_incidents = 1;
  incident_mismatch_rows = 0;
}
reconciled_after_run =
    reconcile-run source 2 2 empty source-IsReferenced ((refl, tt), tt) ((refl, tt), tt)
      (omega arith) (omega arith) empty-apart

-- Sources with the same observations and without the incidents.
abbrev later_source : Operational ℤ
later_source = record source { incidents = [] }

reconcile-run_other_example :
    (reconcile later_source (run true source (range 2 2) empty).1 selected).daily_mismatch_rows ≡ 0
reconcile-run_other_example =
    reconcile-run_other source later_source 2 2 empty source-IsReferenced (omega arith)
      (omega arith) empty-apart
      (λ g inside. SameRows-refl (figure g (all_observations source.measurements source.checks)))

reconcile-agrees_example :
    SameRows
      (figure grain (all_observations source.measurements source.checks))
      (lookup grain (run true source (range 2 2) empty).1.facts)
unfolding between
reconcile-agrees_example =
    reconcile-agrees source (run true source (range 2 2) empty).1 selected grain (omega arith) refl
      (ap (λ r. r.daily_mismatch_rows)
        (reconcile-run source 2 2 empty source-IsReferenced ((refl, tt), tt) ((refl, tt), tt)
          (omega arith) (omega arith) empty-apart))

validate_reporting-run_example :
    let found = validate_reporting quotients (run true source (range 2 2) empty).1 selected 1 in
    (found.reporting_rows
      ≡ length (group_by_grain (observations 2 2 source.measurements source.checks)))
    × ((found.duplicate_rows ≡ 0)
        × ((found.run_matches ≡ true)
            × ((found.invalid_rows ≡ 0)
                ↔ All
                    (IsPlausible quotients)
                    (group_by_grain (observations 2 2 source.measurements source.checks)))))
validate_reporting-run_example =
    validate_reporting-run quotients source 2 2 empty source-IsReferenced (omega arith)
      (omega arith) empty-apart

assess-permits_example :
    permits (
      assess_source_quality seconds
        (load_source_snapshot seconds selected source activity)
        900000000
        600000000)
    ≡ is_trustworthy 900000000 selected source activity
assess-permits_example =
    assess-permits seconds selected source activity 900000000 600000000 (omega arith) (omega arith)

world-IsSteady : IsSteady settings moments (107 ∷ []) selected world
unfolding is_invalid view_row group_by_grain observations hundredths
world-IsSteady = record {
  waiting = (refl, tt);
  unlocked = refl;
  referenced = source-IsReferenced;
  agents_apart = ((refl, tt), tt);
  endpoints_apart = ((refl, tt), tt);
  dated = omega arith;
  ordered = omega arith;
  grains_apart = empty-apart;
  plausible = refl;
}

world-completed : (workflow settings moments (107 ∷ []) selected world).0 ≡ completed
unfolding is_trustworthy observed in_range is_relevant is_relevant_failure
world-completed =
    workflow-completes settings moments (107 ∷ []) selected world (omega arith) (omega arith) refl
      world-IsSteady

workflow-agrees_example :
    (permits (
        assess_source_quality seconds
          (load_source_snapshot seconds selected source activity)
          900000000
          600000000)
      ≡ true)
    × SameRows
        (figure grain (all_observations source.measurements source.checks))
        (lookup grain (workflow settings moments (107 ∷ []) selected world).1.warehouse.facts)
unfolding between
workflow-agrees_example =
    workflow-agrees settings moments (107 ∷ []) selected world grain (omega arith) refl
      world-completed

-- The assessment of the source.
abbrev assessment : SourceAssessment ℤ
assessment = record {
  status = healthy;
  snapshot = load_source_snapshot seconds selected source activity;
  reason = "source observations are current";
}

workflow-status_of_example :
    status_of (107 ∷ []) (workflow settings moments (107 ∷ []) selected world).1.runs
    ≡ some (final_status moments (107 ∷ []) (workflow settings moments (107 ∷ []) selected world).0)
unfolding assess_source_quality load_source_snapshot hundredths
workflow-status_of_example =
    workflow-status_of settings moments (107 ∷ []) selected assessment world refl

abbrev calendar : Calendar
calendar = record {
  fromisoformat = λ text. some (length text);
  isoformat = λ date. date ∷ [];
  is_space = λ c. c == 32;
}

select_date_range-IsBounded_example :
    IsBounded 31 (select_date_range calendar 31 (some (aware 86400000001)) none none)
select_date_range-IsBounded_example =
    select_date_range-IsBounded calendar 31 (some (aware 86400000001)) none none

group_by_grain-checks_example :
    all satisfies_checks (group_by_grain (observations 2 2 source.measurements source.checks))
    ≡ true
group_by_grain-checks_example =
    group_by_grain-checks (observations 2 2 source.measurements source.checks)
