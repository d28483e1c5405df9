-- ===== src/Tests/Tableau.antt =====
-- The daily dataset of the export at a concrete input: three rows of two agents on two days.
use local_network_kafka_moni.Base.{ℕ, ◌+◌, ◌≡◌, refl, List, [], ◌∷◌, map, none, some}
use local_network_kafka_moni.Query.Models.{Text, Date}
use local_network_kafka_moni.Base.Sort.{sort}
use local_network_kafka_moni.Analytics.Tableau.{CsvDataset}
use local_network_kafka_moni.Analytics.Tableau.{
  DailyReliabilitySource, Export, sum_by, daily_groups, daily_dataset,
}
use local_network_kafka_moni.Analytics.Tableau.Totals.{column_sum}
use local_network_kafka_moni.Analytics.Tableau.Agents.{agent_dataset}
use local_network_kafka_moni.Analytics.Tableau.Agents.Complete.{datasets-column_sum}
use local_network_kafka_moni.Tests.Hundredths.{ℤ, pos, hundredths}
use local_network_kafka_moni.Tests.Listing.{text_lt}

abbrev export : Export ℤ
export = record {
  pseudonymize_agent = λ agent_id. 95 ∷ agent_id;
  isoformat = λ date. date ∷ [];
  text_lt = text_lt;
  divide = λ numerator count. numerator;
}

abbrev row : Date → Text → ℕ → DailyReliabilitySource ℤ
row date agent_id successes = record {
  date_utc = date;
  agent_id = agent_id;
  agent_role = some (119 ∷ []);
  source_kind = 110 ∷ [];
  measurement_type = 112 ∷ [];
  total_count = successes + 1;
  success_count = successes;
  failure_count = 1;
  latency_count = 1;
  latency_sum_ms = some (pos 1250);
  packet_loss_count = 0;
  packet_loss_sum_pct = none;
}

abbrev rows : List (DailyReliabilitySource ℤ)
rows = row 2 (97 ∷ []) 3 ∷ row 1 (98 ∷ []) 4 ∷ row 2 (97 ∷ []) 5 ∷ []

-- The second day has one row, with the probes of both rows of its agent.
two_groups : map (λ group. group.1.total) (daily_groups export rows) ≡ 5 ∷ 10 ∷ []
unfolding daily_groups sort
two_groups = refl

datasets-column_sum_example :
    ((daily : CsvDataset ℤ) × ((daily_dataset export rows ≡ some daily)
        × ((column_sum "total_probes" daily ≡ sum_by (λ r. r.total_count) rows)
            × ((column_sum "successful_probes" daily ≡ sum_by (λ r. r.success_count) rows)
                × (column_sum "failed_probes" daily ≡ sum_by (λ r. r.failure_count) rows)))))
    × ((agents : CsvDataset ℤ) × ((agent_dataset export rows ≡ some agents)
          × ((column_sum "total_probes" agents ≡ sum_by (λ r. r.total_count) rows)
              × ((column_sum "successful_probes" agents ≡ sum_by (λ r. r.success_count) rows)
                  × (column_sum "failed_probes" agents ≡ sum_by (λ r. r.failure_count) rows)))))
datasets-column_sum_example = datasets-column_sum export rows
