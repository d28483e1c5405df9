-- ===== src/Analytics/Tableau/Agents.antt =====
-- services/analytics/src/netpulse_analytics/tableau/transform.py: the dataset of the agents, whose groups have no date.
pub mod Complete
use local_network_kafka_moni.Base.{
  ℕ, ◌+◌, String, Bool, true, false, not, ◌&&◌, ◌||◌, List, [], ◌∷◌, map, Option, none, some,
  length, filter,
}
use local_network_kafka_moni.Base.Options.{◌>>=◌}
use local_network_kafka_moni.Base.Number.{Number}
use local_network_kafka_moni.Base.Sort.{sort}
use local_network_kafka_moni.Base.Grouping.{distinct}
use local_network_kafka_moni.Query.Models.{Text, Date}
use local_network_kafka_moni.Query.Cursor.Format.{same}
use local_network_kafka_moni.Query.Repository.{lex}
use local_network_kafka_moni.Analytics.Refresh.{bounds_of}
use local_network_kafka_moni.Analytics.Warehouse.{same_date}
use local_network_kafka_moni.Analytics.Tableau.{
  DailyReliabilitySource, Export, CsvValue, text, integer, CsvDataset, csv_dataset, same_role,
  or_blank, GroupTotals, text_or_empty, totals_of, ratio,
}

abbrev pub agent_columns : List String
agent_columns =
    "agent_key" ∷ "agent_role" ∷ "source_kind" ∷ "measurement_type" ∷ "first_observation_date"
    ∷ "latest_observation_date" ∷ "observation_day_count" ∷ "total_probes" ∷ "successful_probes"
    ∷ "failed_probes" ∷ "success_rate_pct" ∷ "average_latency_ms" ∷ "average_packet_loss_pct" ∷ []

-- The agent's key, its role, the source and the type.
abbrev pub AgentKey : Type 0
AgentKey = Text × ((Option Text) × (Text × Text))

-- The equality of the keys of the dict.
unfoldable pub same_agent : AgentKey → AgentKey → Bool
unfolding same_role same
same_agent a b =
    same a.0 b.0 && (same_role a.1.0 b.1.0 && (same a.1.1.0 b.1.1.0 && same a.1.1.1 b.1.1.1))

module _ {R : Type 0} (export : Export R) where
  unfoldable pub agent_key : DailyReliabilitySource R → AgentKey
  agent_key row = (
    export.pseudonymize_agent row.agent_id,
    (row.agent_role, (row.source_kind, row.measurement_type)),
  )

  unfoldable pub agent_lt : AgentKey → AgentKey → Bool
  unfolding or_blank
  agent_lt =
      lex (λ a b. export.text_lt a.0 b.0)
        (lex (λ a b. export.text_lt (or_blank a.1.0) (or_blank b.1.0))
          (lex (λ a b. export.text_lt a.1.1.0 b.1.1.0) (λ a b. export.text_lt a.1.1.1 b.1.1.1)))

  -- `sorted(groups, key=...)`, and the members of a group.
  unfoldable pub sorted_agents : List (DailyReliabilitySource R) → List AgentKey
  unfolding same_agent agent_key agent_lt
  sorted_agents rows = sort (λ a b. not (agent_lt b a)) (distinct same_agent (map agent_key rows))

  unfoldable pub members_of_agent :
      AgentKey → List (DailyReliabilitySource R) → List (DailyReliabilitySource R)
  unfolding same_agent agent_key
  members_of_agent key rows = filter (λ row. same_agent (agent_key row) key) rows

module _ {R : Type 0} ⦃num : Number R⦄ (export : Export R) where
  unfoldable pub agent_figures : AgentKey → Date → Date → ℕ → GroupTotals R → List (CsvValue R)
  unfolding ratio text_or_empty
  agent_figures key first latest days t =
      text key.0
      ∷ text_or_empty key.1.0
      ∷ text key.1.1.0
      ∷ text key.1.1.1
      ∷ text (export.isoformat first)
      ∷ text (export.isoformat latest)
      ∷ integer days
      ∷ integer t.total
      ∷ integer t.successes
      ∷ integer t.failures
      ∷ ratio export (num.of_ℕ t.successes) t.total (num.of_ℕ 100)
      ∷ ratio export t.latency_sum t.latency_count (num.of_ℕ 1)
      ∷ ratio export t.loss_sum t.loss_count (num.of_ℕ 1)
      ∷ []

  -- The row of a group: `min` and `max` raise a `ValueError` when there is no date.
  unfoldable pub agent_row : AgentKey → List (DailyReliabilitySource R) → Option (List (CsvValue R))
  unfolding bounds_of agent_figures totals_of
  agent_row key members =
      let dates = distinct same_date (map (λ row. row.date_utc) members) in
      do
        bounds ← bounds_of dates
        some (agent_figures key bounds.0 bounds.1 (length dates) (totals_of members))

  unfoldable pub agent_rows :
      List AgentKey → List (DailyReliabilitySource R) → Option (List (List (CsvValue R)))
  unfolding members_of_agent
  agent_rows [] rows = some []
  agent_rows (key ∷ keys) rows = do
    first ← agent_row key (members_of_agent export key rows)
    rest ← agent_rows keys rows
    some (first ∷ rest)

  unfoldable pub agent_dataset : List (DailyReliabilitySource R) → Option (CsvDataset R)
  unfolding agent_rows sorted_agents csv_dataset
  agent_dataset rows = do
    output ← agent_rows (sorted_agents export rows) rows
    csv_dataset agent_columns output
