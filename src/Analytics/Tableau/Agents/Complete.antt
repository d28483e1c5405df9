-- ===== src/Analytics/Tableau/Agents/Complete.antt =====
-- The dataset of the agents is always written, and accounts for the same probes as the daily dataset.
use local_network_kafka_moni.Base.{
  ℕ, Bool, true, false, not, List, [], ◌∷◌, map, some, ◌≡◌, refl, sym, ◌∙◌, subst, length, filter,
  all, arith, inl, inr, Bool-cases, and-left, and-right, ◌==◌,
}
use local_network_kafka_moni.Base.Number.{Number}
use local_network_kafka_moni.Base.Sort.{insert, sort}
use local_network_kafka_moni.Base.{nonempty}
use local_network_kafka_moni.Base.Grouping.{
  IsEquality, pair-IsEquality, member, distinct, member-distinct, member-map, all-of_Mem,
  distinct-Unique, List-cases, all-map_member, map_id,
}
use local_network_kafka_moni.Query.Cursor.Format.{same}
use local_network_kafka_moni.Analytics.Sources.Grain.{same-IsEquality}
use local_network_kafka_moni.Analytics.Refresh.{bounds_of}
use local_network_kafka_moni.Analytics.Tableau.{
  DailyReliabilitySource, Export, CsvValue, CsvDataset, csv_dataset, same_role, sum_by, totals_of,
  daily_dataset,
}
use local_network_kafka_moni.Analytics.Tableau.Totals.{
  role-IsEquality, sum_by-sort, part, sum_by-parts, counted, column_sum, daily_dataset-column_sum,
}
use local_network_kafka_moni.Analytics.Tableau.Agents.{
  agent_columns, AgentKey, same_agent, agent_key, agent_lt, sorted_agents, members_of_agent,
  agent_figures, agent_row, agent_rows, agent_dataset,
}

all-insert :
    {A : Type 0} (le : A → A → Bool) (p : A → Bool) (a : A) (xs : List A)
    → p a ≡ true
    → all p xs ≡ true
    → all p (insert le a xs) ≡ true
unfolding insert
all-insert le p a [] h k = rw h refl
all-insert le p a (x ∷ xs) h k = elim (Bool-cases (le a x)) [
  | inl e ↦ rw (e, h) k
  | inr e ↦ rw (e, and-left (p x) _ k, all-insert le p a xs h (and-right (p x) _ k)) refl
]

all-sort :
    {A : Type 0} (le : A → A → Bool) (p : A → Bool) (xs : List A)
    → all p xs ≡ true
    → all p (sort le xs) ≡ true
unfolding sort
all-sort le p [] h = refl
all-sort le p (x ∷ xs) h =
    all-insert le p x (sort le xs) (and-left (p x) _ h) (all-sort le p xs (and-right (p x) _ h))

nonempty-filter :
    {K A : Type 0} (eq : K → K → Bool) (key : A → K) (k : K) (xs : List A)
    → member eq k (map key xs) ≡ true
    → nonempty (filter (λ x. eq (key x) k) xs) ≡ true
nonempty-filter eq key k [] h = cc
nonempty-filter eq key k (x ∷ xs) h = elim (Bool-cases (eq (key x) k)) [
  | inl e ↦ rw e refl
  | inr e ↦ rw e (nonempty-filter eq key k xs (ground (arith, h, e)))
]

agent-IsEquality : IsEquality same_agent
unfolding same_agent
agent-IsEquality = pair-IsEquality same _ same-IsEquality (
    pair-IsEquality same_role _ role-IsEquality
      (pair-IsEquality same same same-IsEquality same-IsEquality))

module _ {R : Type 0} ⦃num : Number R⦄ (export : Export R)
    (rows : List (DailyReliabilitySource R)) where
  all-keyed :
      all
        (λ row.
          member same_agent
            (agent_key export row)
            (distinct same_agent (map (agent_key export) rows)))
        rows
      ≡ true
  all-keyed = all-of_Mem _ rows (λ row m.
      member-distinct same_agent agent-IsEquality (agent_key export row)
        (map (agent_key export) rows)
      ∙ member-map same_agent (agent_key export) row rows agent-IsEquality m)

  sum_by-agents :
      (f : DailyReliabilitySource R → ℕ)
      → sum_by (λ key. sum_by f (members_of_agent export key rows)) (sorted_agents export rows)
        ≡ sum_by f rows
  unfolding members_of_agent sorted_agents part
  sum_by-agents f =
      let keys = distinct same_agent (map (agent_key export) rows) in
      sum_by-sort (λ a b. not (agent_lt export b a))
        (λ key. sum_by f (members_of_agent export key rows)) keys
      ∙ sum_by-parts same_agent agent-IsEquality (agent_key export) f rows keys
          (distinct-Unique same_agent agent-IsEquality (map (agent_key export) rows)) all-keyed

  -- A row with the number of columns.
  unfoldable is_wide : List (CsvValue R) → Bool
  is_wide row = length row == length agent_columns

  -- What a row has under the columns of the counts.
  record HasCounts (members : List (DailyReliabilitySource R)) (row : List (CsvValue R))
      : Type 0 where
    total : counted "total_probes" agent_columns row ≡ sum_by (λ m. m.total_count) members
    successes :
        counted "successful_probes" agent_columns row ≡ sum_by (λ m. m.success_count) members
    failures : counted "failed_probes" agent_columns row ≡ sum_by (λ m. m.failure_count) members

  agent_row-some :
      (key : AgentKey) (first : DailyReliabilitySource R) (rest : List (DailyReliabilitySource R))
      → (output : List (CsvValue R)) × ((agent_row export key (first ∷ rest) ≡ some output)
          × ((is_wide output ≡ true) × HasCounts (first ∷ rest) output))
  unfolding agent_row agent_figures bounds_of is_wide totals_of
  agent_row-some key first rest =
      (_, (refl, (refl, record { total = refl; successes = refl; failures = refl })))

  groups_filled :
      all (λ key. nonempty (members_of_agent export key rows)) (sorted_agents export rows) ≡ true
  unfolding sorted_agents members_of_agent
  groups_filled =
      let keys = distinct same_agent (map (agent_key export) rows) in
      let filled : AgentKey → Bool = λ key. nonempty (members_of_agent export key rows) in
      all-sort (λ a b. not (agent_lt export b a)) filled keys
        (subst (λ ks. all filled ks ≡ true) (map_id keys)
          (all-map_member same_agent agent-IsEquality (λ key. key) filled keys
            (λ key m. nonempty-filter same_agent (agent_key export) key rows (
              sym (member-distinct same_agent agent-IsEquality key (map (agent_key export) rows))
              ∙ m))))

  -- The counts under the three columns of the rows of these groups.
  record HaveCounts (keys : List AgentKey) (output : List (List (CsvValue R))) : Type 0 where
    total :
        sum_by (counted "total_probes" agent_columns) output
        ≡ sum_by (λ key. sum_by (λ m. m.total_count) (members_of_agent export key rows)) keys
    successes :
        sum_by (counted "successful_probes" agent_columns) output
        ≡ sum_by (λ key. sum_by (λ m. m.success_count) (members_of_agent export key rows)) keys
    failures :
        sum_by (counted "failed_probes" agent_columns) output
        ≡ sum_by (λ key. sum_by (λ m. m.failure_count) (members_of_agent export key rows)) keys

  HaveCounts-cons :
      (key : AgentKey) (keys : List AgentKey) (row : List (CsvValue R))
      (output : List (List (CsvValue R)))
      → HasCounts (members_of_agent export key rows) row
      → HaveCounts keys output
      → HaveCounts (key ∷ keys) (row ∷ output)
  unfolding sum_by
  HaveCounts-cons key keys row output one rest = record {
    total = rw (one.total, rest.total) refl;
    successes = rw (one.successes, rest.successes) refl;
    failures = rw (one.failures, rest.failures) refl;
  }

  agent_rows-some :
      (keys : List AgentKey)
      → all (λ key. nonempty (members_of_agent export key rows)) keys ≡ true
      → (output : List (List (CsvValue R))) × ((agent_rows export keys rows ≡ some output)
          × ((all is_wide output ≡ true) × HaveCounts keys output))
  unfolding agent_rows sum_by
  agent_rows-some [] h =
      ([], (refl, (refl, record { total = refl; successes = refl; failures = refl })))
  agent_rows-some (key ∷ keys) h = elim (List-cases (members_of_agent export key rows)) [
    | inl e ↦
        let full = and-left (nonempty (members_of_agent export key rows)) _ h in
        let hollow : nonempty (members_of_agent export key rows) ≡ false = rw e refl in cc
    | inr (first, others, e) ↦
        let row = agent_row-some key first others in
        let rest =
          agent_rows-some keys (and-right (nonempty (members_of_agent export key rows)) _ h) in
        (
          row.0 ∷ rest.0,
          (
            rw (e, row.1.0, rest.1.0) refl,
            (
              rw (row.1.1.0, rest.1.1.0) refl,
              HaveCounts-cons key keys row.0 rest.0
                  (subst (λ members. HasCounts members row.0) (sym e) row.1.1.1) rest.1.1.1,
            ),
          ),
        )
  ]

  -- The daily dataset and the dataset of the agents are both written, whatever the rows: no group is without a date, and
  -- every line has as many values as there are columns. In the lines of either dataset the columns `total_probes`,
  -- `successful_probes` and `failed_probes` add up to the total, the successful and the failed probes of the rows.
  pub datasets-column_sum :
      ((daily : CsvDataset R) × ((daily_dataset export rows ≡ some daily)
          × ((column_sum "total_probes" daily ≡ sum_by (λ row. row.total_count) rows)
              × ((column_sum "successful_probes" daily ≡ sum_by (λ row. row.success_count) rows)
                  × (column_sum "failed_probes" daily ≡ sum_by (λ row. row.failure_count) rows)))))
      × ((agents : CsvDataset R) × ((agent_dataset export rows ≡ some agents)
            × ((column_sum "total_probes" agents ≡ sum_by (λ row. row.total_count) rows)
                × ((column_sum "successful_probes" agents ≡ sum_by (λ row. row.success_count) rows)
                    × (column_sum "failed_probes" agents
                        ≡ sum_by (λ row. row.failure_count) rows)))))
  unfolding agent_dataset csv_dataset is_wide column_sum
  datasets-column_sum =
      let output = agent_rows-some (sorted_agents export rows) groups_filled in
      (
        daily_dataset-column_sum export rows,
        (
          record { columns = agent_columns; rows = output.0 },
          (
            rw (output.1.0, output.1.1.0) refl,
            (
              output.1.1.1.total ∙ sum_by-agents (λ row. row.total_count),
              (
                output.1.1.1.successes ∙ sum_by-agents (λ row. row.success_count),
                output.1.1.1.failures ∙ sum_by-agents (λ row. row.failure_count),
              ),
            ),
          ),
        ),
      )
