-- ===== src/Analytics/Tableau.antt =====
-- services/analytics/src/netpulse_analytics/tableau: models.py and the datasets of transform.py that sum the daily figures.
-- The digest of an agent's identifier, the texts of dates, the order of texts and the quotients are parameters.
pub mod Totals
pub mod Agents
use local_network_kafka_moni.Base.{
  ℕ, ◌+◌, String, Bool, true, false, not, ◌&&◌, ◌||◌, List, [], ◌∷◌, map, Option, none, some, leb,
  ltb, ◌==◌, length, filter, all, if◌then◌else◌,
}
use local_network_kafka_moni.Base.Number.{Number}
use local_network_kafka_moni.Base.Sort.{sort}
use local_network_kafka_moni.Base.Grouping.{distinct}
use local_network_kafka_moni.Query.Models.{Text, Date}
use local_network_kafka_moni.Query.Cursor.Format.{same}
use local_network_kafka_moni.Query.Repository.{lex}

pub record DailyReliabilitySource (R : Type 0) : Type 0 where
  pub date_utc : Date
  pub agent_id : Text
  pub agent_role : Option Text
  pub source_kind : Text
  pub measurement_type : Text
  pub total_count : ℕ
  pub success_count : ℕ
  pub failure_count : ℕ
  pub latency_count : ℕ
  pub latency_sum_ms : Option R
  pub packet_loss_count : ℕ
  pub packet_loss_sum_pct : Option R

-- What Python's libraries compute for the export.
pub record Export (R : Type 0) : Type 0 where
  pub pseudonymize_agent : Text → Text
  pub isoformat : Date → Text
  pub text_lt : Text → Text → Bool
  -- `a / n`
  pub divide : R → ℕ → R

pub data CsvValue (R : Type 0) : Type 0 where
  text : Text → CsvValue R
  integer : ℕ → CsvValue R
  float : R → CsvValue R
  empty : CsvValue R

pub record CsvDataset (R : Type 0) : Type 0 where
  pub columns : List String
  pub rows : List (List (CsvValue R))

-- The constructor's check, `ValueError("CSV row column count does not match the header")`.
unfoldable pub csv_dataset :
    {R : Type 0} → List String → List (List (CsvValue R)) → Option (CsvDataset R)
csv_dataset columns rows =
    if not (all (λ row. length row == length columns) rows)
    then none
    else some (record { columns = columns; rows = rows })

abbrev pub daily_columns : List String
daily_columns =
    "date_utc" ∷ "agent_key" ∷ "agent_role" ∷ "source_kind" ∷ "measurement_type" ∷ "total_probes"
    ∷ "successful_probes" ∷ "failed_probes" ∷ "success_rate_pct" ∷ "average_latency_ms"
    ∷ "average_packet_loss_pct" ∷ []

-- A group: the date, the agent's key, its role, the source and the type.
abbrev pub GroupKey : Type 0
GroupKey = Date × (Text × ((Option Text) × (Text × Text)))

unfoldable pub same_role : Option Text → Option Text → Bool
unfolding same
same_role none none = true
same_role none (some b) = false
same_role (some a) none = false
same_role (some a) (some b) = same a b

-- The equality of the keys of a dict.
unfoldable pub same_group : GroupKey → GroupKey → Bool
unfolding same_role same
same_group a b =
    (a.0 == b.0)
    && (same a.1.0 b.1.0
        && (same_role a.1.1.0 b.1.1.0 && (same a.1.1.1.0 b.1.1.1.0 && same a.1.1.1.1 b.1.1.1.1)))

-- `item[2] or ""`
unfoldable pub or_blank : Option Text → Text
or_blank none = []
or_blank (some role) = role

-- The counts and sums of the members of a group.
pub record GroupTotals (R : Type 0) : Type 0 where
  pub total : ℕ
  pub successes : ℕ
  pub failures : ℕ
  pub latency_count : ℕ
  pub latency_sum : R
  pub loss_count : ℕ
  pub loss_sum : R

unfoldable pub sum_by : {A : Type 0} → (A → ℕ) → List A → ℕ
sum_by f [] = 0
sum_by f (x ∷ xs) = f x + sum_by f xs

unfoldable pub text_or_empty : {R : Type 0} → Option Text → CsvValue R
text_or_empty none = empty
text_or_empty (some value) = text value

module _ {R : Type 0} (export : Export R) where
  -- `_daily_groups`: the key of a row, and the order of the keys.
  unfoldable pub daily_key : DailyReliabilitySource R → GroupKey
  daily_key row = (
    row.date_utc,
    (
      export.pseudonymize_agent row.agent_id,
      (row.agent_role, (row.source_kind, row.measurement_type)),
    ),
  )

  unfoldable pub group_lt : GroupKey → GroupKey → Bool
  unfolding or_blank
  group_lt =
      lex (λ a b. ltb a.0 b.0)
        (lex (λ a b. export.text_lt a.1.0 b.1.0)
          (lex (λ a b. export.text_lt (or_blank a.1.1.0) (or_blank b.1.1.0))
            (lex (λ a b. export.text_lt a.1.1.1.0 b.1.1.1.0)
              (λ a b. export.text_lt a.1.1.1.1 b.1.1.1.1))))

  -- `sorted(groups, key=...)`, and the members of a group.
  unfoldable pub sorted_groups : List (DailyReliabilitySource R) → List GroupKey
  unfolding same_group daily_key group_lt
  sorted_groups rows = sort (λ a b. not (group_lt b a)) (distinct same_group (map daily_key rows))

  unfoldable pub members_of_group :
      GroupKey → List (DailyReliabilitySource R) → List (DailyReliabilitySource R)
  unfolding same_group daily_key
  members_of_group key rows = filter (λ row. same_group (daily_key row) key) rows

module _ {R : Type 0} ⦃num : Number R⦄ where
  -- `sum(row.latency_sum_ms or 0.0 for row in members)`, from 0 on.
  unfoldable pub or_zero : Option R → R
  or_zero none = num.of_ℕ 0
  or_zero (some value) = value

  unfoldable pub add_present : R → List (Option R) → R
  unfolding or_zero
  add_present sum [] = sum
  add_present sum (value ∷ values) = add_present (num.add sum (or_zero value)) values

  unfoldable pub totals_of : List (DailyReliabilitySource R) → GroupTotals R
  unfolding sum_by add_present
  totals_of members = record {
    total = sum_by (λ row. row.total_count) members;
    successes = sum_by (λ row. row.success_count) members;
    failures = sum_by (λ row. row.failure_count) members;
    latency_count = sum_by (λ row. row.latency_count) members;
    latency_sum = add_present (num.of_ℕ 0) (map (λ row. row.latency_sum_ms) members);
    loss_count = sum_by (λ row. row.packet_loss_count) members;
    loss_sum = add_present (num.of_ℕ 0) (map (λ row. row.packet_loss_sum_pct) members);
  }

  -- `_ratio`
  unfoldable pub ratio :
      Export R → (numerator : R) → (denominator : ℕ) → (multiplier : R) → CsvValue R
  ratio export numerator denominator multiplier =
      if denominator == 0
      then empty
      else float (export.divide (num.mul multiplier numerator) denominator)

  unfoldable pub daily_row : Export R → GroupKey → GroupTotals R → List (CsvValue R)
  unfolding ratio text_or_empty
  daily_row export key t =
      text (export.isoformat key.0)
      ∷ text key.1.0
      ∷ text_or_empty key.1.1.0
      ∷ text key.1.1.1.0
      ∷ text key.1.1.1.1
      ∷ integer t.total
      ∷ integer t.successes
      ∷ integer t.failures
      ∷ ratio export (num.of_ℕ t.successes) t.total (num.of_ℕ 100)
      ∷ ratio export t.latency_sum t.latency_count (num.of_ℕ 1)
      ∷ ratio export t.loss_sum t.loss_count (num.of_ℕ 1)
      ∷ []

  -- The groups of `_daily_dataset` in their order, each with its totals.
  unfoldable pub daily_groups :
      Export R → List (DailyReliabilitySource R) → List (GroupKey × GroupTotals R)
  unfolding sorted_groups members_of_group totals_of
  daily_groups export rows =
      map (λ key. (key, totals_of (members_of_group export key rows))) (sorted_groups export rows)

  unfoldable pub daily_dataset : Export R → List (DailyReliabilitySource R) → Option (CsvDataset R)
  unfolding daily_groups daily_row csv_dataset
  daily_dataset export rows =
      csv_dataset daily_columns
        (map (λ group. daily_row export group.0 group.1) (daily_groups export rows))
