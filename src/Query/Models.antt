-- ===== src/Query/Models.antt =====
-- services/query-api/src/netpulse_query_api/models.py: filters, cursor keys and rows. A text is the list
-- of its code points, a date its proleptic Gregorian ordinal, as `toordinal` counts; a figure that is a
-- float is of a type `F`.
use local_network_kafka_moni.Base.{
  ℕ, ◌+◌, ◌-◌, String, Bool, not, ◌&&◌, List, Option, none, some, leb, ltb, length, any,
  if◌then◌else◌,
}

pub data SourceKind : Type 0 where
  network_measurement service_check : SourceKind

abbrev pub Text : Type 0
Text = List ℕ

abbrev pub Date : Type 0
Date = ℕ

pub record DailyReliabilityFilters : Type 0 where
  pub from_date : Option Date
  pub through_date : Option Date
  pub agent_id : Option Text
  pub endpoint_id : Option Text
  pub source_kind : Option SourceKind
  pub probe_type : Option Text

-- `validate_date_range`: the messages of the errors.
unfoldable pub validate_date_range : DailyReliabilityFilters → Option String
validate_date_range filters = elim filters.from_date [
  | none ↦ elim filters.through_date [
    | none ↦ none
    | some through ↦ some "from_date and through_date must be provided together"
  ]
  | some from ↦ elim filters.through_date [
    | none ↦ some "from_date and through_date must be provided together"
    | some through ↦
        if ltb through from
        then some "from_date must not follow through_date"
        else if ltb 366 (through - from + 1)
        then some "date range must not exceed 366 days"
        else none
  ]
]

pub record CursorKey : Type 0 where
  pub date_utc : Date
  pub agent_id : Text
  pub endpoint_id : Text
  pub source_kind : SourceKind
  pub probe_type : Text

-- `StoredIdentifier`: from 1 to 128 characters, one of them no white space.
unfoldable pub is_stored_identifier : (is_space : ℕ → Bool) → Text → Bool
is_stored_identifier is_space text =
    leb 1 (length text) && leb (length text) 128 && any (λ c. not (is_space c)) text

pub record DailyReliabilityRow (F : Type 0) : Type 0 where
  pub key : CursorKey
  pub total_count : ℕ
  pub success_count : ℕ
  pub failure_count : ℕ
  pub success_rate_pct : Option F
  pub latency_count : ℕ
  pub latency_sum_ms : Option F
  pub mean_latency_ms : Option F
  pub packet_loss_count : ℕ
  pub packet_loss_sum_pct : Option F
  pub mean_packet_loss_pct : Option F
