-- ===== src/Ingestor/Model.antt =====
-- services/event-ingestor/src/netpulse_ingestion/processor_types.py and repository.py: source records, and the tables that
-- the ingestor writes. A method of the repository is one transaction.
use local_network_kafka_moni.Base.{
  ℕ, ◌+◌, String, Bool, true, false, ◌&&◌, ◌||◌, List, [], ◌∷◌, ◌++◌, map, Option, any, str_eq,
  ◌==◌, if◌then◌else◌,
}

pub record SourceRecord : Type 0 where
  pub topic : String
  pub partition : ℕ
  pub offset : ℕ
  pub key : Option String
  pub value : List ℕ

-- What the ingestor looks at in an event: its kind, with the endpoint that it names, and its JSON text.
pub data Content : Type 0 where
  network_measurement : (target_id : String) → Content
  service_check : (endpoint_id : String) → Content
  speed_test heartbeat incident : Content

pub record Event : Type 0 where
  pub event_id : String
  pub agent_id : String
  pub content : Content
  pub payload : List ℕ

-- A row of `raw_events`, whose event identifier and whose source coordinates are unique.
pub record RawEvent : Type 0 where
  pub event : Event
  pub source : SourceRecord

-- A row of `processing_failures`; `published` says whether `dead_letter_published_at` is set.
pub record Failure : Type 0 where
  pub source : SourceRecord
  pub attempt_count : ℕ
  pub error_message : String
  pub published : Bool

-- `typed_events` stands for the four tables of events by kind.
pub record Database : Type 0 where
  pub raw_events : List RawEvent
  pub typed_events : List Event
  pub failures : List Failure

unfoldable pub same_coordinate : SourceRecord → SourceRecord → Bool
same_coordinate a b =
    str_eq a.topic b.topic && ((a.partition == b.partition) && (a.offset == b.offset))

-- Whether a row conflicts with an insertion, by either unique key.
unfoldable pub conflicts : Event → SourceRecord → RawEvent → Bool
unfolding same_coordinate
conflicts event source row =
    str_eq row.event.event_id event.event_id || same_coordinate row.source source

-- The number of the table of a kind of events.
unfoldable pub table_of : Content → ℕ
table_of (network_measurement target) = 0
table_of (service_check endpoint) = 1
table_of speed_test = 2
table_of heartbeat = 3
table_of incident = 4

-- `ON CONFLICT (event_id)` in the table of the event.
unfoldable pub same_row : Event → Event → Bool
unfolding table_of
same_row event row =
    (table_of row.content == table_of event.content) && str_eq row.event_id event.event_id

-- `_persist_typed`; an incident has no table of its own.
unfoldable pub persist_typed : Event → List Event → List Event
unfolding same_row
persist_typed event rows = elim event.content [
  | network_measurement target ↦ if any (same_row event) rows then rows else rows ++ event ∷ []
  | service_check endpoint ↦ if any (same_row event) rows then rows else rows ++ event ∷ []
  | speed_test ↦ if any (same_row event) rows then rows else rows ++ event ∷ []
  | heartbeat ↦ if any (same_row event) rows then rows else rows ++ event ∷ []
  | incident ↦ rows
]

unfoldable pub persist_event : Event → SourceRecord → Database → Bool × Database
unfolding conflicts persist_typed
persist_event event source db =
    if any (conflicts event source) db.raw_events then (false, db) else (
      true,
      record db {
        raw_events = db.raw_events ++ record { event = event; source = source } ∷ [];
        typed_events = persist_typed event db.typed_events;
      },
    )

-- The `DO UPDATE` of `record_failure`.
unfoldable pub fail_again : SourceRecord → String → Failure → Failure
unfolding same_coordinate
fail_again source message row =
    if same_coordinate row.source source
    then record row { attempt_count = row.attempt_count + 1; error_message = message }
    else row

unfoldable pub record_failure : SourceRecord → String → Database → Database
unfolding fail_again same_coordinate
record_failure source message db =
    if any (λ row. same_coordinate row.source source) db.failures
    then record db { failures = map (fail_again source message) db.failures }
    else record db {
      failures =
          db.failures
          ++ record {
            source = source;
            attempt_count = 1;
            error_message = message;
            published = false;
          }
            ∷ [];
    }

unfoldable pub set_published : SourceRecord → Failure → Failure
unfolding same_coordinate
set_published source row =
    if same_coordinate row.source source then record row { published = true } else row

unfoldable pub mark_dead_letter_published : SourceRecord → Database → Database
unfolding set_published
mark_dead_letter_published source db = record db {
  failures = map (set_published source) db.failures;
}
