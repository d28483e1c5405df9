-- ===== src/Ingestor/Processor.antt =====
-- services/event-ingestor/src/netpulse_ingestion/processor.py, with validate_event of
-- packages/contracts/src/netpulse_contracts/validation.py. Parsing and the checks of the contract are parameters, and so are
-- the texts that the processor sends.
pub mod Kept
use Prim.Native.String.{◌++◌ as text_append}
use local_network_kafka_moni.Base.{
  ℕ, ◌+◌, String, Bool, true, false, not, List, [], ◌∷◌, Option, none, some, mem_text, nonempty,
  if◌then◌else◌,
}
use local_network_kafka_moni.Ingestor.Model.{
  SourceRecord, Content, network_measurement, service_check, speed_test, heartbeat, incident, Event,
  Database, persist_event, record_failure, mark_dead_letter_published,
}

-- The result of `json.loads` on the decoded bytes, with `J` for the objects.
pub data Loaded (J : Type 0) : Type 0 where
  undecodable : (message : String) → Loaded J
  no_object : Loaded J
  object : J → Loaded J

pub data Checked : Type 0 where
  event_ok : Event → Checked
  -- `EventValidationError`, with its message.
  event_error : String → Checked

pub record Message : Type 0 where
  pub topic : String
  pub key : Option String
  pub value : List ℕ

-- The libraries and the settings.
pub record Setup (J : Type 0) : Type 0 where
  pub loads : List ℕ → Loaded J
  -- The type adapter: the event, or none where the contract is violated.
  pub validate_python : J → Option Event
  pub known_agents : List String
  pub known_endpoints : List String
  -- The JSON text of a dead letter.
  pub dead_letter : SourceRecord → String → List ℕ
  -- Whether the broker acknowledges the publication with this number.
  pub broker : ℕ → Bool

-- The database, the messages that the broker acknowledged (the latest first), and the number of
-- publications.
pub record World : Type 0 where
  pub db : Database
  pub delivered : List Message
  pub calls : ℕ

pub data ProcessingOutcome : Type 0 where
  valid duplicate dead_lettered : ProcessingOutcome

pub data Result : Type 0 where
  processed : ProcessingOutcome → (event_id : Option String) → Result
  -- An exception: `KafkaPublicationError`.
  raised : Result

abbrev pub default_agents : List String
default_agents = "network-agent-ethernet-01" ∷ "network-agent-wifi-01" ∷ []

abbrev pub default_endpoints : List String
default_endpoints =
    "router" ∷ "public-dns-a" ∷ "public-dns-b" ∷ "wifi-interface" ∷ "dns-check" ∷ "example-service"
    ∷ []

-- `known or KNOWN`
unfoldable pub known_or : List String → List String → List String
known_or known defaults = if nonempty known then known else defaults

-- `getattr(event, "target_id", None) or getattr(event, "endpoint_id", None)`
unfoldable pub endpoint_of : Content → Option String
endpoint_of (network_measurement target) = some target
endpoint_of (service_check endpoint) = some endpoint
endpoint_of _ = none

unfoldable pub is_unknown_endpoint : List String → Option String → Bool
is_unknown_endpoint endpoints none = false
is_unknown_endpoint endpoints (some endpoint) = not (mem_text endpoint endpoints)

unfoldable pub is_measurement : Content → Bool
is_measurement (network_measurement target) = true
is_measurement _ = false

unfoldable pub outcome_of : Bool → ProcessingOutcome
outcome_of true = valid
outcome_of false = duplicate

unfoldable pub text_of : Option String → String
text_of none = ""
text_of (some text) = text

module _ {J : Type 0} (setup : Setup J) where
  unfoldable pub validate_event : List ℕ → Checked
  validate_event payload = elim (setup.loads payload) [
    | undecodable message ↦ event_error message
    | no_object ↦ event_error "event must be a JSON object"
    | object candidate ↦ elim (setup.validate_python candidate) [
      | none ↦ event_error "event contract validation failed"
      | some event ↦ event_ok event
    ]
  ]

  unfoldable pub validate_references : Event → Checked
  unfolding known_or endpoint_of is_unknown_endpoint text_of
  validate_references event =
      if not (mem_text event.agent_id (known_or setup.known_agents default_agents))
      then event_error (text_append "unrecognized agent_id: " event.agent_id)
      else if is_unknown_endpoint (known_or setup.known_endpoints default_endpoints)
          (endpoint_of event.content)
      then event_error (text_append "unrecognized endpoint: " (text_of (endpoint_of event.content)))
      else event_ok event

  -- The `try` block of `process`.
  unfoldable pub check : SourceRecord → Checked
  unfolding validate_event validate_references
  check source = elim (validate_event source.value) [
    | event_ok event ↦ validate_references event
    | event_error message ↦ event_error message
  ]

  unfoldable pub publish : Message → World → Bool × World
  publish message w =
      if setup.broker w.calls
      then (true, record w { delivered = message ∷ w.delivered; calls = w.calls + 1 })
      else (false, record w { calls = w.calls + 1 })

  unfoldable pub send_dead_letter : SourceRecord → String → World → Result × World
  unfolding publish record_failure mark_dead_letter_published
  send_dead_letter source message w =
      let recorded = record w { db = record_failure source message w.db } in
      let sent =
        publish
          (record {
            topic = "network.dead-letter.v1";
            key = source.key;
            value = setup.dead_letter source message;
          })
          recorded in
      if sent.0
      then (
        processed dead_lettered none,
        record sent.1 { db = mark_dead_letter_published source sent.1.db },
      )
      else (raised, sent.1)

  unfoldable pub accept : Event → SourceRecord → World → Result × World
  unfolding publish persist_event is_measurement outcome_of
  accept event source w =
      let stored = persist_event event source w.db in
      let after = record w { db = stored.1 } in
      let sent =
        publish
          (record {
            topic = "network.measurements.valid.v1";
            key = some event.agent_id;
            value = event.payload;
          })
          after in
      if is_measurement event.content
      then (if sent.0
          then (processed (outcome_of stored.0) (some event.event_id), sent.1)
          else (raised, sent.1))
      else (processed (outcome_of stored.0) (some event.event_id), after)

  unfoldable pub process : SourceRecord → World → Result × World
  unfolding check send_dead_letter accept
  process source w = elim (check source) [
    | event_ok event ↦ accept event source w
    | event_error message ↦ send_dead_letter source message w
  ]
