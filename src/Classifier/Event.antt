-- ===== src/Classifier/Event.antt =====
-- The incident event: `Incident` of packages/contracts/src/netpulse_contracts/models.py with its
-- field checks and its lifecycle validator, and `IncidentClassifierService._event` of service.py, which
-- builds one. Left out are the fields of the envelope that are constants or repeat another field.
pub mod Valid
use Prim.Native.String.{◌++◌}
use local_network_kafka_moni.Base.{
  ℕ, suc, ◌-◌, String, Bool, true, ◌&&◌, leb, false, List, [], ◌∷◌, Option, none, some, ltb,
  nonempty, not, if◌then◌else◌,
}
use local_network_kafka_moni.Base.Number.{Number}
use local_network_kafka_moni.Classifier.Models.{
  Time, Uuid, IncidentType, IncidentStatus, resolved, Severity, Evidence, Finding, Transition,
  Platform,
}

pub record Incident (R : Type 0) : Type 0 where
  pub event_id : Uuid
  pub event_time : Time
  pub sequence_number : ℕ
  pub incident_id : Uuid
  pub incident_type : IncidentType
  pub start_time : Time
  pub end_time : Option Time
  pub status : IncidentStatus
  pub severity : Severity
  pub confidence_score : ℕ
  pub affected_agents : List String
  pub affected_endpoints : List String
  pub evidence : List (Evidence R)
  pub peak_latency_ms : Option R
  pub maximum_packet_loss_pct : Option R
  -- In microseconds.
  pub duration : ℕ
  pub summary : String
  pub recommended_action : String

pub data ContractError : Type 0 where
  out_of_bounds end_before_start end_missing end_unexpected no_agents : ContractError

pub data Validated (A : Type 0) : Type 0 where
  valid : A → Validated A
  invalid : ContractError → Validated A

unfoldable pub is_resolved : IncidentStatus → Bool
is_resolved resolved = true
is_resolved _ = false

-- `end_time is not None and end_time < start_time`
unfoldable pub ends_early : Option Time → Time → Bool
ends_early none start = false
ends_early (some end_time) start = ltb end_time start

unfoldable pub is_none : Option Time → Bool
is_none none = true
is_none (some t) = false

-- The number of characters.
unfoldable pub text_length : String → ℕ
text_length String.[] = 0
text_length (String.◌∷◌ c s) = suc (text_length s)

-- `Field(min_length=1, max_length=2048)`
unfoldable pub fits : String → Bool
unfolding text_length
fits s = leb 1 (text_length s) && leb (text_length s) 2048

module _ {R : Type 0} ⦃num : Number R⦄ where
  -- `Field(ge=0)` and `Field(ge=0, le=100)` of a value that may be missing.
  unfoldable pub at_least_zero : Option R → Bool
  at_least_zero none = true
  at_least_zero (some value) = num.leb (num.of_ℕ 0) value

  unfoldable pub in_percent : Option R → Bool
  in_percent none = true
  in_percent (some value) = num.leb (num.of_ℕ 0) value && num.leb value (num.of_ℕ 100)

  -- The checks of the single fields; the duration and the sequence number are natural numbers.
  unfoldable pub in_bounds : Incident R → Bool
  unfolding at_least_zero in_percent fits
  in_bounds i =
      leb i.confidence_score 100
      && (at_least_zero i.peak_latency_ms
          && (in_percent i.maximum_packet_loss_pct
              && (fits i.summary && fits i.recommended_action)))

module _ {R : Type 0} where
  unfoldable pub validate_incident_lifecycle : Incident R → Validated (Incident R)
  unfolding is_resolved ends_early is_none
  validate_incident_lifecycle i =
      if ends_early i.end_time i.start_time
      then invalid end_before_start
      else if is_resolved i.status
      then (if is_none i.end_time
          then invalid end_missing
          else if nonempty i.affected_agents
          then valid i
          else invalid no_agents)
      else if not (is_none i.end_time)
      then invalid end_unexpected
      else if nonempty i.affected_agents
      then valid i
      else invalid no_agents

  unfoldable pub state_event_id : Platform → Transition R → Uuid
  state_event_id platform t = platform.uuid5 (
      "netpulse-incident-state:"
      ++ (platform.uuid_text t.incident_id ++ (":" ++ platform.decimal t.state_revision)))

  -- The fields that `_event` passes to the constructor.
  unfoldable pub incident_of : Platform → Transition R → Time → Incident R
  incident_of platform t observed_at = record {
    event_id = state_event_id platform t;
    event_time = observed_at;
    sequence_number = t.state_revision;
    incident_id = t.incident_id;
    incident_type = t.finding.incident_type;
    start_time = t.start_time;
    end_time = t.end_time;
    status = t.status;
    severity = t.finding.severity;
    confidence_score = t.finding.confidence_score;
    affected_agents = t.finding.affected_agents;
    affected_endpoints = t.finding.affected_endpoints;
    evidence = t.finding.evidence;
    peak_latency_ms = t.finding.peak_latency_ms;
    maximum_packet_loss_pct = t.finding.maximum_packet_loss_pct;
    duration = observed_at - t.start_time;
    summary = "Probable classification: " ++ t.finding.summary;
    recommended_action = t.finding.recommended_action;
  }

module _ {R : Type 0} ⦃num : Number R⦄ where
  -- pydantic runs the validator of the whole model once the fields have passed.
  unfoldable pub event : Platform → Transition R → Time → Validated (Incident R)
  unfolding in_bounds validate_incident_lifecycle incident_of
  event platform t observed_at =
      let incident = incident_of platform t observed_at in
      if in_bounds incident then validate_incident_lifecycle incident else invalid out_of_bounds
