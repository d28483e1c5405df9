-- ===== src/Classifier/Models.antt =====
-- services/incident-classifier/src/netpulse_classifier/models.py. Rates, latencies and signal levels
-- are of a type `R` of numbers; a time is its number of microseconds since the year 1; a UUID is its
-- 128-bit number; a confidence score counts hundredths.
use local_network_kafka_moni.Base.{ℕ, String, List, Option}

abbrev pub Time : Type 0
Time = ℕ

abbrev pub Uuid : Type 0
Uuid = ℕ

pub data IncidentType : Type 0 where
  wifi_degradation wifi_outage router_unavailable isp_outage dns_failure : IncidentType
  external_service_failure high_latency high_packet_loss agent_offline : IncidentType
  unknown_network_incident : IncidentType

-- The literal that stands for a type in keys.
abbrev pub type_name : IncidentType → String
type_name wifi_degradation = "wifi_degradation"
type_name wifi_outage = "wifi_outage"
type_name router_unavailable = "router_unavailable"
type_name isp_outage = "isp_outage"
type_name dns_failure = "dns_failure"
type_name external_service_failure = "external_service_failure"
type_name high_latency = "high_latency"
type_name high_packet_loss = "high_packet_loss"
type_name agent_offline = "agent_offline"
type_name unknown_network_incident = "unknown_network_incident"

pub data IncidentStatus : Type 0 where
  candidate open_status ongoing recovering resolved : IncidentStatus

pub data Severity : Type 0 where
  info warning critical : Severity

pub record MeasurementSummary (R : Type 0) : Type 0 where
  pub agent_id : String
  pub agent_role : String
  pub target_id : String
  pub measurement_type : String
  pub sample_count : ℕ
  pub success_rate_pct : R
  pub peak_latency_ms : Option R
  pub mean_packet_loss_pct : R
  pub weakest_signal_dbm : Option R
  pub connected_rate_pct : Option R

pub record ServiceSummary (R : Type 0) : Type 0 where
  pub agent_id : String
  pub agent_role : String
  pub endpoint_id : String
  pub check_type : String
  pub sample_count : ℕ
  pub success_rate_pct : R

pub record HeartbeatSummary : Type 0 where
  pub agent_id : String
  pub agent_role : String
  pub last_event_time : Option Time

pub record ObservationSnapshot (R : Type 0) : Type 0 where
  pub observed_at : Time
  pub measurements : List (MeasurementSummary R)
  pub services : List (ServiceSummary R)
  pub heartbeats : List HeartbeatSummary

-- The dicts that the engine writes as evidence: the fields of a row, or the four entries about a
-- heartbeat (the age in microseconds).
pub data Evidence (R : Type 0) : Type 0 where
  of_measurement : MeasurementSummary R → Evidence R
  of_service : ServiceSummary R → Evidence R
  of_heartbeat :
      (agent_id : String) (last_heartbeat : Option String) (age : Option ℕ) (others : List String)
      → Evidence R

pub record Finding (R : Type 0) : Type 0 where
  pub incident_key : String
  pub incident_type : IncidentType
  pub severity : Severity
  pub confidence_score : ℕ
  pub affected_agents : List String
  pub affected_endpoints : List String
  pub evidence : List (Evidence R)
  pub peak_latency_ms : Option R
  pub maximum_packet_loss_pct : Option R
  pub summary : String
  pub recommended_action : String

pub record ActiveIncident (R : Type 0) : Type 0 where
  pub incident_id : Uuid
  pub incident_key : String
  pub incident_type : IncidentType
  pub start_time : Time
  pub status : IncidentStatus
  pub state_revision : ℕ
  pub positive_observations : ℕ
  pub recovery_observations : ℕ
  pub finding : Finding R

pub record Transition (R : Type 0) : Type 0 where
  pub incident_id : Uuid
  pub finding : Finding R
  pub start_time : Time
  pub end_time : Option Time
  pub status : IncidentStatus
  pub state_revision : ℕ
  pub positive_observations : ℕ
  pub recovery_observations : ℕ

-- The parts of the standard library that name things: `datetime.isoformat` and `uuid5` under
-- `NAMESPACE_URL`, and `str` of a UUID and of a whole number.
pub record Platform : Type 0 where
  pub uuid_text : Uuid → String
  pub decimal : ℕ → String
  pub isoformat : Time → String
  pub uuid5 : String → Uuid
