-- ===== src/Classifier/Lifecycle.antt =====
-- services/incident-classifier/src/netpulse_classifier/engine.py: `ClassificationEngine.transition`,
-- which advances the incident of each key by one observation.
pub mod Status
pub mod Keys
use Prim.Native.String.{◌++◌ as text_append}
use local_network_kafka_moni.Base.{
  ℕ, ◌+◌, String, Bool, true, false, ◌&&◌, ◌||◌, List, [], ◌∷◌, ◌++◌, Option, none, some, leb,
  if◌then◌else◌,
}
use local_network_kafka_moni.Base.Dict.{Dict, get, has, from_items}
use local_network_kafka_moni.Classifier.Models.{
  Time, Uuid, IncidentStatus, candidate, open_status, ongoing, recovering, resolved, Finding,
  ActiveIncident, Transition, Platform,
}
use local_network_kafka_moni.Classifier.Config.{ClassifierConfig}

-- The identifier of a new incident.
unfoldable pub incident_uuid : Platform → String → Time → Uuid
incident_uuid platform key at =
    platform.uuid5
      (text_append "netpulse-incident:" (text_append key (text_append ":" (platform.isoformat at))))

-- `status == "candidate"`, `status == "recovering"`
unfoldable pub is_candidate : IncidentStatus → Bool
is_candidate candidate = true
is_candidate _ = false

unfoldable pub is_recovering : IncidentStatus → Bool
is_recovering recovering = true
is_recovering _ = false

module _ {R : Type 0} where
  unfoldable pub active_by_key : List (ActiveIncident R) → Dict (ActiveIncident R)
  unfolding from_items
  active_by_key active = from_items (λ item. item.incident_key) (λ item. item) active []

  unfoldable pub finding_by_key : List (Finding R) → Dict (Finding R)
  unfolding from_items
  finding_by_key findings = from_items (λ item. item.incident_key) (λ item. item) findings []

  -- A finding without an active incident starts a candidate.
  unfoldable pub raise_candidate : Platform → Time → String → Finding R → Transition R
  unfolding incident_uuid
  raise_candidate platform at key found = record {
    incident_id = incident_uuid platform key at;
    finding = found;
    start_time = at;
    end_time = none;
    status = candidate;
    state_revision = 1;
    positive_observations = 1;
    recovery_observations = 0;
  }

module _ {R : Type 0} (config : ClassifierConfig R) where
  unfoldable pub confirmed_status : IncidentStatus → ℕ → IncidentStatus
  confirmed_status candidate positives =
      if leb config.open_observations positives then open_status else candidate
  confirmed_status recovering positives = open_status
  confirmed_status _ positives = ongoing

  -- The finding of an active incident was seen again.
  unfoldable pub confirm : ActiveIncident R → Finding R → Transition R
  unfolding confirmed_status
  confirm previous found = record {
    incident_id = previous.incident_id;
    finding = found;
    start_time = previous.start_time;
    end_time = none;
    status = confirmed_status previous.status (previous.positive_observations + 1);
    state_revision = previous.state_revision + 1;
    positive_observations = previous.positive_observations + 1;
    recovery_observations = 0;
  }

  unfoldable pub resolves : IncidentStatus → ℕ → Bool
  unfolding is_candidate is_recovering
  resolves status recoveries =
      is_candidate status || (is_recovering status && leb config.resolve_observations recoveries)

  -- The finding of an active incident was not seen.
  unfoldable pub miss : Time → ActiveIncident R → Transition R
  unfolding resolves
  miss at previous =
      let recoveries = previous.recovery_observations + 1 in
      let done = resolves previous.status recoveries in
      record {
        incident_id = previous.incident_id;
        finding = previous.finding;
        start_time = previous.start_time;
        end_time = if done then some at else none;
        status = if done then resolved else recovering;
        state_revision = previous.state_revision + 1;
        positive_observations = previous.positive_observations;
        recovery_observations = recoveries;
      }

  -- One round of the first loop.
  unfoldable pub seen :
      Platform → Time → Dict (ActiveIncident R) → String → Finding R → Transition R
  unfolding raise_candidate confirm
  seen platform at active key found = elim (get key active) [
    | none ↦ raise_candidate platform at key found
    | some previous ↦ confirm previous found
  ]

  unfoldable pub advance_found :
      Platform → Time → Dict (ActiveIncident R) → Dict (Finding R) → List (Transition R)
  unfolding seen
  advance_found platform at active [] = []
  advance_found platform at active ((key, found) ∷ rest) =
      seen platform at active key found ∷ advance_found platform at active rest

  unfoldable pub advance_missed :
      Time → Dict (Finding R) → Dict (ActiveIncident R) → List (Transition R)
  unfolding miss
  advance_missed at findings [] = []
  advance_missed at findings ((key, previous) ∷ rest) =
      if has key findings
      then advance_missed at findings rest
      else miss at previous ∷ advance_missed at findings rest

  unfoldable pub transition :
      Platform → Time → List (Finding R) → List (ActiveIncident R) → List (Transition R)
  unfolding advance_found advance_missed
  transition platform at findings active =
      let incidents = active_by_key active in
      let found = finding_by_key findings in
      advance_found platform at incidents found ++ advance_missed at found incidents
