-- ===== src/Classifier/Engine/Build.antt =====
-- The builders of findings in engine.py: `_finding`, `_service_finding` and `_offline_findings`.
use Prim.Native.String.{◌++◌}
use local_network_kafka_moni.Base.{
  ℕ, ◌+◌, ◌-◌, ◌*◌, String, Bool, false, not, ◌||◌, List, [], ◌∷◌, map, Option, none, some, leb,
  filter, nonempty, str_eq, mem_text, sorted_set, if◌then◌else◌,
}
use local_network_kafka_moni.Base.Number.{Number, maximum}
use local_network_kafka_moni.Classifier.Models.{
  Time, IncidentType, agent_offline, type_name, Severity, warning, MeasurementSummary,
  ServiceSummary, HeartbeatSummary, of_measurement, of_service, of_heartbeat, Finding, Platform,
}
use local_network_kafka_moni.Classifier.Config.{ClassifierConfig}

-- The values that are there.
abbrev pub present_values {ℓ} : {A : Type ℓ} → List (Option A) → List A
present_values [] = []
present_values (none ∷ xs) = present_values xs
present_values (some x ∷ xs) = x ∷ present_values xs

-- `','.join(texts)`
unfoldable pub join_comma : List String → String
join_comma [] = ""
join_comma (s ∷ []) = s
join_comma (s ∷ t ∷ ts) = s ++ ("," ++ join_comma (t ∷ ts))

-- The microseconds of a number of seconds.
abbrev pub seconds : ℕ → Time
seconds n = n * 1000000

module _ {R : Type 0} ⦃num : Number R⦄ where
  unfoldable pub finding :
      IncidentType → Severity → ℕ → List (MeasurementSummary R) → String → String → Finding R
  finding incident_type severity confidence rows summary action = record {
    incident_key = type_name incident_type;
    incident_type = incident_type;
    severity = severity;
    confidence_score = confidence;
    affected_agents = sorted_set (map (λ row. row.agent_id) rows);
    affected_endpoints = sorted_set (map (λ row. row.target_id) rows);
    evidence = map of_measurement rows;
    peak_latency_ms = maximum (present_values (map (λ row. row.peak_latency_ms) rows));
    maximum_packet_loss_pct = maximum (map (λ row. row.mean_packet_loss_pct) rows);
    summary = summary;
    recommended_action = action;
  }

module _ {R : Type 0} where
  unfoldable pub service_finding :
      IncidentType → Severity → ℕ → List (ServiceSummary R) → String → String → Finding R
  unfolding join_comma
  service_finding incident_type severity confidence rows summary action = record {
    incident_key =
        type_name incident_type
        ++ (":" ++ join_comma (sorted_set (map (λ row. row.endpoint_id) rows)));
    incident_type = incident_type;
    severity = severity;
    confidence_score = confidence;
    affected_agents = sorted_set (map (λ row. row.agent_id) rows);
    affected_endpoints = sorted_set (map (λ row. row.endpoint_id) rows);
    evidence = map of_service rows;
    peak_latency_ms = none;
    maximum_packet_loss_pct = none;
    summary = summary;
    recommended_action = action;
  }

module _ {R : Type 0} (platform : Platform) (config : ClassifierConfig R) (observed_at : Time) where
  -- The heartbeat is there and at most `heartbeat_stale_seconds` old.
  unfoldable pub is_recent : HeartbeatSummary → Bool
  is_recent item = elim item.last_event_time [
    | none ↦ false
    | some last ↦ leb observed_at (last + seconds config.heartbeat_stale_seconds)
  ]

  unfoldable pub recent_agents : List HeartbeatSummary → List String
  unfolding is_recent
  recent_agents heartbeats = sorted_set (map (λ item. item.agent_id) (filter is_recent heartbeats))

  -- The age of a heartbeat is read only where it is stale, so the difference is not negative.
  unfoldable pub offline_finding : List String → HeartbeatSummary → Finding R
  offline_finding recent heartbeat = record {
    incident_key = "agent_offline:" ++ heartbeat.agent_id;
    incident_type = agent_offline;
    severity = warning;
    confidence_score = 86;
    affected_agents = heartbeat.agent_id ∷ [];
    affected_endpoints = [];
    evidence =
        of_heartbeat heartbeat.agent_id
          (elim heartbeat.last_event_time [
            | none ↦ none
            | some last ↦ some (platform.isoformat last)
          ])
          (elim heartbeat.last_event_time [ none ↦ none | some last ↦ some (observed_at - last) ])
          recent
        ∷ [];
    peak_latency_ms = none;
    maximum_packet_loss_pct = none;
    summary =
        "Agent "
        ++ (heartbeat.agent_id ++ " stopped reporting while another agent remained current.");
    recommended_action = "Check agent power, network association, and service logs.";
  }

  -- The test of the `continue`: `agent in recent or not recent - {agent}`.
  unfoldable pub skips : List String → HeartbeatSummary → Bool
  skips recent heartbeat =
      mem_text heartbeat.agent_id recent
      || not (nonempty (filter (λ agent. not (str_eq agent heartbeat.agent_id)) recent))

  unfoldable pub offline_loop : List String → List HeartbeatSummary → List (Finding R)
  unfolding skips offline_finding
  offline_loop recent [] = []
  offline_loop recent (heartbeat ∷ rest) =
      if skips recent heartbeat
      then offline_loop recent rest
      else offline_finding recent heartbeat ∷ offline_loop recent rest

  unfoldable pub offline_findings : List HeartbeatSummary → List (Finding R)
  offline_findings heartbeats =
      let recent = recent_agents heartbeats in
      if nonempty recent then offline_loop recent heartbeats else []
