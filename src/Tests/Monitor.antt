-- ===== src/Tests/Monitor.antt =====
-- The classifier's theorems at concrete inputs: two agents, of which the one on Wi-Fi has lost its
-- access point.
use local_network_kafka_moni.Base.{
  any, ℕ, ◌≡◌, refl, ◌↔◌, String, Bool, true, false, List, [], ◌∷◌, map, Option, none, some, All,
  mem_text, ◌||◌, if◌then◌else◌, arith,
}
use local_network_kafka_moni.Tests.Hundredths.{ℤ, pos, negsuc, hundredths}
use local_network_kafka_moni.Base.Dict.Keys.{Distinct}
use local_network_kafka_moni.Classifier.Models.{
  isp_outage, wifi_outage, agent_offline, open_status, critical, MeasurementSummary,
  HeartbeatSummary, ObservationSnapshot, Finding, ActiveIncident, Platform,
}
use local_network_kafka_moni.Classifier.Config.{ClassifierConfig, IsValid}
use local_network_kafka_moni.Classifier.Engine.{groups_of, specific_rules, symptoms, classify}
use local_network_kafka_moni.Classifier.Engine.Rows.{wired_role, wifi_role}
use local_network_kafka_moni.Classifier.Engine.Build.{offline_findings}
use local_network_kafka_moni.Classifier.Engine.Agents.{
  HasAgents, AtMostOne, symptoms-AtMostOne, classify-HasAgents,
}
use local_network_kafka_moni.Classifier.Engine.Offline.{IsOffline, offline_findings-IsOffline}
use local_network_kafka_moni.Classifier.Engine.Outages.{
  types_of, IspDown, WifiDown, specific_rules-isp_outage, specific_rules-wifi_outage,
}
use local_network_kafka_moni.Classifier.Lifecycle.{transition}
use local_network_kafka_moni.Classifier.Lifecycle.Status.{EndsWell, transition-EndsWell}
use local_network_kafka_moni.Classifier.Lifecycle.Keys.{key_of, transition-keys}
use local_network_kafka_moni.Classifier.Event.{valid, invalid, out_of_bounds, event, incident_of}
use local_network_kafka_moni.Classifier.Event.Valid.{IsSound, fields_bounded, cycle-events_valid}
use local_network_kafka_moni.Classifier.Store.{StateEvent, IncidentRow, unpublished}
use local_network_kafka_moni.Classifier.Service.{World, ok, publish_pending, evaluate_once}
use local_network_kafka_moni.Classifier.Service.Drain.{publish_pending-drains}
use local_network_kafka_moni.Classifier.Service.Delivery.{IsHonest, evaluate_once-IsHonest}

abbrev platform : Platform
platform = record {
  uuid_text = λ id. "incident";
  decimal = λ n. "n";
  isoformat = λ t. "time";
  uuid5 = λ name. 7;
}

abbrev config : ClassifierConfig ℤ
config = record {
  bootstrap_servers = "kafka:9092";
  database_url = "postgresql://netpulse";
  client_id = "incident-classifier";
  lookback_seconds = 120;
  interval_seconds = pos 1500;
  minimum_samples = 2;
  open_observations = 2;
  resolve_observations = 3;
  healthy_success_rate_pct = pos 9500;
  failed_success_rate_pct = pos 2000;
  high_latency_ms = pos 25000;
  high_packet_loss_pct = pos 500;
  weak_signal_dbm = negsuc 7499;
  heartbeat_stale_seconds = 60;
  delivery_timeout_seconds = pos 1000;
}

config-IsValid : IsValid config
unfolding hundredths
config-IsValid = record {
  lookback = omega arith;
  samples = omega arith;
  opens = omega arith;
  resolves = omega arith;
  stale = omega arith;
  interval = refl;
  timeout = refl;
  failed_nonneg = refl;
  ordered = refl;
  healthy_bounded = refl;
  latency = refl;
  loss_nonneg = refl;
  loss_bounded = refl;
  signal_floor = refl;
  signal_nonpositive = refl;
}

abbrev measured :
    String → String → String → (rate : ℤ) → (connected : Option ℤ) → MeasurementSummary ℤ
measured agent role kind rate connected = record {
  agent_id = agent;
  agent_role = role;
  target_id = kind;
  measurement_type = kind;
  sample_count = 4;
  success_rate_pct = rate;
  peak_latency_ms = some (pos 2000);
  mean_packet_loss_pct = pos 0;
  weakest_signal_dbm = none;
  connected_rate_pct = connected;
}

abbrev wired : String → ℤ → MeasurementSummary ℤ
wired kind rate = measured "network-agent-ethernet-01" wired_role kind rate none

abbrev wireless : String → ℤ → MeasurementSummary ℤ
wireless kind rate = measured "network-agent-wifi-01" wifi_role kind rate (some (pos 0))

abbrev rows : List (MeasurementSummary ℤ)
rows =
    wired "router_ping" (pos 10000)
    ∷ wired "external_ping" (pos 10000)
    ∷ wireless "router_ping" (pos 0)
    ∷ wireless "external_ping" (pos 0)
    ∷ wireless "wifi_diagnostics" (pos 0)
    ∷ []

abbrev isp_rows : List (MeasurementSummary ℤ)
isp_rows =
    wired "router_ping" (pos 10000)
    ∷ wired "external_ping" (pos 0)
    ∷ wireless "router_ping" (pos 10000)
    ∷ wireless "external_ping" (pos 0)
    ∷ []

abbrev heartbeat : String → Option ℕ → HeartbeatSummary
heartbeat agent last = record { agent_id = agent; agent_role = wired_role; last_event_time = last }

abbrev heartbeats : List HeartbeatSummary
heartbeats =
    heartbeat "network-agent-ethernet-01" (some 900000000)
    ∷ heartbeat "network-agent-wifi-01" none
    ∷ []

abbrev snapshot : ObservationSnapshot ℤ
snapshot = record {
  observed_at = 910000000;
  measurements = rows;
  services = [];
  heartbeats = heartbeats;
}

abbrev finding : Finding ℤ
finding = record {
  incident_key = "wifi_outage:network-agent-wifi-01";
  incident_type = wifi_outage;
  severity = critical;
  confidence_score = 95;
  affected_agents = "network-agent-wifi-01" ∷ [];
  affected_endpoints = [];
  evidence = [];
  peak_latency_ms = none;
  maximum_packet_loss_pct = none;
  summary = "The Wi-Fi agent is disconnected.";
  recommended_action = "Check the access point.";
}

abbrev incident : ActiveIncident ℤ
incident = record {
  incident_id = 3;
  incident_key = "wifi_outage:network-agent-wifi-01";
  incident_type = wifi_outage;
  start_time = 800000000;
  status = open_status;
  state_revision = 2;
  positive_observations = 2;
  recovery_observations = 0;
  finding = finding;
}

abbrev stored_row : IncidentRow ℤ
stored_row = record {
  incident_id = 3;
  finding = finding;
  start_time = 800000000;
  end_time = none;
  status = open_status;
  duration = 100;
  state_revision = 2;
  positive_observations = 2;
  recovery_observations = 0;
  last_observed_at = 800000000;
}

abbrev state_event : StateEvent ℤ
state_event = record {
  event_id = 11;
  incident_id = 3;
  state_revision = 2;
  status = open_status;
  event_time = 800000000;
  payload =
      incident_of platform
        (record {
          incident_id = 3;
          finding = finding;
          start_time = 800000000;
          end_time = none;
          status = open_status;
          state_revision = 2;
          positive_observations = 2;
          recovery_observations = 0;
        })
        800000000;
  published = false;
}

abbrev world : World ℤ
world = record {
  db = record { incidents = stored_row ∷ []; events = state_event ∷ [] };
  delivered = [];
  calls = 0;
}

abbrev acknowledging : ℕ → Bool
acknowledging n = true

named : HasAgents finding
named e = cc

symptoms-AtMostOne_example : AtMostOne (symptoms config snapshot)
symptoms-AtMostOne_example = symptoms-AtMostOne config snapshot

classify-HasAgents_example : All HasAgents (classify config platform snapshot)
classify-HasAgents_example = classify-HasAgents config platform snapshot

offline_findings-IsOffline_example :
    ((any
          (λ f. mem_text "network-agent-wifi-01" f.affected_agents)
          (offline_findings {R = ℤ} platform config 910000000 heartbeats)
        ≡ true)
      ↔ IsOffline {R = ℤ} platform config 910000000 heartbeats "network-agent-wifi-01")
    × All
        (λ f. f.incident_type ≡ agent_offline)
        (offline_findings {R = ℤ} platform config 910000000 heartbeats)
offline_findings-IsOffline_example =
    offline_findings-IsOffline platform config 910000000 heartbeats "network-agent-wifi-01"

-- Both sides hold.
heartbeats-IsOffline :
    IsOffline {R = ℤ} platform config 910000000 heartbeats "network-agent-wifi-01"
heartbeats-IsOffline = record { listed = refl; late = refl; others = refl }

specific_rules-isp_outage_example :
    (types_of (specific_rules config (groups_of isp_rows) []) ≡ isp_outage ∷ [])
    ↔ IspDown config (groups_of isp_rows)
specific_rules-isp_outage_example =
    specific_rules-isp_outage config (groups_of isp_rows) [] config-IsValid

specific_rules-wifi_outage_example :
    (types_of (specific_rules config (groups_of rows) []) ≡ wifi_outage ∷ [])
    ↔ WifiDown config (groups_of rows)
specific_rules-wifi_outage_example =
    specific_rules-wifi_outage config (groups_of rows) [] config-IsValid

transition-EndsWell_example :
    All (EndsWell 910000000) (transition config platform 910000000 [] (incident ∷ []))
transition-EndsWell_example = transition-EndsWell config platform 910000000 [] (incident ∷ [])

transition-keys_example :
    Distinct (map key_of (transition config platform 910000000 (finding ∷ []) (incident ∷ [])))
    × ((k : String)
        → mem_text k
            (map key_of (transition config platform 910000000 (finding ∷ []) (incident ∷ [])))
          ≡ (mem_text k (map (λ f. f.incident_key) (finding ∷ []))
              || mem_text k (map (λ a. a.incident_key) (incident ∷ []))))
transition-keys_example =
    transition-keys config platform 910000000 (finding ∷ []) (incident ∷ []) (refl, tt)

incident-IsSound : IsSound 910000000 incident
incident-IsSound = record { live = tt; named = named; started = omega arith }

cycle-events_valid_example :
    All
      (λ t. event platform t 910000000 ≡ (
        if fields_bounded t
        then valid (incident_of platform t 910000000)
        else invalid out_of_bounds))
      (transition config platform 910000000 (classify config platform snapshot) (incident ∷ []))
cycle-events_valid_example =
    cycle-events_valid config platform snapshot (incident ∷ []) (incident-IsSound, tt)

publish_pending-drains_example :
    (n : ℕ) × (w' : World ℤ) × (publish_pending acknowledging 2 world ≡ (ok n, w'))
    × (w'.db.incidents ≡ world.db.incidents)
    × (unpublished w'.db ≡ [])
publish_pending-drains_example =
    publish_pending-drains acknowledging (λ n. refl) 2 world (omega arith)

evaluate_once-IsHonest_example :
    IsHonest (evaluate_once config platform acknowledging 5 snapshot world).1
evaluate_once-IsHonest_example =
    evaluate_once-IsHonest config platform acknowledging 5 snapshot world ((λ e. cc), tt)
