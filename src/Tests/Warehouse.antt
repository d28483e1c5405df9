-- ===== src/Tests/Warehouse.antt =====
-- The data of the examples of the analytics: two observations of a day, one incident and an empty warehouse.
use local_network_kafka_moni.Base.{◌-◌, ◌*◌, ◌/◌, true, false, [], ◌∷◌, none, some}
use local_network_kafka_moni.Query.Models.{CursorKey, network_measurement}
use local_network_kafka_moni.Analytics.Models.{DateRange}
use local_network_kafka_moni.Analytics.Warehouse.{Operational, Warehouse}
use local_network_kafka_moni.Analytics.Reporting.{Quotients}
use local_network_kafka_moni.Analytics.Quality.{Activity, Seconds}
use local_network_kafka_moni.Analytics.Workflow.{World, Moments, Settings}
use local_network_kafka_moni.Tests.Hundredths.{ℤ, pos, negsuc, hundredths}

abbrev pub source : Operational ℤ
source = record {
  measurements =
      record {
        event_time = 86400000001;
        agent_id = 97 ∷ [];
        target_id = 116 ∷ [];
        measurement_type = 112 ∷ [];
        success = true;
        latency_ms = some (pos 1250);
        packet_loss_pct = some (pos 0);
      }
      ∷ [];
  checks =
      record {
        event_time = 86400000002;
        agent_id = 97 ∷ [];
        endpoint_id = 116 ∷ [];
        check_type = 104 ∷ [];
        success = false;
        total_duration_ms = none;
      }
      ∷ [];
  agents = record { id = 97 ∷ []; category = 119 ∷ []; display_name = 65 ∷ [] } ∷ [];
  endpoints = record { id = 116 ∷ []; category = 101 ∷ []; display_name = 84 ∷ [] } ∷ [];
  incidents =
      record {
        row = record {
          incident_id = 49 ∷ [];
          start_time = 86400000001;
          end_time = none;
          status = 111 ∷ [];
          incident_type = 100 ∷ [];
          severity = 104 ∷ [];
          confidence_score = pos 90;
          duration_ms = pos 0;
          rule_version = 49 ∷ [];
          state_revision = 1;
        };
        affected_agents = (97 ∷ []) ∷ [];
        affected_endpoints = (116 ∷ []) ∷ [];
      }
      ∷ [];
}

abbrev pub empty : Warehouse ℤ
empty = record {
  dim_agent = [];
  dim_endpoint = [];
  dim_date = [];
  dim_probe = [];
  facts = [];
  fact_incidents = [];
  bridge_agents = [];
  bridge_endpoints = [];
  job_runs = [];
  next_run_id = 1;
}

abbrev pub grain : CursorKey
grain = record {
  date_utc = 2;
  agent_id = 97 ∷ [];
  endpoint_id = 116 ∷ [];
  source_kind = network_measurement;
  probe_type = 112 ∷ [];
}

abbrev pub selected : DateRange
selected = record { from_date = 2; through_date = 2 }

-- Whole percents and means, in hundredths.
abbrev pub quotients : Quotients ℤ
quotients = record {
  percentage = λ a b. pos (a * 10000 / b);
  mean = λ sum count. elim sum [ pos n ↦ pos (n / count) | negsuc n ↦ negsuc (n / count) ];
}

abbrev pub seconds : Seconds ℤ
seconds = record {
  epoch_between = λ received_at event_time. pos ((received_at - event_time) / 10000);
  total_seconds = λ t. pos (t / 10000);
}

abbrev pub activity : Activity
activity = record {
  raw_events =
      record {
        event_type = "network.measurement";
        event_time = 86400000001;
        received_at = 86401000001;
      }
      ∷ [];
  heartbeats = 86400000003 ∷ [];
  failures = [];
}

abbrev pub settings : Settings ℤ
settings = record {
  seconds = seconds;
  quotients = quotients;
  stale_after = 900000000;
  delay_after = 600000000;
  violation_class = "ForeignKeyViolation";
}

abbrev pub moments : Moments ℤ
moments = record {
  assessed = source;
  activity = activity;
  first_attempts = (false, source) ∷ [];
  last_attempt = (true, source);
  reconciled = source;
  started_at = 1;
  completed_at = 2;
  failure_key = some (107 ∷ []);
}

abbrev pub world : World ℤ
world = record { warehouse = empty; runs = [] }
