-- ===== src/Tests/Ingestion.antt =====
-- The ingestor's theorem at a concrete input: a measurement, delivered twice, and a text that is no
-- event; the broker refuses every third publication.
use local_network_kafka_moni.Base.{ℕ, ◌%◌, ltb, not, List, [], ◌∷◌, some, ◌==◌}
use local_network_kafka_moni.Ingestor.Model.{SourceRecord, Event, network_measurement}
use local_network_kafka_moni.Ingestor.Processor.{Setup, Loaded, undecodable, object}
use local_network_kafka_moni.Ingestor.Consumer.{Consumer, run}
use local_network_kafka_moni.Ingestor.Consumer.Committed.{AllSettled, state_of, run-AllSettled}

abbrev measurement : Event
measurement = record {
  event_id = "5a0e";
  agent_id = "network-agent-wifi-01";
  content = network_measurement "router";
  payload = 123 ∷ 125 ∷ [];
}

abbrev loads : List ℕ → Loaded Event
loads [] = undecodable "invalid UTF-8 JSON"
loads (byte ∷ bytes) = object measurement

abbrev setup : Setup Event
setup = record {
  loads = loads;
  validate_python = λ event. some event;
  known_agents = [];
  known_endpoints = "router" ∷ [];
  dead_letter = λ source message. source.value;
  broker = λ n. not (n % 3 == 1);
}

abbrev polled : ℕ → List ℕ → SourceRecord
polled offset value = record {
  topic = "network.measurements.raw.v1";
  partition = 0;
  offset = offset;
  key = some "network-agent-wifi-01";
  value = value;
}

abbrev messages : List SourceRecord
messages = polled 4 (123 ∷ 125 ∷ []) ∷ polled 4 (123 ∷ 125 ∷ []) ∷ polled 5 [] ∷ []

abbrev start : Consumer
start = record {
  world = record {
    db = record { raw_events = []; typed_events = []; failures = [] };
    delivered = [];
    calls = 0;
  };
  attempts = [];
  committed = [];
  sought = [];
  commits_tried = 0;
}

-- The state after three messages, of whose commits the first one raises.
abbrev finished : Consumer
finished = state_of (run setup (λ n. ltb 0 n) 3 messages start)

run-AllSettled_example : AllSettled setup finished.world finished.committed
run-AllSettled_example = run-AllSettled setup (λ n. ltb 0 n) 3 messages start tt
