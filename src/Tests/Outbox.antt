-- ===== src/Tests/Outbox.antt =====
-- The agent's theorems at concrete inputs: an outbox with a waiting and a delivered event.
use Prim.Native.Nat.{min}
use mathlib.Core.List.{Permᴰ}
use local_network_kafka_moni.Base.Number.{min_of}
use local_network_kafka_moni.Base.{
  ℕ, ◌+◌, ◌^◌, ◌*◌, ◌++◌, ◌⊎◌, map, false, ◌≡◌, refl, String, List, [], ◌∷◌, Option, none, some,
  Memᴰ, All, length, filter,
}
use local_network_kafka_moni.Base.Sort.{IsSorted, sort}
use local_network_kafka_moni.Tests.Hundredths.{ℤ, pos, hundredths, plus, times}
use local_network_kafka_moni.Agent.Outbox.{
  OutboxConfig, Event, Row, OutboxRecord, Outbox, ready, ready_rows, mark_failed,
}
use local_network_kafka_moni.Agent.Outbox.Backoff.{
  IsNonneg, IsRescheduled, waits_as, mark_failed_bounds,
}
use local_network_kafka_moni.Agent.Outbox.Batch.{created_le, is_due, ready_rows-IsBatch}
use local_network_kafka_moni.Agent.Outbox.Safety.{
  Op, enqueues, delivers, fails, prunes, allocates, run, acknowledges, Holds, run-Holds,
}
use local_network_kafka_moni.Agent.Publisher.{Attempt, publish_ready, error_of}
use local_network_kafka_moni.Agent.Publisher.Delivery.{
  acked_ids, publish_ready-count, publish_ready-Holds,
}

abbrev config : OutboxConfig ℤ
config = record {
  maximum_bytes = 1000000;
  batch_size = 10;
  retry_base_seconds = pos 100;
  retry_max_seconds = pos 30000;
  acknowledged_retention_seconds = 3600;
}

abbrev row : String → ℤ → Option ℤ → Row ℤ
row id created delivered = record {
  event_id = id;
  topic = "network.measurements.raw";
  message_key = "network-agent-wifi-01";
  payload = 123 ∷ 125 ∷ [];
  created_at = created;
  delivered_at = delivered;
  retry_count = 0;
  last_error = none;
  next_attempt_at = created;
}

abbrev waiting_row : Row ℤ
waiting_row = row "b" (pos 200) none

abbrev outbox : Outbox ℤ
outbox = record { rows = row "a" (pos 100) (some (pos 150)) ∷ waiting_row ∷ []; sequence = some 1 }

abbrev event : Event
event = record {
  event_id = "c";
  topic = "network.measurements.raw";
  agent_id = "network-agent-wifi-01";
  payload = 123 ∷ 125 ∷ [];
}

abbrev sent : OutboxRecord
sent = record {
  event_id = "b";
  topic = "network.measurements.raw";
  message_key = "network-agent-wifi-01";
  payload = 123 ∷ 125 ∷ [];
  retry_count = 3;
}

-- An attempt whose callback brings an error at the second poll.
abbrev failing : ℕ → Attempt ℤ
failing i = record {
  refused = none;
  polls = none ∷ some (some "broker down") ∷ [];
  now = pos 400;
  jitter = pos 50;
}

config-IsNonneg : IsNonneg config
unfolding hundredths
config-IsNonneg = record { base = refl; ceiling = refl }

outbox-Holds : Holds waiting_row outbox.rows
outbox-Holds = record {
  row = waiting_row;
  member = Memᴰ.tail (Memᴰ.head refl);
  same = record {
    event_id = refl;
    topic = refl;
    message_key = refl;
    payload = refl;
    created_at = refl;
    delivered_at = refl;
  };
}

mark_failed_bounds_example :
    (map (λ r. r.event_id) (mark_failed config sent "timed out" (pos 500) (pos 50) outbox).1.rows
      ≡ map (λ r. r.event_id) outbox.rows)
    × All
        (λ r.
          (waits_as "b" r ≡ false)
          ⊎ IsRescheduled sent
              (plus (pos 500) (min_of (pos 30000) (times (pos 100) (pos (2 ^ min 3 20 * 100)))))
              (plus (pos 500) (plus (pos 30000) (times (pos 30000) (pos 25))))
              r)
        (mark_failed config sent "timed out" (pos 500) (pos 50) outbox).1.rows
unfolding hundredths
mark_failed_bounds_example =
    mark_failed_bounds config sent "timed out" (pos 500) (pos 50) outbox config-IsNonneg

ready_rows-IsBatch_example :
    (left : List (Row ℤ)) × (Permᴰ
        (ready_rows config (pos 300) outbox ++ left)
        (filter (is_due (pos 300)) outbox.rows)
      × (IsSorted created_le (ready_rows config (pos 300) outbox ++ left)
          × (length (ready_rows config (pos 300) outbox)
              ≡ min 10 (length (filter (is_due (pos 300)) outbox.rows)))))
ready_rows-IsBatch_example = ready_rows-IsBatch config (pos 300) outbox

abbrev calls : List (Op ℤ)
calls =
    enqueues 5000 event (pos 300)
    ∷ fails sent "down" (pos 310) (pos 0)
    ∷ delivers "c" (pos 320)
    ∷ prunes (pos 900000)
    ∷ allocates
    ∷ []

run-Holds_example : Holds waiting_row (run config calls outbox).rows
unfolding acknowledges
run-Holds_example = run-Holds waiting_row config calls outbox refl outbox-Holds

publish_ready-count_example :
    ((publish_ready config failing (pos 300) (pos 400) (pos 500) outbox).1.acknowledged
      ≡ length (acked_ids failing 0 (ready config (pos 300) outbox)))
    × ((publish_ready config failing (pos 300) (pos 400) (pos 500) outbox).1.acknowledged
          + (publish_ready config failing (pos 300) (pos 400) (pos 500) outbox).1.failed
        ≡ length (ready config (pos 300) outbox))
publish_ready-count_example =
    publish_ready-count config failing (pos 300) (pos 400) (pos 500) outbox

publish_ready-Holds_example :
    Holds waiting_row
      (publish_ready config failing (pos 300) (pos 400) (pos 500) outbox).1.outbox.rows
unfolding acked_ids ready hundredths error_of sort
publish_ready-Holds_example =
    publish_ready-Holds config failing (pos 300) (pos 400) (pos 500) outbox waiting_row refl
      outbox-Holds
