-- ===== src/Agent/Publisher.antt =====
-- services/network-agent/src/netpulse_agent/publisher.py: one round of the delivery worker. The
-- Kafka producer is outside: what it answers to each record is a parameter.
pub mod Delivery
use local_network_kafka_moni.Base.{
  ℕ, ◌+◌, String, Bool, true, false, List, [], ◌∷◌, Option, none, some, if◌then◌else◌,
}
use local_network_kafka_moni.Base.Number.{Number}
use local_network_kafka_moni.Agent.Outbox.{
  OutboxConfig, OutboxRecord, Outbox, ready, mark_delivered, mark_failed, prune_acknowledged, depth,
  oldest_pending_age_seconds,
}

-- What happens to one record: the exception of `produce`, if any; for each `poll` before the
-- deadline the callback it ran, if any, with the error that the callback was given; the clock and
-- the random value when the outcome is stored.
pub record Attempt (R : Type 0) : Type 0 where
  pub refused : Option String
  pub polls : List (Option (Option String))
  pub now : R
  pub jitter : R

pub record Round (R : Type 0) : Type 0 where
  pub acknowledged : ℕ
  pub failed : ℕ
  pub outbox : Outbox R

-- The gauges that the round sets.
pub record Gauges (R : Type 0) : Type 0 where
  pub depth : ℕ
  pub oldest : Option R

-- The loop `while not completed.is_set() and time.monotonic() < deadline`.
unfoldable pub await : List (Option (Option String)) → Option (Option String)
await [] = none
await (none ∷ polls) = await polls
await (some error ∷ polls) = some error

-- The error of an attempt; none when the broker acknowledged the record.
unfoldable pub error_of : {R : Type 0} → Attempt R → Option String
unfolding await
error_of attempt = elim attempt.refused [
  | some error ↦ some error
  | none ↦ elim (await attempt.polls) [
    | none ↦ some "Kafka delivery callback timed out"
    | some error ↦ error
  ]
]

module _ {R : Type 0} ⦃num : Number R⦄ where
  unfoldable pub settle :
      OutboxConfig R → Option String → Attempt R → OutboxRecord → Outbox R → Bool × Outbox R
  settle config (some error) attempt sent o =
      (false, (mark_failed config sent error attempt.now attempt.jitter o).1)
  settle config none attempt sent o = (true, mark_delivered sent.event_id attempt.now o)

  unfoldable pub publish_one :
      OutboxConfig R → Attempt R → OutboxRecord → Outbox R → Bool × Outbox R
  unfolding settle error_of
  publish_one config attempt sent o = settle config (error_of attempt) attempt sent o

  -- The loop over a batch; the attempts are numbered from `i`.
  unfoldable pub publish_batch :
      OutboxConfig R
      → (ℕ → Attempt R)
      → ℕ
      → List OutboxRecord
      → (acknowledged failed : ℕ) → Outbox R
      → Round R
  unfolding publish_one
  publish_batch config attempts i [] acknowledged failed o = record {
    acknowledged = acknowledged;
    failed = failed;
    outbox = o;
  }
  publish_batch config attempts i (sent ∷ batch) acknowledged failed o =
      let outcome = publish_one config (attempts i) sent o in
      publish_batch config attempts (i + 1) batch
        (if outcome.0 then acknowledged + 1 else acknowledged)
        (if outcome.0 then failed else failed + 1) outcome.1

  -- `now` is the clock of `ready`, `later` that of `prune_acknowledged`, `last` that of the gauges.
  unfoldable pub publish_ready :
      OutboxConfig R → (ℕ → Attempt R) → (now later last : R) → Outbox R → Gauges R × Round R
  unfolding publish_batch
  publish_ready config attempts now later last o =
      let round = publish_batch config attempts 0 (ready config now o) 0 0 o in
      let pruned = (prune_acknowledged config later round.outbox).1 in
      (
        record { depth = depth pruned; oldest = oldest_pending_age_seconds last pruned },
        record round { outbox = pruned },
      )
