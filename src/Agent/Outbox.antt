-- ===== src/Agent/Outbox.antt =====
-- services/network-agent/src/netpulse_agent/outbox.py: the SQLite outbox. A method is one SQLite
-- transaction on the table `outbox_events` and the sequence number. Times are of a type `R` of
-- numbers; the size of the database files is read by the caller and passed in.
pub mod Backoff
pub mod Safety
pub mod Batch
use Prim.Native.Nat.{Ordering, min}
use Prim.Native.String.{compare}
use local_network_kafka_moni.Base.{
  ℕ, zero, suc, ◌+◌, ◌^◌, String, Bool, true, false, not, ◌&&◌, ◌||◌, List, [], ◌∷◌, ◌++◌, map,
  Option, none, some, ltb, length, filter, any, take, str_eq, if◌then◌else◌,
}
use local_network_kafka_moni.Base.Number.{Number, min_of, max_of}
use local_network_kafka_moni.Base.Sort.{sort}

pub record OutboxConfig (R : Type 0) : Type 0 where
  pub maximum_bytes : ℕ
  pub batch_size : ℕ
  pub retry_base_seconds : R
  pub retry_max_seconds : R
  pub acknowledged_retention_seconds : ℕ

-- The parts of an event that the outbox reads: its identifier, topic, agent and JSON text.
pub record Event : Type 0 where
  pub event_id : String
  pub topic : String
  pub agent_id : String
  pub payload : List ℕ

-- A row of `outbox_events`.
pub record Row (R : Type 0) : Type 0 where
  pub event_id : String
  pub topic : String
  pub message_key : String
  pub payload : List ℕ
  pub created_at : R
  pub delivered_at : Option R
  pub retry_count : ℕ
  pub last_error : Option String
  pub next_attempt_at : R

pub record OutboxRecord : Type 0 where
  pub event_id : String
  pub topic : String
  pub message_key : String
  pub payload : List ℕ
  pub retry_count : ℕ

-- `sequence` is `none` for the initial -1.
pub record Outbox (R : Type 0) : Type 0 where
  pub rows : List (Row R)
  pub sequence : Option ℕ

pub data Enqueued (R : Type 0) : Type 0 where
  -- The result of `rowcount == 1`.
  stored : Bool → Outbox R → Enqueued R
  outbox_full : Enqueued R

unfoldable pub following : Option ℕ → ℕ
following none = 0
following (some current) = current + 1

-- `text[:n]`
unfoldable pub prefix : ℕ → String → String
prefix zero s = String.[]
prefix (suc n) String.[] = String.[]
prefix (suc n) (String.◌∷◌ c s) = String.◌∷◌ c (prefix n s)

module _ {R : Type 0} where
  unfoldable pub is_pending : Row R → Bool
  is_pending row = elim row.delivered_at [ none ↦ true | some _ ↦ false ]

  unfoldable pub next_sequence : Outbox R → ℕ × Outbox R
  unfolding following
  next_sequence o = (following o.sequence, record o { sequence = some (following o.sequence) })

  unfoldable pub new_row : Event → R → Row R
  new_row event timestamp = record {
    event_id = event.event_id;
    topic = event.topic;
    message_key = event.agent_id;
    payload = event.payload;
    created_at = timestamp;
    delivered_at = none;
    retry_count = 0;
    last_error = none;
    next_attempt_at = timestamp;
  }

  unfoldable pub has_id : String → List (Row R) → Bool
  has_id id rows = any (λ row. str_eq row.event_id id) rows

  unfoldable pub enqueue : OutboxConfig R → (storage_bytes : ℕ) → Event → R → Outbox R → Enqueued R
  unfolding has_id new_row
  enqueue config storage_bytes event timestamp o =
      if ltb config.maximum_bytes (storage_bytes + length event.payload)
      then outbox_full
      else if has_id event.event_id o.rows
      then stored false o
      else stored true (record o { rows = o.rows ++ new_row event timestamp ∷ [] })

  unfoldable pub to_record : Row R → OutboxRecord
  to_record row = record {
    event_id = row.event_id;
    topic = row.topic;
    message_key = row.message_key;
    payload = row.payload;
    retry_count = row.retry_count;
  }

  -- `WHERE event_id = ? AND delivered_at IS NULL`
  unfoldable pub update_pending : String → (Row R → Row R) → List (Row R) → List (Row R)
  unfolding is_pending
  update_pending id change [] = []
  update_pending id change (row ∷ rows) =
      (if str_eq row.event_id id && is_pending row then change row else row)
      ∷ update_pending id change rows

  unfoldable pub set_delivered : R → Row R → Row R
  set_delivered timestamp row = record row { delivered_at = some timestamp; last_error = none }

  unfoldable pub mark_delivered : String → R → Outbox R → Outbox R
  unfolding update_pending set_delivered
  mark_delivered id timestamp o = record o {
    rows = update_pending id (set_delivered timestamp) o.rows;
  }

  unfoldable pub set_failed : ℕ → String → R → Row R → Row R
  set_failed retry_count error next_attempt row = record row {
    retry_count = retry_count;
    last_error = some (prefix 1024 error);
    next_attempt_at = next_attempt;
  }

  unfoldable pub depth : Outbox R → ℕ
  unfolding is_pending
  depth o = length (filter is_pending o.rows)

module _ {R : Type 0} ⦃num : Number R⦄ where
  unfoldable pub is_eligible : R → Row R → Bool
  unfolding is_pending
  is_eligible timestamp row = is_pending row && num.leb row.next_attempt_at timestamp

  -- `ORDER BY created_at, event_id`
  unfoldable pub row_le : Row R → Row R → Bool
  row_le a b =
      not (num.leb b.created_at a.created_at)
      || (num.leb a.created_at b.created_at
          && elim (compare a.event_id b.event_id) [ Ordering.gt ↦ false | _ ↦ true ])

  unfoldable pub ready_rows : OutboxConfig R → R → Outbox R → List (Row R)
  unfolding is_eligible row_le
  ready_rows config timestamp o =
      take config.batch_size (sort row_le (filter (is_eligible timestamp) o.rows))

  unfoldable pub ready : OutboxConfig R → R → Outbox R → List OutboxRecord
  unfolding ready_rows to_record
  ready config timestamp o = map to_record (ready_rows config timestamp o)

  -- The delay before the next attempt.
  unfoldable pub backoff : OutboxConfig R → (retry_count : ℕ) → (jitter_fraction : R) → R
  backoff config retry_count jitter_fraction =
      let exponential = num.mul config.retry_base_seconds (num.of_ℕ (2 ^ min retry_count 20)) in
      let base_delay = min_of config.retry_max_seconds exponential in
      num.add base_delay (
        num.mul (num.mul base_delay num.quarter)
          (min_of (num.of_ℕ 1) (max_of (num.of_ℕ 0) jitter_fraction)))

  unfoldable pub mark_failed :
      OutboxConfig R → OutboxRecord → String → R → R → Outbox R → R × Outbox R
  unfolding update_pending set_failed backoff
  mark_failed config failed error timestamp jitter_fraction o =
      let next_attempt = num.add timestamp (backoff config failed.retry_count jitter_fraction) in
      (
        next_attempt,
        record o {
          rows =
              update_pending failed.event_id
                (set_failed (failed.retry_count + 1) error next_attempt) o.rows;
        },
      )

  unfoldable pub is_stale : R → Row R → Bool
  is_stale cutoff row = elim row.delivered_at [ none ↦ false | some at ↦ num.leb at cutoff ]

  unfoldable pub prune_acknowledged : OutboxConfig R → R → Outbox R → ℕ × Outbox R
  unfolding is_stale
  prune_acknowledged config timestamp o =
      let cutoff = num.add timestamp (num.neg (num.of_ℕ config.acknowledged_retention_seconds)) in
      (
        length (filter (is_stale cutoff) o.rows),
        record o { rows = filter (λ row. not (is_stale cutoff row)) o.rows },
      )

  unfoldable pub oldest_from : Option R → List (Row R) → Option R
  oldest_from best [] = best
  oldest_from none (row ∷ rows) = oldest_from (some row.created_at) rows
  oldest_from (some best) (row ∷ rows) = oldest_from (some (min_of best row.created_at)) rows

  -- `SELECT min(created_at) ...` and the age, at least zero.
  unfoldable pub oldest_pending_age_seconds : R → Outbox R → Option R
  unfolding oldest_from is_pending
  oldest_pending_age_seconds timestamp o = elim (oldest_from none (filter is_pending o.rows)) [
    | none ↦ none
    | some created ↦ some (max_of (num.of_ℕ 0) (num.add timestamp (num.neg created)))
  ]
