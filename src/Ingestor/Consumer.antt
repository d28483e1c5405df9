-- ===== src/Ingestor/Consumer.antt =====
-- services/event-ingestor/src/netpulse_ingestion/consumer.py: the loop over the polled messages. Kafka delivers them in an order
-- that the consumer does not choose, again after a seek or a restart; what the broker makes of a commit is outside.
pub mod Committed
use local_network_kafka_moni.Base.{
  ℕ, ◌+◌, Bool, true, false, List, [], ◌∷◌, Option, none, some, leb, if◌then◌else◌,
}
use local_network_kafka_moni.Ingestor.Model.{SourceRecord, same_coordinate}
use local_network_kafka_moni.Ingestor.Processor.{Setup, World, Result, processed, raised, process}

-- The world, the dict `attempts`, the calls of the Kafka client in this loop (the latest first): the messages that it
-- committed and those that it sought back to; and the number of the commits that were tried.
pub record Consumer : Type 0 where
  pub world : World
  pub attempts : List (SourceRecord × ℕ)
  pub committed : List SourceRecord
  pub sought : List SourceRecord
  pub commits_tried : ℕ

pub data Step : Type 0 where
  continues : Consumer → Step
  -- `RuntimeError`: the consumer stops without committing the offset.
  stopped : Consumer → Step

-- `attempts.get(coordinate, 0)`
unfoldable pub attempts_of : SourceRecord → List (SourceRecord × ℕ) → ℕ
attempts_of source [] = 0
attempts_of source ((other, n) ∷ rest) =
    if same_coordinate other source then n else attempts_of source rest

-- `attempts.pop(coordinate, None)`
unfoldable pub forget : SourceRecord → List (SourceRecord × ℕ) → List (SourceRecord × ℕ)
forget source [] = []
forget source ((other, n) ∷ rest) =
    if same_coordinate other source then forget source rest else (other, n) ∷ forget source rest

-- `attempts[coordinate] = attempt`
unfoldable pub set_attempts : SourceRecord → ℕ → List (SourceRecord × ℕ) → List (SourceRecord × ℕ)
unfolding forget
set_attempts source n attempts = (source, n) ∷ forget source attempts

-- The next turn of the loop, unless the consumer has stopped.
unfoldable pub proceed : Step → (Consumer → Step) → Step
proceed (continues st) next = next st
proceed (stopped st) next = stopped st

-- `commit_returns` says whether the commit with a number returns; it raises otherwise, within the same `try`.
module _ {J : Type 0} (setup : Setup J) (commit_returns : ℕ → Bool)
    (max_processing_attempts : ℕ) where
  -- The `except` block: the stop, or another attempt after a seek back to the message.
  unfoldable pub retry : SourceRecord → World → Consumer → Step
  unfolding attempts_of set_attempts
  retry source world st =
      let attempt = attempts_of source st.attempts + 1 in
      let next = record st { world = world; attempts = set_attempts source attempt st.attempts } in
      if leb max_processing_attempts attempt
      then stopped next
      else continues (record next { sought = source ∷ st.sought })

  -- What follows `process`.
  unfoldable pub finish : SourceRecord → Result → World → Consumer → Step
  unfolding forget retry
  finish source (processed outcome id) world st =
      let tried = record st { commits_tried = st.commits_tried + 1 } in
      if commit_returns st.commits_tried
      then continues (record tried {
        world = world;
        attempts = forget source st.attempts;
        committed = source ∷ st.committed;
      })
      else retry source world tried
  finish source raised world st = retry source world st

  unfoldable pub handle : SourceRecord → Consumer → Step
  unfolding finish
  handle source st =
      finish source (process setup source st.world).0 (process setup source st.world).1 st

  unfoldable pub run : List SourceRecord → Consumer → Step
  unfolding handle proceed
  run [] st = continues st
  run (source ∷ messages) st = proceed (handle source st) (run messages)
