-- ===== src/Classifier/Service.antt =====
-- services/incident-classifier/src/netpulse_classifier/service.py: one cycle of the
-- service. What `IncidentPublisher.publish` does to each publication, numbered by a counter, is a
-- parameter: it returns or it raises. An exception ends the cycle and leaves what was committed
-- before it.
pub mod Drain
pub mod Delivery
use local_network_kafka_moni.Base.{
  ℕ, zero, suc, ◌+◌, ◌≡◌, Bool, List, [], ◌∷◌, ◌++◌, Option, none, some, if◌then◌else◌, length,
}
use local_network_kafka_moni.Base.Number.{Number}
use local_network_kafka_moni.Classifier.Models.{
  Time, Uuid, ObservationSnapshot, Transition, Platform,
}
use local_network_kafka_moni.Classifier.Config.{ClassifierConfig}
use local_network_kafka_moni.Classifier.Engine.{classify}
use local_network_kafka_moni.Classifier.Lifecycle.{transition}
use local_network_kafka_moni.Classifier.Event.{
  Incident, ContractError, Validated, valid, invalid, event,
}
use local_network_kafka_moni.Classifier.Store.{
  Database, StateEvent, load_active, pending_publications, mark_published, persist_transition,
}

-- The database, the events that the broker acknowledged (the latest first), and the number of
-- publications that were tried.
pub record World (R : Type 0) : Type 0 where
  pub db : Database R
  pub delivered : List Uuid
  pub calls : ℕ

pub data Failure : Type 0 where
  publication_failed : Failure
  constraint_violated : Failure
  invalid_event : ContractError → Failure
  -- The bound on the rounds of the loop is used up.
  out_of_fuel : Failure

pub data Outcome (A : Type 0) : Type 0 where
  ok : A → Outcome A
  failed : Failure → Outcome A

abbrev pub Exec : Type 0 → Type 0 → Type 0
Exec R A = World R → Outcome A × World R

module _ {R : Type 0} where
  abbrev continue : {A B : Type 0} → Outcome A → (A → Exec R B) → Exec R B
  continue (ok a) f w = f a w
  continue (failed e) f w = (failed e, w)

  infixl 5 ◌>>=◌ ◌>>◌
  abbrev pub ◌>>=◌ : {A B : Type 0} → Exec R A → (A → Exec R B) → Exec R B
  ◌>>=◌ m f w = continue (m w).0 f (m w).1

  abbrev pub ◌>>◌ : {A B : Type 0} → Exec R A → Exec R B → Exec R B
  m >> n = m >>= λ _. n

  abbrev pub pure : {A : Type 0} → A → Exec R A
  pure a w = (ok a, w)

module _ {R : Type 0} (broker : ℕ → Bool) where
  -- The call of `IncidentPublisher.publish`, which returns on an acknowledgement and raises otherwise.
  unfoldable pub publish : Uuid → Exec R (Unit {0})
  publish id w =
      if broker w.calls
      then (ok tt, record w { delivered = id ∷ w.delivered; calls = w.calls + 1 })
      else (failed publication_failed, record w { calls = w.calls + 1 })

  unfoldable pub mark : Uuid → Exec R (Unit {0})
  mark id w = (ok tt, record w { db = mark_published id w.db })

  -- The `for` loop over one batch.
  unfoldable pub publish_batch : List (StateEvent R) → Exec R ℕ
  unfolding publish mark
  publish_batch [] = pure 0
  publish_batch (e ∷ rest) = do
    publish e.event_id
    mark e.event_id
    n ← publish_batch rest
    pure (n + 1)

  -- `while True`, with a bound on the rounds.
  unfoldable pub publish_rounds : ℕ → ℕ → Exec R ℕ
  unfolding publish_batch
  publish_rounds zero published w = (failed out_of_fuel, w)
  publish_rounds (suc fuel) published w = elim (pending_publications 100 w.db) [
    | [] ↦ (ok published, w)
    | e ∷ rest ↦ (publish_batch (e ∷ rest) >>= λ n. publish_rounds fuel (published + n)) w
  ]

  unfoldable pub publish_pending : ℕ → Exec R ℕ
  unfolding publish_rounds
  publish_pending fuel = publish_rounds fuel 0

module _ {R : Type 0} ⦃num : Number R⦄ (config : ClassifierConfig R) (platform : Platform)
    (broker : ℕ → Bool) where
  unfoldable pub persist_event : Transition R → Validated (Incident R) → Exec R (Unit {0})
  persist_event t (valid i) w = elim (persist_transition t i w.db) [
    | none ↦ (failed constraint_violated, w)
    | some db ↦ (ok tt, record w { db = db })
  ]
  persist_event t (invalid e) w = (failed (invalid_event e), w)

  unfoldable pub persist_all : Time → List (Transition R) → Exec R (Unit {0})
  unfolding persist_event event
  persist_all at [] = pure tt
  persist_all at (t ∷ ts) = do persist_event t (event platform t at); persist_all at ts

  -- The transitions that the engine computes from the stored incidents.
  unfoldable pub compute : ObservationSnapshot R → Exec R (List (Transition R))
  compute snapshot w = (
    ok (
        transition config platform snapshot.observed_at (classify config platform snapshot)
          (load_active w.db)),
    w,
  )

  unfoldable pub evaluate_once : ℕ → ObservationSnapshot R → Exec R ℕ
  unfolding compute persist_all publish_pending
  evaluate_once fuel snapshot = do
    publish_pending broker fuel
    transitions ← compute snapshot
    persist_all snapshot.observed_at transitions
    publish_pending broker fuel
    pure (length transitions)
