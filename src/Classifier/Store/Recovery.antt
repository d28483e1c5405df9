-- ===== src/Classifier/Store/Recovery.antt =====
-- How many observations open and resolve an incident, through the stored rows.
use local_network_kafka_moni.Base.{ℕ, zero, suc, ◌≡◌, ◌⊎◌}
use local_network_kafka_moni.Classifier.Models.{
  Time, open_status, ongoing, Finding, ActiveIncident, Transition, Platform,
}
use local_network_kafka_moni.Classifier.Config.{ClassifierConfig}
use local_network_kafka_moni.Classifier.Lifecycle.{raise_candidate, confirm, miss}
use local_network_kafka_moni.Classifier.Event.{incident_of}
use local_network_kafka_moni.Classifier.Store.{active_from_row, inserted_row}

module _ {R : Type 0} (config : ClassifierConfig R) (platform : Platform) (times : ℕ → Time) where
  -- The incident as the next cycle loads it from the row of a transition.
  pub stored : Time → Transition R → ActiveIncident R
  unfolding active_from_row inserted_row
  stored at t = active_from_row (inserted_row t (incident_of platform t at))

  -- The incident after a number of cycles that do not see its finding.
  pub after_misses : ℕ → ActiveIncident R → ActiveIncident R
  unfolding stored miss
  after_misses zero a = a
  after_misses (suc n) a = stored (times n) (miss config (times n) (after_misses n a))

  -- The incident of a new finding, after a number of further cycles that see it.
  pub after_sightings : (ℕ → Finding R) → ℕ → ActiveIncident R
  unfolding stored raise_candidate confirm
  after_sightings found zero =
      stored (times 0) (raise_candidate platform (times 0) (found 0).incident_key (found 0))
  after_sightings found (suc n) =
      stored (times (suc n)) (confirm config (after_sightings found n) (found (suc n)))

  abbrev pub IsOpen : ActiveIncident R → Type 0
  IsOpen a = (a.status ≡ open_status) ⊎ (a.status ≡ ongoing)
