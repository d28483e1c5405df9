-- ===== src/Classifier/Lifecycle/Status.antt =====
-- The statuses that `transition` may write, and the end time that comes with them.
use local_network_kafka_moni.Base.{
  ℕ, ◌+◌, String, ◌≡◌, refl, List, [], ◌∷◌, none, some, All, All-append, All-of_forall, Memᴰ,
  Option-cases, leb, ◌⊎◌, inl, inr, Bool-cases,
}
use local_network_kafka_moni.Base.Dict.{Dict, get, has, Values}
use local_network_kafka_moni.Classifier.Models.{
  Time, IncidentStatus, candidate, open_status, ongoing, recovering, resolved, Finding,
  ActiveIncident, Transition, Platform,
}
use local_network_kafka_moni.Classifier.Config.{ClassifierConfig}
use local_network_kafka_moni.Classifier.Lifecycle.{
  miss, seen, confirmed_status, resolves, advance_found, advance_missed, transition, active_by_key,
  finding_by_key,
}

-- The diagram of the lifecycle: `seen_again` is an observation of the finding, `unseen` its absence.
pub data Advance : IncidentStatus → IncidentStatus → Type 0 where
  keep_candidate : Advance candidate candidate
  promote : Advance candidate open_status
  dismiss : Advance candidate resolved
  continue_open : Advance open_status ongoing
  continue_ongoing : Advance ongoing ongoing
  start_recovery : Advance open_status recovering
  start_recovery_late : Advance ongoing recovering
  keep_recovering : Advance recovering recovering
  finish_recovery : Advance recovering resolved
  relapse : Advance recovering open_status

abbrev pub IsLive : IncidentStatus → Type 0
IsLive resolved = ⊥
IsLive _ = Unit

-- What a transition has to do with the active incidents, at the time `at`.
pub record Continues {R : Type 0} (previous : ActiveIncident R) (t : Transition R) : Type 0 where
  pub same_id : t.incident_id ≡ previous.incident_id
  pub same_start : t.start_time ≡ previous.start_time
  pub next_revision : t.state_revision ≡ previous.state_revision + 1
  pub allowed : Advance previous.status t.status

-- A transition starts a candidate, or continues one of the active incidents.
abbrev pub Origin : {R : Type 0} → Time → List (ActiveIncident R) → Transition R → Type 0
Origin {R} at active t =
    ((t.status ≡ candidate) × (t.state_revision ≡ 1) × (t.start_time ≡ at))
    ⊎ ((previous : ActiveIncident R) × Memᴰ previous active × Continues previous t)

-- Resolved exactly with an end time, which is the time of the observation.
abbrev pub EndsWell : {R : Type 0} → Time → Transition R → Type 0
EndsWell at t =
    ((t.status ≡ resolved) × (t.end_time ≡ some at)) ⊎ (IsLive t.status × (t.end_time ≡ none))

module _ {R : Type 0} (config : ClassifierConfig R) where
  pub confirmed-IsLive : (s : IncidentStatus) (p : ℕ) → IsLive (confirmed_status config s p)
  unfolding confirmed_status
  confirmed-IsLive candidate p = elim (Bool-cases (leb config.open_observations p)) [
    | inl e ↦ rw e tt
    | inr e ↦ rw e tt
  ]
  confirmed-IsLive open_status p = tt
  confirmed-IsLive _ p = tt

  pub miss-EndsWell :
      (at : Time) (previous : ActiveIncident R) → EndsWell at (miss config at previous)
  unfolding miss
  miss-EndsWell at previous =
      elim (Bool-cases (resolves config previous.status (previous.recovery_observations + 1))) [
        | inl e ↦ rw e (inl (refl, refl))
        | inr e ↦ rw e (inr (tt, refl))
      ]

module _ {R : Type 0} (config : ClassifierConfig R) (platform : Platform) (at : Time) where
  -- Two predicates that every step keeps, by one induction.
  module _ (P : Transition R → Type 0) (incidents : Dict (ActiveIncident R))
      (Q : Finding R → Type 0)
      (on_seen : (key : String) (found : Finding R)
        → Q found
        → P (seen config platform at incidents key found)) where
    pub All-advance_found :
        (found : Dict (Finding R))
        → Values Q found
        → All P (advance_found config platform at incidents found)
    unfolding advance_found
    All-advance_found [] h = tt
    All-advance_found ((key, found) ∷ rest) h = (on_seen key found h.0, All-advance_found rest h.1)

  module _ (P : Transition R → Type 0) (found : Dict (Finding R)) where
    pub All-advance_missed :
        (incidents : Dict (ActiveIncident R))
        → Values (λ previous. P (miss config at previous)) incidents
        → All P (advance_missed config at found incidents)
    unfolding advance_missed
    All-advance_missed [] h = tt
    All-advance_missed ((key, previous) ∷ rest) h = elim (Bool-cases (has key found)) [
      | inl e ↦ rw e (All-advance_missed rest h.1)
      | inr e ↦ rw e (h.0, All-advance_missed rest h.1)
    ]

  seen-EndsWell :
      (incidents : Dict (ActiveIncident R)) (key : String) (found : Finding R)
      → EndsWell at (seen config platform at incidents key found)
  unfolding seen
  seen-EndsWell incidents key found = elim (Option-cases (get key incidents)) [
    | inl e ↦ rw (e, seen) (inr (tt, refl))
    | inr (previous, e) ↦ rw (e, seen) (inr (confirmed-IsLive config previous.status _, refl))
  ]

  -- A transition is resolved exactly if it carries an end time, and that is the time of the
  -- observation.
  pub transition-EndsWell :
      (findings : List (Finding R)) (active : List (ActiveIncident R))
      → All (EndsWell at) (transition config platform at findings active)
  unfolding transition
  transition-EndsWell findings active =
      All-append (EndsWell at) (advance_found config platform at incidents found)
        (advance_missed config at found incidents)
        (All-advance_found (EndsWell at) incidents (λ _. Unit {0})
          (λ key f _. seen-EndsWell incidents key f) found
          (All-of_forall (λ _. Unit {0}) (λ _. tt) found))
        (All-advance_missed (EndsWell at) found incidents (
          All-of_forall (λ e. EndsWell at (miss config at e.1)) (λ e. miss-EndsWell config at e.1)
            incidents))
    where
      incidents : Dict (ActiveIncident R)
      incidents = active_by_key active

      found : Dict (Finding R)
      found = finding_by_key findings
