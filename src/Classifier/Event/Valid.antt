-- ===== src/Classifier/Event/Valid.antt =====
-- The events that a cycle of the classifier builds pass the contract's lifecycle validator.
use Prim.Native.String.{◌++◌}
use local_network_kafka_moni.Base.{
  leb, ◌&&◌, Bool, Option, ap, ◌∙◌, if◌then◌else◌, ◌≤◌, String, ◌≡◌, refl, ◌≢◌, inl, inr, true,
  List, [], ◌∷◌, none, some, All, All-append, All-mono, nonempty, Option-cases, arith,
}
use local_network_kafka_moni.Base.Number.{Number}
use local_network_kafka_moni.Classifier.Models.{
  Time, IncidentStatus, candidate, open_status, ongoing, recovering, resolved, Finding,
  ActiveIncident, Transition, Platform, ObservationSnapshot,
}
use local_network_kafka_moni.Classifier.Config.{ClassifierConfig}
use local_network_kafka_moni.Classifier.Engine.{classify}
use local_network_kafka_moni.Classifier.Engine.Agents.{HasAgents, classify-HasAgents}
use local_network_kafka_moni.Base.Dict.{Dict, get, Values, get-Values, from_items-Values}
use local_network_kafka_moni.Classifier.Lifecycle.{
  transition, seen, miss, advance_found, advance_missed, active_by_key, finding_by_key,
}
use local_network_kafka_moni.Classifier.Lifecycle.Status.{
  IsLive, EndsWell, confirmed-IsLive, miss-EndsWell, All-advance_found, All-advance_missed,
}
use local_network_kafka_moni.Classifier.Event.{
  Incident, text_length, valid, invalid, out_of_bounds, fits, at_least_zero, in_percent, in_bounds,
  validate_incident_lifecycle, incident_of, event,
}

nonempty_of_ne {ℓ} : {A : Type ℓ} (xs : List A) → xs ≢ [] → nonempty xs ≡ true
nonempty_of_ne [] h = absurd (h refl)
nonempty_of_ne (x ∷ xs) h = refl

module _ {R : Type 0} (i : Incident R) (agents : i.affected_agents ≢ []) where
  valid_resolved :
      (e : Time)
      → i.status ≡ resolved
      → i.end_time ≡ some e
      → i.start_time ≤ e
      → validate_incident_lifecycle i ≡ valid i
  unfolding validate_incident_lifecycle
  valid_resolved e s q le = ground (arith, nonempty_of_ne i.affected_agents agents)

  valid_live :
      (s : IncidentStatus)
      → i.status ≡ s
      → IsLive s
      → i.end_time ≡ none
      → validate_incident_lifecycle i ≡ valid i
  unfolding validate_incident_lifecycle
  valid_live candidate s live q = ground (arith, nonempty_of_ne i.affected_agents agents)
  valid_live open_status s live q = ground (arith, nonempty_of_ne i.affected_agents agents)
  valid_live ongoing s live q = ground (arith, nonempty_of_ne i.affected_agents agents)
  valid_live recovering s live q = ground (arith, nonempty_of_ne i.affected_agents agents)
  valid_live resolved s live q = elim live [ ]

-- What an active incident has that the repository loaded from an earlier cycle's row.
pub record IsSound {R : Type 0} (at : Time) (a : ActiveIncident R) : Type 0 where
  pub live : IsLive a.status
  pub named : HasAgents a.finding
  pub started : a.start_time ≤ at

-- What the validator needs of a transition.
pub record IsReady {R : Type 0} (at : Time) (t : Transition R) : Type 0 where
  pub named : HasAgents t.finding
  pub started : t.start_time ≤ at
  pub ends : EndsWell at t

module _ {R : Type 0} ⦃num : Number R⦄ (platform : Platform) (at : Time) where
  lifecycle_of_ready :
      (t : Transition R)
      → IsReady at t
      → validate_incident_lifecycle (incident_of platform t at) ≡ valid (incident_of platform t at)
  unfolding incident_of
  lifecycle_of_ready t r = elim r.ends [
    | inl (s, q) ↦ valid_resolved (incident_of platform t at) r.named at s q r.started
    | inr (live, q) ↦ valid_live (incident_of platform t at) r.named t.status refl live q
  ]

  pub event_of_ready :
      (t : Transition R)
      → IsReady at t
      → event platform t at ≡ (
          if in_bounds (incident_of platform t at)
          then valid (incident_of platform t at)
          else invalid out_of_bounds)
  unfolding event
  event_of_ready t r = rw (lifecycle_of_ready t r) refl

module _ {R : Type 0} (config : ClassifierConfig R) (platform : Platform) (at : Time) where
  seen-IsReady :
      (incidents : Dict (ActiveIncident R))
      → Values (IsSound at) incidents
      → (key : String) (found : Finding R) → HasAgents found
      → IsReady at (seen config platform at incidents key found)
  unfolding seen
  seen-IsReady incidents h key found named = elim (Option-cases (get key incidents)) [
    | inl e ↦ rw (e, seen) (record { named = named; started = omega arith; ends = inr (tt, refl) })
    | inr (previous, e) ↦
        rw (e, seen)
          (record {
            named = named;
            started = (get-Values (IsSound at) key incidents previous h e).started;
            ends = inr (confirmed-IsLive config previous.status _, refl);
          })
  ]

  miss-IsReady :
      (previous : ActiveIncident R) → IsSound at previous → IsReady at (miss config at previous)
  unfolding miss
  miss-IsReady previous s = record {
    named = s.named;
    started = s.started;
    ends = unfold miss in miss-EndsWell config at previous;
  }

  pub transition-IsReady :
      (findings : List (Finding R)) (active : List (ActiveIncident R))
      → All HasAgents findings
      → All (IsSound at) active
      → All (IsReady at) (transition config platform at findings active)
  unfolding transition active_by_key finding_by_key
  transition-IsReady findings active named sound =
      All-append (IsReady at) (advance_found config platform at incidents found)
        (advance_missed config at found incidents)
        (All-advance_found config platform at (IsReady at) incidents HasAgents
          (seen-IsReady incidents known) found
          (from_items-Values HasAgents _ _ findings [] named tt))
        (All-advance_missed config platform at (IsReady at) found incidents (
          All-mono _ (λ e. IsReady at (miss config at e.1)) (λ e s. miss-IsReady e.1 s) incidents
            known))
    where
      incidents : Dict (ActiveIncident R)
      incidents = active_by_key active

      found : Dict (Finding R)
      found = finding_by_key findings

      known : Values (IsSound at) incidents
      known = from_items-Values (IsSound at) _ _ active [] sound tt

module _ {R : Type 0} ⦃num : Number R⦄ where
  -- A value that is missing, or at least the one, and at most the other if that is given.
  abbrev pub is_within : (low : R) → (high : Option R) → Option R → Bool
  is_within low high none = true
  is_within low none (some value) = num.leb low value
  is_within low (some high) (some value) = num.leb low value && num.leb value high

  -- The fields of the event of a transition that have bounds are within them.
  abbrev pub fields_bounded : Transition R → Bool
  fields_bounded t =
      leb t.finding.confidence_score 100
      && (is_within (num.of_ℕ 0) none t.finding.peak_latency_ms
          && (is_within (num.of_ℕ 0) (some (num.of_ℕ 100)) t.finding.maximum_packet_loss_pct
              && ((leb 1 (text_length ("Probable classification: " ++ t.finding.summary))
                    && leb (text_length ("Probable classification: " ++ t.finding.summary)) 2048)
                  && (leb 1 (text_length t.finding.recommended_action)
                      && leb (text_length t.finding.recommended_action) 2048))))

  at_least_zero-is_within : (v : Option R) → at_least_zero v ≡ is_within (num.of_ℕ 0) none v
  unfolding at_least_zero
  at_least_zero-is_within none = refl
  at_least_zero-is_within (some value) = refl

  in_percent-is_within :
      (v : Option R) → in_percent v ≡ is_within (num.of_ℕ 0) (some (num.of_ℕ 100)) v
  unfolding in_percent
  in_percent-is_within none = refl
  in_percent-is_within (some value) = refl

  in_bounds-fields_bounded :
      (platform : Platform) (t : Transition R) (at : Time)
      → in_bounds (incident_of platform t at) ≡ fields_bounded t
  unfolding in_bounds incident_of fits
  in_bounds-fields_bounded platform t at =
      rw
        (
          at_least_zero-is_within t.finding.peak_latency_ms,
          in_percent-is_within t.finding.maximum_packet_loss_pct,
        )
        refl

module _ {R : Type 0} ⦃num : Number R⦄ (config : ClassifierConfig R) (platform : Platform) where
  -- The lifecycle validator never refuses an event of a cycle: whatever the snapshot, as long as the active incidents are
  -- unresolved, name an agent and started no later than the observation, the event of each transition is refused exactly
  -- when a single field is out of its bounds (a confidence above 1, a negative latency, a packet loss outside 0..100, a
  -- summary or action that is empty or longer than 2048 characters), and is built as it stands otherwise.
  pub cycle-events_valid :
      (snapshot : ObservationSnapshot R) (active : List (ActiveIncident R))
      → All (IsSound snapshot.observed_at) active
      → All
          (λ t. event platform t snapshot.observed_at ≡ (
            if fields_bounded t
            then valid (incident_of platform t snapshot.observed_at)
            else invalid out_of_bounds))
          (transition config platform snapshot.observed_at
            (classify config platform snapshot)
            active)
  cycle-events_valid snapshot active sound =
      All-mono (IsReady at) _
        (λ t r.
          event_of_ready platform at t r
          ∙ ap (λ b. if b then valid (incident_of platform t at) else invalid out_of_bounds)
              (in_bounds-fields_bounded platform t at))
        _
        (transition-IsReady config platform at _ active
          (classify-HasAgents config platform snapshot) sound)
    where
      at : Time
      at = snapshot.observed_at
