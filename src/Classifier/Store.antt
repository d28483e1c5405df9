-- ===== src/Classifier/Store.antt =====
-- services/incident-classifier/src/netpulse_classifier/repository.py: the tables `network_incidents`
-- and `incident_state_events`, and the operations of `PostgresIncidentRepository` on them. A method is
-- one database transaction. `load_snapshot` reads other tables and is an input of the service.
pub mod Recovery
use Prim.Native.Nat.{Ordering}
use Prim.Native.String.{compare}
use local_network_kafka_moni.Base.{
  ℕ, String, Bool, true, false, not, ◌&&◌, ◌||◌, List, [], ◌∷◌, ◌++◌, map, Option, none, some, ltb,
  leb, ◌==◌, filter, any, all, take, str_eq, if◌then◌else◌,
}
use local_network_kafka_moni.Base.Number.{Number}
use local_network_kafka_moni.Base.Sort.{sort}
use local_network_kafka_moni.Classifier.Models.{
  Time, Uuid, IncidentStatus, Finding, ActiveIncident, Transition,
}
use local_network_kafka_moni.Classifier.Event.{
  Incident, is_resolved, is_none, ends_early, at_least_zero, in_percent, text_length,
}

-- A row of `network_incidents`; the columns from the key to the recommended action are a finding.
pub record IncidentRow (R : Type 0) : Type 0 where
  pub incident_id : Uuid
  pub finding : Finding R
  pub start_time : Time
  pub end_time : Option Time
  pub status : IncidentStatus
  pub duration : ℕ
  pub state_revision : ℕ
  pub positive_observations : ℕ
  pub recovery_observations : ℕ
  pub last_observed_at : Time

-- A row of `incident_state_events`; `published` says whether `published_at` is set.
pub record StateEvent (R : Type 0) : Type 0 where
  pub event_id : Uuid
  pub incident_id : Uuid
  pub state_revision : ℕ
  pub status : IncidentStatus
  pub event_time : Time
  pub payload : Incident R
  pub published : Bool

pub record Database (R : Type 0) : Type 0 where
  pub incidents : List (IncidentRow R)
  pub events : List (StateEvent R)

module _ {R : Type 0} where
  -- The values of the INSERT.
  unfoldable pub inserted_row : Transition R → Incident R → IncidentRow R
  inserted_row t event = record {
    incident_id = t.incident_id;
    finding = t.finding;
    start_time = t.start_time;
    end_time = t.end_time;
    status = t.status;
    duration = event.duration;
    state_revision = t.state_revision;
    positive_observations = t.positive_observations;
    recovery_observations = t.recovery_observations;
    last_observed_at = event.event_time;
  }

  unfoldable pub state_event : Transition R → Incident R → StateEvent R
  state_event t event = record {
    event_id = event.event_id;
    incident_id = t.incident_id;
    state_revision = t.state_revision;
    status = t.status;
    event_time = event.event_time;
    payload = event;
    published = false;
  }

  -- `ON CONFLICT (event_id) DO NOTHING`
  unfoldable pub add_event : StateEvent R → List (StateEvent R) → List (StateEvent R)
  add_event e events =
      if any (λ old. old.event_id == e.event_id) events then events else events ++ e ∷ []

  unfoldable pub active_from_row : IncidentRow R → ActiveIncident R
  active_from_row row = record {
    incident_id = row.incident_id;
    incident_key = row.finding.incident_key;
    incident_type = row.finding.incident_type;
    start_time = row.start_time;
    status = row.status;
    state_revision = row.state_revision;
    positive_observations = row.positive_observations;
    recovery_observations = row.recovery_observations;
    finding = row.finding;
  }

  -- `ORDER BY start_time, incident_key`
  unfoldable pub row_le : IncidentRow R → IncidentRow R → Bool
  row_le a b =
      ltb a.start_time b.start_time
      || (a.start_time == b.start_time
          && elim (compare a.finding.incident_key b.finding.incident_key) [
            | Ordering.gt ↦ false
            | _ ↦ true
          ])

  unfoldable pub load_active : Database R → List (ActiveIncident R)
  load_active db =
      map active_from_row (sort row_le (filter (λ row. not (is_resolved row.status)) db.incidents))

  -- `ORDER BY event_time, incident_id, state_revision`
  unfoldable pub event_le : StateEvent R → StateEvent R → Bool
  event_le a b =
      ltb a.event_time b.event_time
      || (a.event_time == b.event_time
          && (ltb a.incident_id b.incident_id
              || (a.incident_id == b.incident_id && leb a.state_revision b.state_revision)))

  unfoldable pub unpublished : Database R → List (StateEvent R)
  unpublished db = filter (λ e. not e.published) db.events

  unfoldable pub pending_publications : ℕ → Database R → List (StateEvent R)
  unfolding unpublished
  pending_publications limit db = take limit (sort event_le (unpublished db))

  unfoldable pub publish_row : Uuid → StateEvent R → StateEvent R
  publish_row id e = if e.event_id == id then record e { published = true } else e

  unfoldable pub mark_published : Uuid → Database R → Database R
  unfolding publish_row
  mark_published id db = record db { events = map (publish_row id) db.events }

module _ {R : Type 0} ⦃num : Number R⦄ where
  -- `GREATEST(a, b)`, which leaves a NULL aside.
  unfoldable pub greatest : Option R → Option R → Option R
  greatest none b = b
  greatest (some a) none = some a
  greatest (some a) (some b) = if num.leb b a then some a else some b

  -- `ON CONFLICT (incident_id) DO UPDATE`: the key, the type and the start stay, the two maxima grow.
  unfoldable pub updated_row : IncidentRow R → IncidentRow R → IncidentRow R
  unfolding greatest
  updated_row old new = record new {
    start_time = old.start_time;
    finding = record new.finding {
      incident_key = old.finding.incident_key;
      incident_type = old.finding.incident_type;
      peak_latency_ms = greatest old.finding.peak_latency_ms new.finding.peak_latency_ms;
      maximum_packet_loss_pct =
          greatest old.finding.maximum_packet_loss_pct new.finding.maximum_packet_loss_pct;
    };
  }

  unfoldable pub upsert : IncidentRow R → List (IncidentRow R) → List (IncidentRow R)
  unfolding updated_row
  upsert new [] = new ∷ []
  upsert new (old ∷ rows) =
      if old.incident_id == new.incident_id
      then updated_row old new ∷ rows
      else old ∷ upsert new rows

  -- The rows after the two statements.
  unfoldable pub written : Transition R → Incident R → Database R → Database R
  unfolding upsert inserted_row add_event state_event
  written t event db = record {
    incidents = upsert (inserted_row t event) db.incidents;
    events = add_event (state_event t event) db.events;
  }

  -- The CHECK constraints of `network_incidents` that its types do not give.
  unfoldable pub satisfies_checks : IncidentRow R → Bool
  unfolding is_resolved is_none ends_early at_least_zero in_percent text_length
  satisfies_checks row =
      leb row.finding.confidence_score 100
      && (at_least_zero row.finding.peak_latency_ms
          && (in_percent row.finding.maximum_packet_loss_pct
              && (ltb 0 (text_length row.finding.summary)
                  && (ltb 0 (text_length row.finding.recommended_action)
                      && (ltb 0 row.state_revision
                          && (ltb 0 row.positive_observations
                              && (not (ends_early row.end_time row.start_time)
                                  && (if is_resolved row.status
                                      then not (is_none row.end_time)
                                      else is_none row.end_time))))))))

  -- `uq_network_incidents_active_key`: no two unresolved incidents of one key.
  unfoldable pub active_keys_unique : List (IncidentRow R) → Bool
  unfolding is_resolved
  active_keys_unique [] = true
  active_keys_unique (row ∷ rows) =
      let rest = active_keys_unique rows in
      (is_resolved row.status
        || not (
            any
              (λ other.
                not (is_resolved other.status)
                && str_eq other.finding.incident_key row.finding.incident_key)
              rows))
      && rest

  -- `UNIQUE (incident_id, state_revision)`
  unfoldable pub revisions_unique : List (StateEvent R) → Bool
  revisions_unique [] = true
  revisions_unique (e ∷ events) =
      let rest = revisions_unique events in
      not (
        any
          (λ other. other.incident_id == e.incident_id && other.state_revision == e.state_revision)
          events)
      && rest

  -- The inserted row is checked before its conflict is found, and the tables are checked as they stand after it.
  unfoldable pub admits : IncidentRow R → Database R → Bool
  unfolding satisfies_checks active_keys_unique revisions_unique
  admits new db =
      satisfies_checks new
      && (all satisfies_checks db.incidents
          && (active_keys_unique db.incidents
              && (all (λ e. ltb 0 e.state_revision) db.events && revisions_unique db.events)))

  -- `none` when a constraint is violated: psycopg raises, and the transaction is rolled back.
  unfoldable pub persist_transition : Transition R → Incident R → Database R → Option (Database R)
  unfolding written admits inserted_row
  persist_transition t event db =
      let next = written t event db in
      if admits (inserted_row t event) next then some next else none
