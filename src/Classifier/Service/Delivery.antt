-- ===== src/Classifier/Service/Delivery.antt =====
-- What the service marks as published was acknowledged by the broker, whatever the broker answers.
use local_network_kafka_moni.Base.{
  ℕ, zero, suc, ◌+◌, ◌≡◌, refl, inl, inr, Bool, true, false, List, [], ◌∷◌, map, Memᴰ, All,
  All-append, any, length, Bool-cases, ◌==◌, ==_iff,
}
use local_network_kafka_moni.Base.Number.{Number}
use local_network_kafka_moni.Classifier.Models.{
  Time, Uuid, ObservationSnapshot, Transition, Platform,
}
use local_network_kafka_moni.Classifier.Config.{ClassifierConfig}
use local_network_kafka_moni.Classifier.Event.{Incident, Validated, valid, invalid}
use local_network_kafka_moni.Classifier.Store.{
  StateEvent, publish_row, mark_published, add_event, state_event, inserted_row, written, admits,
  persist_transition, pending_publications,
}
use local_network_kafka_moni.Classifier.Service.{
  World, Outcome, pure, ok, failed, Exec, continue, ◌>>=◌, publish, publish_batch, publish_rounds,
  publish_pending, persist_event, persist_all, compute, evaluate_once,
}

-- Every event that is marked as published is among the acknowledged ones.
abbrev pub IsHonest : {R : Type 0} → World R → Type 0
IsHonest w = All (λ e. e.published ≡ true → Memᴰ e.event_id w.delivered) w.db.events

-- Running the action keeps the predicate, also when it fails.
pub record Keeps {R A : Type 0} (P : World R → Type 0) (m : Exec R A) : Type 0 where
  pub at : (w : World R) → P w → P (m w).1

module _ {R : Type 0} (P : World R → Type 0) where
  continue-keeps :
      {A B : Type 0} (r : Outcome A) (f : A → Exec R B) (w : World R)
      → ((a : A) → Keeps P (f a))
      → P w
      → P (continue r f w).1
  continue-keeps (ok a) f w h p = (h a).at w p
  continue-keeps (failed e) f w h p = p

  bind-Keeps :
      {A B : Type 0} (m : Exec R A) (f : A → Exec R B)
      → Keeps P m
      → ((a : A) → Keeps P (f a))
      → Keeps P (m >>= f)
  bind-Keeps m f h k = record { at = λ w p. continue-keeps (m w).0 f (m w).1 k (h.at w p) }

-- The step of the loop after an acknowledgement.
delivered-IsHonest :
    {R : Type 0} (id : Uuid) (ids : List Uuid) (events : List (StateEvent R))
    → All (λ e. e.published ≡ true → Memᴰ e.event_id ids) events
    → All (λ e. e.published ≡ true → Memᴰ e.event_id (id ∷ ids)) (map (publish_row id) events)
unfolding publish_row
delivered-IsHonest id ids [] h = tt
delivered-IsHonest id ids (e ∷ es) h = elim (Bool-cases (e.event_id == id)) [
  | inl q ↦ rw q (λ _. Memᴰ.head ((==_iff e.event_id id).0 q), delivered-IsHonest id ids es h.1)
  | inr q ↦ rw q (λ p. Memᴰ.tail (h.0 p), delivered-IsHonest id ids es h.1)
]

module _ {R : Type 0} (broker : ℕ → Bool) where
  batch-IsHonest :
      (batch : List (StateEvent R)) (w : World R)
      → IsHonest w
      → IsHonest (publish_batch broker batch w).1
  unfolding publish_batch mark_published
  batch-IsHonest [] w h = h
  batch-IsHonest (e ∷ rest) w h = elim (Bool-cases (broker w.calls)) [
    | inl q ↦
        rw (q, publish)
          (continue-keeps IsHonest _ _ _ (λ n. record { at = λ v p. p })
            (batch-IsHonest rest _ (delivered-IsHonest e.event_id w.delivered w.db.events h)))
    | inr q ↦ rw (q, publish) h
  ]

  rounds-Keeps :
      (fuel published : ℕ) → Keeps IsHonest (publish_rounds {R = R} broker fuel published)
  unfolding publish_rounds
  rounds-Keeps zero published = record { at = λ w h. h }
  rounds-Keeps (suc fuel) published = record {
    at = λ w h. by_batch (rounds-Keeps fuel) w h (pending_publications 100 w.db) refl;
  }
    where
      by_batch :
          ((p : ℕ) → Keeps IsHonest (publish_rounds {R = R} broker fuel p))
          → (w : World R) → IsHonest w
          → (batch : List (StateEvent R)) → pending_publications 100 w.db ≡ batch
          → IsHonest (publish_rounds broker (suc fuel) published w).1
      by_batch later w h [] q = rw (q, publish_rounds) h
      by_batch later w h (e ∷ rest) q =
          rw (q, publish_rounds)
            (continue-keeps IsHonest _ _ _ (λ n. later (published + n))
              (batch-IsHonest (e ∷ rest) w h))

add_event-honest :
    {R : Type 0} (ids : List Uuid) (e : StateEvent R) (events : List (StateEvent R))
    → e.published ≡ false
    → All (λ x. x.published ≡ true → Memᴰ x.event_id ids) events
    → All (λ x. x.published ≡ true → Memᴰ x.event_id ids) (add_event e events)
unfolding add_event
add_event-honest ids e events f h =
    elim (Bool-cases (any (λ old. old.event_id == e.event_id) events)) [
      | inl q ↦ rw q h
      | inr q ↦ rw q (All-append _ events (e ∷ []) h (λ p. cc, tt))
    ]

module _ {R : Type 0} ⦃num : Number R⦄ (config : ClassifierConfig R) (platform : Platform)
    (broker : ℕ → Bool) where
  persist_event-Keeps :
      (t : Transition R) (v : Validated (Incident R))
      → Keeps IsHonest (persist_event config platform broker t v)
  unfolding persist_event persist_transition written state_event
  persist_event-Keeps t (valid i) = record {
    at = λ w h. elim (Bool-cases (admits (inserted_row t i) (written t i w.db))) [
      | inl e ↦
          rw (persist_event, e) (add_event-honest w.delivered (state_event t i) w.db.events refl h)
      | inr e ↦ rw (persist_event, e) h
    ];
  }
  persist_event-Keeps t (invalid e) = record { at = λ w h. h }

  persist_all-Keeps :
      (at : Time) (ts : List (Transition R))
      → Keeps IsHonest (persist_all config platform broker at ts)
  unfolding persist_all
  persist_all-Keeps at [] = record { at = λ w h. h }
  persist_all-Keeps at (t ∷ ts) =
      bind-Keeps IsHonest _ _ (persist_event-Keeps t _) (λ _. persist_all-Keeps at ts)

  -- A cycle keeps the rule that an event is marked as published only if the broker acknowledged it,
  -- whatever the broker answers and wherever the cycle fails.
  pub evaluate_once-IsHonest :
      (fuel : ℕ) (snapshot : ObservationSnapshot R) (w : World R)
      → IsHonest w
      → IsHonest (evaluate_once config platform broker fuel snapshot w).1
  unfolding evaluate_once compute
  evaluate_once-IsHonest fuel snapshot w h = cycle.at w h
    where
      pending-Keeps : Keeps IsHonest (publish_pending {R = R} broker fuel)
      pending-Keeps = unfold publish_pending in rounds-Keeps broker fuel 0

      cycle : Keeps IsHonest (evaluate_once config platform broker fuel snapshot)
      cycle = bind-Keeps IsHonest _ _ pending-Keeps λ _.
          bind-Keeps IsHonest (compute config platform broker snapshot) _ (record { at = λ v p. p })
            λ ts. bind-Keeps IsHonest _ _ (persist_all-Keeps snapshot.observed_at ts) λ _.
              bind-Keeps IsHonest _ (λ _. pure (length ts)) pending-Keeps
                λ _. record { at = λ v p. p }
