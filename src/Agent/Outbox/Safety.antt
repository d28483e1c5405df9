-- ===== src/Agent/Outbox/Safety.antt =====
-- The outbox as a transition system: its operations in any order, and what becomes of a stored event.
use local_network_kafka_moni.Base.{
  ℕ, ◌+◌, String, ◌≡◌, refl, sym, ap, ◌∙◌, inl, inr, Bool, true, false, not, ◌&&◌, Bool-cases, none,
  List, [], ◌∷◌, ◌++◌, Memᴰ, filter, any, length, str_eq, ltb, if◌then◌else◌, arith,
}
use local_network_kafka_moni.Base.Number.{Number}
use local_network_kafka_moni.Agent.Outbox.{
  OutboxConfig, Event, Row, OutboxRecord, Outbox, Enqueued, stored, outbox_full, is_pending,
  next_sequence, has_id, enqueue, update_pending, set_delivered, mark_delivered, set_failed,
  mark_failed, is_stale, prune_acknowledged,
}

-- A call of a method of the outbox that writes, with its arguments.
pub data Op (R : Type 0) : Type 0 where
  enqueues : (storage_bytes : ℕ) → Event → R → Op R
  delivers : String → R → Op R
  fails : OutboxRecord → String → R → R → Op R
  prunes : R → Op R
  allocates : Op R

unfoldable pub after_enqueue : {R : Type 0} → Outbox R → Enqueued R → Outbox R
after_enqueue o (stored fresh next) = next
after_enqueue o outbox_full = o

unfoldable pub step : {R : Type 0} → ⦃num : Number R⦄ → OutboxConfig R → Op R → Outbox R → Outbox R
unfolding after_enqueue
step config (enqueues storage_bytes event now) o =
    after_enqueue o (enqueue config storage_bytes event now o)
step config (delivers id now) o = mark_delivered id now o
step config (fails failed error now jitter) o = (mark_failed config failed error now jitter o).1
step config (prunes now) o = (prune_acknowledged config now o).1
step config allocates o = (next_sequence o).1

unfoldable pub run :
    {R : Type 0} → ⦃num : Number R⦄ → OutboxConfig R → List (Op R) → Outbox R → Outbox R
unfolding step
run config [] o = o
run config (op ∷ ops) o = run config ops (step config op o)

-- No operation of the list acknowledges the event.
unfoldable pub acknowledges : {R : Type 0} → String → Op R → Bool
acknowledges id (delivers other now) = str_eq id other
acknowledges id op = false

-- A row that still holds an event as it was stored, and waits for delivery.
pub record IsKept {R : Type 0} (kept row : Row R) : Type 0 where
  pub event_id : row.event_id ≡ kept.event_id
  pub topic : row.topic ≡ kept.topic
  pub message_key : row.message_key ≡ kept.message_key
  pub payload : row.payload ≡ kept.payload
  pub created_at : row.created_at ≡ kept.created_at
  pub delivered_at : row.delivered_at ≡ none

pub record Holds {R : Type 0} (kept : Row R) (rows : List (Row R)) : Type 0 where
  pub row : Row R
  pub member : Memᴰ row rows
  pub same : IsKept kept row

module _ {R : Type 0} (kept : Row R) where
  Holds-tail : (x : Row R) (xs : List (Row R)) → Holds kept xs → Holds kept (x ∷ xs)
  Holds-tail x xs h = record { row = h.row; member = Memᴰ.tail h.member; same = h.same }

  Holds-append :
      (xs ys : List (Row R)) (row : Row R) → Memᴰ row xs → IsKept kept row → Holds kept (xs ++ ys)
  Holds-append [] ys row m same = elim m [ ]
  Holds-append (x ∷ xs) ys row (Memᴰ.head e) same = record {
    row = row;
    member = Memᴰ.head e;
    same = same;
  }
  Holds-append (x ∷ xs) ys row (Memᴰ.tail m) same =
      Holds-tail x (xs ++ ys) (Holds-append xs ys row m same)

  -- The update leaves a kept row kept.
  Holds-update_pending :
      (id : String) (change : Row R → Row R)
      → ((row : Row R)
          → IsKept kept row
          → IsKept kept (if str_eq row.event_id id && is_pending row then change row else row))
      → (rows : List (Row R)) (row : Row R) → Memᴰ row rows
      → IsKept kept row
      → Holds kept (update_pending id change rows)
  unfolding update_pending
  Holds-update_pending id change keeps [] row m same = elim m [ ]
  Holds-update_pending id change keeps (x ∷ xs) row (Memᴰ.head e) same = record {
    row = if str_eq row.event_id id && is_pending row then change row else row;
    member = Memᴰ.head (ap (λ r. if str_eq r.event_id id && is_pending r then change r else r) e);
    same = keeps row same;
  }
  Holds-update_pending id change keeps (x ∷ xs) row (Memᴰ.tail m) same =
      Holds-tail _ _ (Holds-update_pending id change keeps xs row m same)

  Holds-filter :
      (p : Row R → Bool)
      → ((row : Row R) → IsKept kept row → p row ≡ true)
      → (rows : List (Row R)) (row : Row R) → Memᴰ row rows
      → IsKept kept row
      → Holds kept (filter p rows)
  Holds-filter p keeps [] row m same = elim m [ ]
  Holds-filter p keeps (x ∷ xs) row (Memᴰ.head e) same =
      rw (sym e, keeps row same) (record { row = row; member = Memᴰ.head refl; same = same })
  Holds-filter p keeps (x ∷ xs) row (Memᴰ.tail m) same =
      let rest = Holds-filter p keeps xs row m same in
      elim (Bool-cases (p x)) [ inl e ↦ rw e (Holds-tail x _ rest) | inr e ↦ rw e rest ]

  keeps_failed :
      (id : String) (retry_count : ℕ) (error : String) (next : R) (row : Row R)
      → IsKept kept row
      → IsKept kept (
          if str_eq row.event_id id && is_pending row
          then set_failed retry_count error next row
          else row)
  unfolding set_failed
  keeps_failed id retry_count error next row k =
      elim (Bool-cases (str_eq row.event_id id && is_pending row)) [
        | inl e ↦ rw e (record {
          event_id = k.event_id;
          topic = k.topic;
          message_key = k.message_key;
          payload = k.payload;
          created_at = k.created_at;
          delivered_at = k.delivered_at;
        })
        | inr e ↦ rw e k
      ]

  keeps_delivered :
      (id : String) (now : R)
      → str_eq kept.event_id id ≡ false
      → (row : Row R) → IsKept kept row
      → IsKept kept
          (if str_eq row.event_id id && is_pending row then set_delivered now row else row)
  keeps_delivered id now apart row k =
      rw (ap (λ i. str_eq i id && is_pending row) k.event_id ∙ ap (λ b. b && is_pending row) apart)
        k

module _ {R : Type 0} ⦃num : Number R⦄ (kept : Row R) where
  keeps_stale : (cutoff : R) (row : Row R) → IsKept kept row → not (is_stale cutoff row) ≡ true
  unfolding is_stale
  keeps_stale cutoff row k = rw k.delivered_at refl

  step-Holds :
      (config : OutboxConfig R) (op : Op R) (o : Outbox R)
      → acknowledges kept.event_id op ≡ false
      → Holds kept o.rows
      → Holds kept (step config op o).rows
  unfolding step acknowledges after_enqueue enqueue mark_delivered mark_failed prune_acknowledged
      next_sequence
  step-Holds config (enqueues storage_bytes event now) o apart h =
      elim (Bool-cases (ltb config.maximum_bytes (storage_bytes + length event.payload))) [
        | inl e ↦ rw e h
        | inr e ↦ elim (Bool-cases (has_id event.event_id o.rows)) [
          | inl f ↦ rw (e, f) h
          | inr f ↦ rw (e, f) (Holds-append kept o.rows _ h.row h.member h.same)
        ]
      ]
  step-Holds config (delivers id now) o apart h =
      Holds-update_pending kept id _ (keeps_delivered kept id now apart) o.rows h.row h.member
        h.same
  step-Holds config (fails failed error now jitter) o apart h =
      Holds-update_pending kept failed.event_id _ (keeps_failed kept failed.event_id _ error _)
        o.rows h.row h.member h.same
  step-Holds config (prunes now) o apart h =
      Holds-filter kept _ (keeps_stale _) o.rows h.row h.member h.same
  step-Holds config allocates o apart h = h

  -- Through any sequence of operations none of which acknowledges the event, a row that waits for
  -- delivery keeps its identifier, topic, key, payload and time of creation, and still waits.
  pub run-Holds :
      (config : OutboxConfig R) (ops : List (Op R)) (o : Outbox R)
      → any (acknowledges kept.event_id) ops ≡ false
      → Holds kept o.rows
      → Holds kept (run config ops o).rows
  unfolding run
  run-Holds config [] o apart h = h
  run-Holds config (op ∷ ops) o apart h =
      run-Holds config ops (step config op o) (ground arith)
        (step-Holds config op o (ground arith) h)
