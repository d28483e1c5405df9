-- ===== src/Classifier/Service/Drain.antt =====
-- `publish_pending` ends: while the broker acknowledges, each round publishes at least one event.
use local_network_kafka_moni.Base.{
  ℕ, zero, suc, ◌+◌, ◌≤◌, ◌<◌, ◌≡◌, refl, sym, ap, ◌∙◌, Bool, true, false, not, List, [], ◌∷◌, map,
  length, filter, Memᴰ, All, All-filter_mem, take-All, nil_of_take, nil_of_length, arith,
}
use local_network_kafka_moni.Base.Sort.{sort, sort-All, length-sort}
use local_network_kafka_moni.Classifier.Models.{Uuid}
use local_network_kafka_moni.Classifier.Store.{
  Database, StateEvent, event_le, unpublished, pending_publications, publish_row, mark_published,
}
use local_network_kafka_moni.Classifier.Service.{
  World, ok, publish_batch, publish_rounds, publish_pending,
}

module _ {R : Type 0} where
  abbrev pub waiting : List (StateEvent R) → ℕ
  waiting events = length (filter (λ e. not e.published) events)

  waiting-mark_le :
      (id : Uuid) (events : List (StateEvent R))
      → waiting (map (publish_row id) events) ≤ waiting events
  unfolding publish_row
  waiting-mark_le id [] = omega arith
  waiting-mark_le id (e ∷ es) = ground (arith, waiting-mark_le id es)

  waiting-mark_lt :
      (e : StateEvent R) (events : List (StateEvent R))
      → Memᴰ e events
      → e.published ≡ false
      → waiting (map (publish_row e.event_id) events) < waiting events
  unfolding publish_row
  waiting-mark_lt e [] m h = elim m [ ]
  waiting-mark_lt e (x ∷ xs) (Memᴰ.head q) h =
      ground (arith, waiting-mark_le e.event_id xs, ap (λ y. y.published) q, ap (λ y. y.event_id) q)
  waiting-mark_lt e (x ∷ xs) (Memᴰ.tail m) h = ground (arith, waiting-mark_lt e xs m h)

not-true : (b : Bool) → not b ≡ true → b ≡ false
not-true true h = cc
not-true false h = refl

module _ {R : Type 0} (broker : ℕ → Bool) (acknowledges : (n : ℕ) → broker n ≡ true) where
  batch-le :
      (batch : List (StateEvent R)) (w : World R)
      → (n : ℕ) × (w' : World R) × (publish_batch broker batch w ≡ (ok n, w'))
        × (w'.db.incidents ≡ w.db.incidents)
        × (waiting w'.db.events ≤ waiting w.db.events)
  unfolding publish_batch mark_published
  batch-le [] w = (0, w, refl, refl, omega arith)
  batch-le (e ∷ rest) w =
      let w1 : World R = record w {
        db = mark_published e.event_id w.db;
        delivered = e.event_id ∷ w.delivered;
        calls = w.calls + 1;
      } in
      let (n, w', run, kept, le) = batch-le rest w1 in
      (
        n + 1,
        w',
        ground (arith, acknowledges w.calls),
        kept,
        omega (arith, waiting-mark_le e.event_id w.db.events),
      )

  -- A round over a nonempty batch of stored events leaves fewer of them waiting.
  batch-lt :
      (e : StateEvent R) (rest : List (StateEvent R)) (w : World R)
      → Memᴰ e w.db.events
      → e.published ≡ false
      → (n : ℕ) × (w' : World R) × (publish_batch broker (e ∷ rest) w ≡ (ok n, w'))
        × (w'.db.incidents ≡ w.db.incidents)
        × (waiting w'.db.events < waiting w.db.events)
  unfolding publish_batch mark_published
  batch-lt e rest w m h =
      let w1 : World R = record w {
        db = mark_published e.event_id w.db;
        delivered = e.event_id ∷ w.delivered;
        calls = w.calls + 1;
      } in
      let (n, w', run, kept, le) = batch-le rest w1 in
      (
        n + 1,
        w',
        ground (arith, acknowledges w.calls),
        kept,
        omega (arith, waiting-mark_lt e w.db.events m h),
      )

  -- What the head of a batch is.
  pending-stored :
      (limit : ℕ) (db : Database R)
      → All (λ e. Memᴰ e db.events × (not e.published ≡ true)) (pending_publications limit db)
  unfolding pending_publications
  pending-stored limit db = take-All _ limit _ (sort-All event_le _ _ (All-filter_mem _ db.events))

  nil_of_pending : (db : Database R) → pending_publications 100 db ≡ [] → unpublished db ≡ []
  unfolding pending_publications
  nil_of_pending db h = nil_of_length (unpublished db) (
      sym (length-sort event_le (unpublished db))
      ∙ ap length (nil_of_take 99 (sort event_le (unpublished db)) h))

  rounds-drain :
      (fuel published : ℕ) (w : World R)
      → waiting w.db.events < fuel
      → (n : ℕ) × (w' : World R) × (publish_rounds broker fuel published w ≡ (ok n, w'))
        × (w'.db.incidents ≡ w.db.incidents)
        × (unpublished w'.db ≡ [])
  unfolding publish_rounds
  rounds-drain zero published w h = elim h [ ]
  rounds-drain (suc fuel) published w h =
      by_batch (rounds-drain fuel) (pending_publications 100 w.db) refl (pending-stored 100 w.db)
    where
      by_batch :
          ((p : ℕ) (v : World R)
            → waiting v.db.events < fuel
            → (n : ℕ) × (w' : World R) × (publish_rounds broker fuel p v ≡ (ok n, w'))
              × (w'.db.incidents ≡ v.db.incidents)
              × (unpublished w'.db ≡ []))
          → (batch : List (StateEvent R)) → pending_publications 100 w.db ≡ batch
          → All (λ e. Memᴰ e w.db.events × (not e.published ≡ true)) (pending_publications 100 w.db)
          → (n : ℕ) × (w' : World R) × (publish_rounds broker (suc fuel) published w ≡ (ok n, w'))
            × (w'.db.incidents ≡ w.db.incidents)
            × (unpublished w'.db ≡ [])
      by_batch later [] q stored =
          (published, w, rw (q, publish_rounds), refl, nil_of_pending w.db q)
      by_batch later (e ∷ rest) q stored =
          let s : All (λ e'. Memᴰ e' w.db.events × (not e'.published ≡ true)) (e ∷ rest) =
            rw q at stored in
          let (n, w1, run, kept, lt) = batch-lt e rest w s.0.0 (not-true _ s.0.1) in
          let (m, w', more, kept', done) = later (published + n) w1 (omega arith) in
          (m, w', rw (q, publish_rounds) (rw run more), kept' ∙ kept, done)

  -- While the broker acknowledges every record, `publish_pending` ends with no event unpublished, and
  -- the incidents as they were: one round more than there are unpublished events is enough.
  pub publish_pending-drains :
      (fuel : ℕ) (w : World R)
      → waiting w.db.events < fuel
      → (n : ℕ) × (w' : World R) × (publish_pending broker fuel w ≡ (ok n, w'))
        × (w'.db.incidents ≡ w.db.incidents)
        × (unpublished w'.db ≡ [])
  unfolding publish_pending
  publish_pending-drains fuel w h = rounds-drain fuel 0 w h
