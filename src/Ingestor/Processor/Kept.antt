-- ===== src/Ingestor/Processor/Kept.antt =====
-- What the ingestor has stored of a source record, and that no later record takes it away.
use local_network_kafka_moni.Base.{
  String, str_eq, Memᴰ, ◌||◌, false, some, ◌≡◌, refl, ◌⊎◌, inl, inr, Bool, true, ◌&&◌, List, [],
  ◌∷◌, ◌++◌, map, any, eq_iff, Bool-cases, arith,
}
use local_network_kafka_moni.Ingestor.Model.{
  SourceRecord, Event, RawEvent, Database, same_coordinate, conflicts, persist_event, fail_again,
  record_failure, set_published, mark_dead_letter_published,
}
use local_network_kafka_moni.Ingestor.Processor.{
  Setup, World, Checked, raised, event_ok, event_error, Message, publish, send_dead_letter, accept,
  is_measurement,
}

same_coordinate_refl : (s : SourceRecord) → same_coordinate s s ≡ true
unfolding same_coordinate
same_coordinate_refl s = rw ((eq_iff s.topic s.topic).1 refl) (ground arith)

any-append_left :
    {A : Type 0} (p : A → Bool) (xs ys : List A) → any p xs ≡ true → any p (xs ++ ys) ≡ true
any-append_left p [] ys h = cc
any-append_left p (x ∷ xs) ys h = ground (arith, any-append_left p xs ys)

any-append_last :
    {A : Type 0} (p : A → Bool) (xs : List A) (y : A) → p y ≡ true → any p (xs ++ y ∷ []) ≡ true
any-append_last p [] y h = rw h refl
any-append_last p (x ∷ xs) y h = rw (any-append_last p xs y h) (ground arith)

any-map :
    {A B : Type 0} (p : A → Bool) (q : B → Bool) (f : A → B)
    → ((a : A) → p a ≡ true → q (f a) ≡ true)
    → (xs : List A) → any p xs ≡ true
    → any q (map f xs) ≡ true
any-map p q f h [] e = cc
any-map p q f h (x ∷ xs) e = elim (Bool-cases (p x)) [
  | inl k ↦ rw (h x k) refl
  | inr k ↦ rw (any-map p q f h xs (ground arith)) (ground arith)
]

-- What a step of the repository keeps of the two tables.
pub record Grows (before after : Database) : Type 0 where
  pub raw : (p : RawEvent → Bool) → any p before.raw_events ≡ true → any p after.raw_events ≡ true
  pub failed :
      (s : SourceRecord)
      → any (λ row. same_coordinate row.source s && row.published) before.failures ≡ true
      → any (λ row. same_coordinate row.source s && row.published) after.failures ≡ true

pub persist_event-Grows :
    (event : Event) (source : SourceRecord) (db : Database)
    → Grows db (persist_event event source db).1
unfolding persist_event
persist_event-Grows event source db =
    elim (Bool-cases (any (conflicts event source) db.raw_events)) [
      | inl e ↦ rw e (record { raw = λ p h. h; failed = λ s h. h })
      | inr e ↦
          rw e (record { raw = λ p h. any-append_left p db.raw_events _ h; failed = λ s h. h })
    ]

pub record_failure-Grows :
    (source : SourceRecord) (message : String) (db : Database)
    → Grows db (record_failure source message db)
unfolding record_failure fail_again
record_failure-Grows source message db =
    elim (Bool-cases (any (λ row. same_coordinate row.source source) db.failures)) [
      | inl e ↦ rw e (record {
        raw = λ p h. h;
        failed = λ s h.
            any-map _ _ (fail_again source message)
              (λ row k. elim (Bool-cases (same_coordinate row.source source)) [
                | inl m ↦ rw m k
                | inr m ↦ rw m k
              ])
              db.failures h;
      })
      | inr e ↦ rw e (record { raw = λ p h. h; failed = λ s h. any-append_left _ db.failures _ h })
    ]

pub mark-Grows :
    (source : SourceRecord) (db : Database) → Grows db (mark_dead_letter_published source db)
unfolding mark_dead_letter_published set_published
mark-Grows source db = record {
  raw = λ p h. h;
  failed = λ s h.
      any-map _ _ (set_published source)
        (λ row k. elim (Bool-cases (same_coordinate row.source source)) [
          | inl m ↦ rw m (ground (arith, k))
          | inr m ↦ rw m k
        ])
        db.failures h;
}

pub Grows-trans : (a b c : Database) → Grows a b → Grows b c → Grows a c
Grows-trans a b c g h = record {
  raw = λ p e. h.raw p (g.raw p e);
  failed = λ s e. h.failed s (g.failed s e);
}

conflicts_refl :
    (event : Event) (source : SourceRecord)
    → conflicts event source (record { event = event; source = source }) ≡ true
unfolding conflicts
conflicts_refl event source = rw ((eq_iff event.event_id event.event_id).1 refl) refl

pub persist_event-stored :
    (event : Event) (source : SourceRecord) (db : Database)
    → any (conflicts event source) (persist_event event source db).1.raw_events ≡ true
unfolding persist_event
persist_event-stored event source db =
    elim (Bool-cases (any (conflicts event source) db.raw_events)) [
      | inl e ↦ rw e e
      | inr e ↦
          rw e
            (any-append_last (conflicts event source) db.raw_events _ (conflicts_refl event source))
    ]

pub record_failure-stored :
    (source : SourceRecord) (message : String) (db : Database)
    → any (λ row. same_coordinate row.source source) (record_failure source message db).failures
      ≡ true
unfolding record_failure fail_again
record_failure-stored source message db =
    elim (Bool-cases (any (λ row. same_coordinate row.source source) db.failures)) [
      | inl e ↦ rw e (
          any-map _ _ (fail_again source message)
            (λ row k. elim (Bool-cases (same_coordinate row.source source)) [
              | inl m ↦ rw m k
              | inr m ↦ rw m k
            ])
            db.failures e)
      | inr e ↦ rw e (any-append_last _ db.failures _ (same_coordinate_refl source))
    ]

pub mark-stored :
    (source : SourceRecord) (db : Database)
    → any (λ row. same_coordinate row.source source) db.failures ≡ true
    → any
        (λ row. same_coordinate row.source source && row.published)
        (mark_dead_letter_published source db).failures
      ≡ true
unfolding mark_dead_letter_published set_published
mark-stored source db h =
    any-map _ _ (set_published source) (λ row k. rw k (rw k refl)) db.failures h

-- The message that the processor sends for a valid measurement, and the dead letter of an invalid record.
abbrev pub valid_message : Event → Message
valid_message event = record {
  topic = "network.measurements.valid.v1";
  key = some event.agent_id;
  value = event.payload;
}

abbrev pub dead_letter_message : {J : Type 0} → Setup J → SourceRecord → String → Message
dead_letter_message setup source message = record {
  topic = "network.dead-letter.v1";
  key = source.key;
  value = setup.dead_letter source message;
}

-- What is there of a record, by the result of its checks. A valid one: a raw event with its identifier or its coordinate,
-- and, for a measurement, its message among those that the broker acknowledged. An invalid one: a failure at its
-- coordinate that is marked as published, and its dead letter among the acknowledged messages.
abbrev pub Settled : {J : Type 0} → Setup J → SourceRecord → Checked → World → Type 0
Settled setup source (event_ok event) w =
    (any (λ row. str_eq row.event.event_id event.event_id || same_coordinate row.source source)
        w.db.raw_events
      ≡ true)
    × ((is_measurement event.content ≡ false) ⊎ Memᴰ (valid_message event) w.delivered)
Settled setup source (event_error message) w =
    (any (λ row. same_coordinate row.source source && row.published) w.db.failures ≡ true)
    × Memᴰ (dead_letter_message setup source message) w.delivered

-- The tables grow, and what was acknowledged stays so.
pub record Advances (before after : World) : Type 0 where
  pub db : Grows before.db after.db
  pub sent : (m : Message) → Memᴰ m before.delivered → Memᴰ m after.delivered

module _ {J : Type 0} (setup : Setup J) where
  pub Settled-Advances :
      (source : SourceRecord) (c : Checked) (a b : World)
      → Advances a b
      → Settled setup source c a
      → Settled setup source c b
  Settled-Advances source (event_ok event) a b g (stored, inl other) =
      (g.db.raw _ stored, inl other)
  Settled-Advances source (event_ok event) a b g (stored, inr sent) =
      (g.db.raw _ stored, inr (g.sent _ sent))
  Settled-Advances source (event_error message) a b g (failed, sent) =
      (g.db.failed source failed, g.sent _ sent)

  pub accept-Settled :
      (event : Event) (source : SourceRecord) (w : World)
      → Advances w (accept setup event source w).1
        × (((accept setup event source w).0 ≡ raised)
            ⊎ Settled setup source (event_ok event) (accept setup event source w).1)
  unfolding accept publish conflicts
  accept-Settled event source w =
      let grown = persist_event-Grows event source w.db in
      let stored = persist_event-stored event source w.db in
      elim (Bool-cases (is_measurement event.content)) [
        | inl e ↦ elim (Bool-cases (setup.broker w.calls)) [
          | inl k ↦
              rw (e, k)
                (
                  record { db = grown; sent = λ m h. Memᴰ.tail h },
                  inr (stored, inr (Memᴰ.head refl)),
                )
          | inr k ↦ rw (e, k) (record { db = grown; sent = λ m h. h }, inl refl)
        ]
        | inr e ↦ rw e (record { db = grown; sent = λ m h. h }, inr (stored, inl refl))
      ]

  pub send_dead_letter-Settled :
      (source : SourceRecord) (message : String) (w : World)
      → Advances w (send_dead_letter setup source message w).1
        × (((send_dead_letter setup source message w).0 ≡ raised)
            ⊎ Settled setup source
                (event_error message)
                (send_dead_letter setup source message w).1)
  unfolding send_dead_letter publish
  send_dead_letter-Settled source message w =
      let recorded = record_failure-Grows source message w.db in
      elim (Bool-cases (setup.broker w.calls)) [
        | inl k ↦ rw k (
          record {
            db = Grows-trans _ _ _ recorded (mark-Grows source _);
            sent = λ m h. Memᴰ.tail h;
          },
          inr (
            mark-stored source (record_failure source message w.db)
                (record_failure-stored source message w.db),
            Memᴰ.head refl,
          ),
        )
        | inr k ↦ rw k (record { db = recorded; sent = λ m h. h }, inl refl)
      ]
