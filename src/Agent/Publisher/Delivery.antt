-- ===== src/Agent/Publisher/Delivery.antt =====
-- A delivery round as a sequence of the outbox's operations, and what it does to the events.
use local_network_kafka_moni.Base.{
  ℕ, ◌+◌, String, ◌≡◌, refl, sym, ap, ◌∙◌, subst, Bool, true, false, ◌||◌, if◌then◌else◌, List, [],
  ◌∷◌, ◌++◌, Option, none, some, inl, inr, Option-cases, any, length, str_eq, arith,
}
use local_network_kafka_moni.Base.Number.{Number}
use local_network_kafka_moni.Agent.Outbox.{OutboxConfig, OutboxRecord, Row, Outbox, ready}
use local_network_kafka_moni.Agent.Outbox.Safety.{
  Op, delivers, fails, prunes, step, run, acknowledges, Holds, run-Holds,
}
use local_network_kafka_moni.Agent.Publisher.{
  Attempt, await, error_of, settle, publish_one, publish_batch, publish_ready,
}

unfoldable pub op_of : {R : Type 0} → Option String → Attempt R → OutboxRecord → Op R
op_of (some error) attempt sent = fails sent error attempt.now attempt.jitter
op_of none attempt sent = delivers sent.event_id attempt.now

unfoldable pub ops_of : {R : Type 0} → (ℕ → Attempt R) → ℕ → List OutboxRecord → List (Op R)
unfolding op_of
ops_of attempts i [] = []
ops_of attempts i (sent ∷ batch) =
    op_of (error_of (attempts i)) (attempts i) sent ∷ ops_of attempts (i + 1) batch

-- The reports of the delivery callback that arrived at the polls before the deadline, in their order.
abbrev pub reports : List (Option (Option String)) → List (Option String)
reports [] = []
reports (none ∷ polls) = reports polls
reports (some report ∷ polls) = report ∷ reports polls

abbrev no_error : Option String → Bool
no_error none = true
no_error (some error) = false

-- There is a report, and the first one is without an error.
abbrev first_clean : List (Option String) → Bool
first_clean [] = false
first_clean (report ∷ later) = no_error report

-- The broker acknowledged the record: the producer took it, and before the deadline the callback ran, the first time
-- without an error.
abbrev pub is_acknowledged : {R : Type 0} → Attempt R → Bool
is_acknowledged attempt = elim attempt.refused [
  | some error ↦ false
  | none ↦ first_clean (reports attempt.polls)
]

-- The events of the batch that the broker acknowledged.
unfoldable pub acked_ids : {R : Type 0} → (ℕ → Attempt R) → ℕ → List OutboxRecord → List String
acked_ids attempts i [] = []
acked_ids attempts i (sent ∷ batch) =
    let rest = acked_ids attempts (i + 1) batch in
    if is_acknowledged (attempts i) then sent.event_id ∷ rest else rest

first_clean-await :
    (polls : List (Option (Option String)))
    → first_clean (reports polls)
      ≡ no_error (elim (await polls) [
        | none ↦ some "Kafka delivery callback timed out"
        | some error ↦ error
      ])
unfolding await
first_clean-await [] = refl
first_clean-await (none ∷ polls) = first_clean-await polls
first_clean-await (some report ∷ polls) = refl

-- The publisher finds no error exactly when the broker acknowledged the record.
is_acknowledged-error_of :
    {R : Type 0} (attempt : Attempt R) → is_acknowledged attempt ≡ no_error (error_of attempt)
unfolding error_of
is_acknowledged-error_of attempt = elim (Option-cases attempt.refused) [
  | inr (error, e) ↦ rw e refl
  | inl e ↦ rw e (first_clean-await attempt.polls)
]

acknowledged_of :
    {R : Type 0} (attempt : Attempt R) → error_of attempt ≡ none → is_acknowledged attempt ≡ true
acknowledged_of attempt e = is_acknowledged-error_of attempt ∙ (rw e refl)

unacknowledged_of :
    {R : Type 0} (attempt : Attempt R) (error : String)
    → error_of attempt ≡ some error
    → is_acknowledged attempt ≡ false
unacknowledged_of attempt error e = is_acknowledged-error_of attempt ∙ (rw e refl)

module _ {R : Type 0} ⦃num : Number R⦄ (config : OutboxConfig R) where
  publish_one-step :
      (attempt : Attempt R) (sent : OutboxRecord) (o : Outbox R)
      → (publish_one config attempt sent o).1
        ≡ step config (op_of (error_of attempt) attempt sent) o
  unfolding publish_one settle op_of step
  publish_one-step attempt sent o = elim (Option-cases (error_of attempt)) [
    | inl e ↦ rw e refl
    | inr (error, e) ↦ rw e refl
  ]

  publish_batch-run :
      (attempts : ℕ → Attempt R) (i : ℕ) (batch : List OutboxRecord) (a f : ℕ) (o : Outbox R)
      → (publish_batch config attempts i batch a f o).outbox
        ≡ run config (ops_of attempts i batch) o
  unfolding publish_batch run ops_of
  publish_batch-run attempts i [] a f o = refl
  publish_batch-run attempts i (sent ∷ batch) a f o =
      publish_batch-run attempts (i + 1) batch _ _ _
      ∙ ap (run config (ops_of attempts (i + 1) batch)) (publish_one-step (attempts i) sent o)

  publish_batch-count :
      (attempts : ℕ → Attempt R) (i : ℕ) (batch : List OutboxRecord) (a f : ℕ) (o : Outbox R)
      → let round = publish_batch config attempts i batch a f o in
        (round.acknowledged ≡ a + length (acked_ids attempts i batch))
        × (round.acknowledged + round.failed ≡ a + f + length batch)
  unfolding publish_batch publish_one settle acked_ids
  publish_batch-count attempts i [] a f o = (omega arith, omega arith)
  publish_batch-count attempts i (sent ∷ batch) a f o =
      elim (Option-cases (error_of (attempts i))) [
        | inl e ↦
            rw (e, acknowledged_of (attempts i) e, publish_batch, acked_ids)
              (let rest =
                  publish_batch-count attempts (i + 1) batch (a + 1) f
                    (settle config none (attempts i) sent o).1 in
                (omega (arith, rest.0), omega (arith, rest.1)))
        | inr (error, e) ↦
            rw (e, unacknowledged_of (attempts i) error e, publish_batch, acked_ids)
              (let rest =
                  publish_batch-count attempts (i + 1) batch a (f + 1)
                    (settle config (some error) (attempts i) sent o).1 in
                (omega (arith, rest.0), omega (arith, rest.1)))
      ]

acknowledges-acked :
    {R : Type 0} (attempts : ℕ → Attempt R) (id : String) (i : ℕ) (batch : List OutboxRecord)
    → any (acknowledges id) (ops_of attempts i batch) ≡ any (str_eq id) (acked_ids attempts i batch)
unfolding ops_of op_of acked_ids acknowledges
acknowledges-acked attempts id i [] = refl
acknowledges-acked attempts id i (sent ∷ batch) = elim (Option-cases (error_of (attempts i))) [
  | inl e ↦
      rw (e, acknowledged_of (attempts i) e, acked_ids)
        (ap (λ b. str_eq id sent.event_id || b) (acknowledges-acked attempts id (i + 1) batch))
  | inr (error, e) ↦
      rw (e, unacknowledged_of (attempts i) error e, acked_ids)
        (acknowledges-acked attempts id (i + 1) batch)
]

-- A round counts each record of the batch once: as acknowledged if the producer took it and the callback ran before the
-- deadline, the first time without an error, and as failed otherwise.
pub publish_ready-count :
    {R : Type 0} ⦃num : Number R⦄ (config : OutboxConfig R) (attempts : ℕ → Attempt R)
    (now later last : R) (o : Outbox R)
    → let round = (publish_ready config attempts now later last o).1 in
      (round.acknowledged ≡ length (acked_ids attempts 0 (ready config now o)))
      × (round.acknowledged + round.failed ≡ length (ready config now o))
unfolding publish_ready
publish_ready-count config attempts now later last o =
    let counts = publish_batch-count config attempts 0 (ready config now o) 0 0 o in
    (omega (arith, counts.0), omega (arith, counts.1))

run-append :
    {R : Type 0} ⦃num : Number R⦄ (config : OutboxConfig R) (xs ys : List (Op R)) (o : Outbox R)
    → run config (xs ++ ys) o ≡ run config ys (run config xs o)
unfolding run
run-append config [] ys o = refl
run-append config (x ∷ xs) ys o = run-append config xs ys (step config x o)

any-append_last :
    {R : Type 0} (id : String) (xs : List (Op R)) (now : R)
    → any (acknowledges id) (xs ++ prunes now ∷ []) ≡ any (acknowledges id) xs
unfolding acknowledges
any-append_last id [] now = refl
any-append_last id (x ∷ xs) now = ap (λ b. acknowledges id x || b) (any-append_last id xs now)

-- A delivery round keeps every stored event that waits for delivery and that the broker does not acknowledge in this round
-- (the producer refuses it, no callback runs before the deadline, or the first one brings an error), and the event still
-- waits.
pub publish_ready-Holds :
    {R : Type 0} ⦃num : Number R⦄ (config : OutboxConfig R) (attempts : ℕ → Attempt R)
    (now later last : R) (o : Outbox R) (kept : Row R)
    → any (str_eq kept.event_id) (acked_ids attempts 0 (ready config now o)) ≡ false
    → Holds kept o.rows
    → Holds kept (publish_ready config attempts now later last o).1.outbox.rows
unfolding publish_ready run step
publish_ready-Holds config attempts now later last o kept apart h =
    let ops = ops_of attempts 0 (ready config now o) in
    let whole =
      run-Holds kept config (ops ++ prunes later ∷ []) o
        (any-append_last kept.event_id ops later
          ∙ acknowledges-acked attempts kept.event_id 0 (ready config now o)
          ∙ apart)
        h in
    let same =
      run-append config ops (prunes later ∷ []) o
      ∙ ap (λ p. step config (prunes later) p)
          (sym (publish_batch-run config attempts 0 (ready config now o) 0 0 o)) in
    subst (λ p. Holds kept p.rows) same whole
