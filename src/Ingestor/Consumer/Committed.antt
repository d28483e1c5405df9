-- ===== src/Ingestor/Consumer/Committed.antt =====
-- What is there of the records that the consumer commits.
use local_network_kafka_moni.Base.{
  ℕ, ◌+◌, String, ◌≡◌, refl, ◌⊎◌, inl, inr, Bool, List, [], ◌∷◌, All, All-mono, leb, Bool-cases,
}
use local_network_kafka_moni.Ingestor.Model.{SourceRecord, Event}
use local_network_kafka_moni.Ingestor.Processor.{
  Setup, World, Result, processed, raised, Checked, event_ok, event_error, check, process,
}
use local_network_kafka_moni.Ingestor.Processor.Kept.{
  Settled, Advances, Settled-Advances, accept-Settled, send_dead_letter-Settled,
}
use local_network_kafka_moni.Ingestor.Consumer.{
  Consumer, Step, continues, stopped, retry, finish, handle, proceed, run, attempts_of,
}

Checked-cases :
    (c : Checked) → ((e : Event) × (c ≡ event_ok e)) ⊎ ((m : String) × (c ≡ event_error m))
Checked-cases (event_ok e) = inl (e, refl)
Checked-cases (event_error m) = inr (m, refl)

-- The state in which a run ends.
abbrev pub state_of : Step → Consumer
state_of (continues st) = st
state_of (stopped st) = st

module _ {J : Type 0} (setup : Setup J) where
  -- Each of the records is settled.
  abbrev pub AllSettled : World → List SourceRecord → Type 0
  AllSettled w sources = All (λ s. Settled setup s (check setup s) w) sources

  process-Settled :
      (source : SourceRecord) (w : World)
      → Advances w (process setup source w).1
        × (((process setup source w).0 ≡ raised)
            ⊎ Settled setup source (check setup source) (process setup source w).1)
  unfolding process
  process-Settled source w = elim (Checked-cases (check setup source)) [
    | inl (event, e) ↦ rw (e, process) (accept-Settled setup event source w)
    | inr (message, e) ↦ rw (e, process) (send_dead_letter-Settled setup source message w)
  ]

  module _ (commit_returns : ℕ → Bool) (max : ℕ) where
    retry-AllSettled :
        (source : SourceRecord) (w : World) (st : Consumer)
        → AllSettled w st.committed
        → let after = state_of (retry setup commit_returns max source w st) in
          AllSettled after.world after.committed
    unfolding retry
    retry-AllSettled source w st h =
        elim (Bool-cases (leb max (attempts_of source st.attempts + 1))) [
          | inl e ↦ rw e h
          | inr e ↦ rw e h
        ]

    finish-AllSettled :
        (source : SourceRecord) (r : Result) (w : World) (st : Consumer)
        → (r ≡ raised) ⊎ Settled setup source (check setup source) w
        → AllSettled w st.committed
        → let after = state_of (finish setup commit_returns max source r w st) in
          AllSettled after.world after.committed
    unfolding finish
    finish-AllSettled source (processed outcome id) w st (inl e) h = cc
    finish-AllSettled source (processed outcome id) w st (inr k) h =
        elim (Bool-cases (commit_returns st.commits_tried)) [
          | inl e ↦ rw e (k, h)
          | inr e ↦
              rw e
                (retry-AllSettled source w (record st { commits_tried = st.commits_tried + 1 }) h)
        ]
    finish-AllSettled source raised w st k h = retry-AllSettled source w st h

    handle-AllSettled :
        (source : SourceRecord) (st : Consumer)
        → AllSettled st.world st.committed
        → let after = state_of (handle setup commit_returns max source st) in
          AllSettled after.world after.committed
    unfolding handle
    handle-AllSettled source st h =
        let done = process-Settled source st.world in
        finish-AllSettled source _ _ st done.1 (
          All-mono _ _ (λ s k. Settled-Advances setup s (check setup s) _ _ done.0 k) st.committed
            h)

    proceed-AllSettled :
        (step : Step) (next : Consumer → Step)
        → AllSettled (state_of step).world (state_of step).committed
        → ((st : Consumer)
            → AllSettled st.world st.committed
            → AllSettled (state_of (next st)).world (state_of (next st)).committed)
        → AllSettled (state_of (proceed step next)).world (state_of (proceed step next)).committed
    unfolding proceed
    proceed-AllSettled (continues st) next h k = k st h
    proceed-AllSettled (stopped st) next h k = h

  -- Whatever messages the consumer polls, in whatever order and however often, whatever the broker answers and whichever
  -- commits raise, each record that it has committed is settled at the end of the run. For a record that passes the checks
  -- there is a raw event with its identifier or its coordinate, and if it is a measurement, its message on the topic of the
  -- valid measurements is among those that the broker acknowledged; for any other there is a failure at its coordinate
  -- marked as published, and its dead letter is among the acknowledged messages.
  pub run-AllSettled :
      (commit_returns : ℕ → Bool) (max : ℕ) (messages : List SourceRecord) (st : Consumer)
      → AllSettled st.world st.committed
      → let after = state_of (run setup commit_returns max messages st) in
        AllSettled after.world after.committed
  unfolding run
  run-AllSettled commit_returns max [] st h = h
  run-AllSettled commit_returns max (source ∷ messages) st h =
      proceed-AllSettled commit_returns max (handle setup commit_returns max source st)
        (run setup commit_returns max messages) (handle-AllSettled commit_returns max source st h)
        (λ next k. run-AllSettled commit_returns max messages next k)
