-- ===== src/Agent/Outbox/Backoff.antt =====
-- The bounds of the retry delay.
use local_network_kafka_moni.Base.{
  ℕ, ◌+◌, ◌^◌, String, ◌≡◌, refl, subst, ◌⊎◌, inl, inr, Bool, true, false, ◌&&◌, Bool-cases, none,
  some, Option-cases, List, [], ◌∷◌, map, All, str_eq, if◌then◌else◌,
}
use local_network_kafka_moni.Base.Number.{Number, min_of, max_of}
use Prim.Native.Nat.{min}
use local_network_kafka_moni.Agent.Outbox.{
  OutboxConfig, OutboxRecord, Row, Outbox, is_pending, update_pending, set_failed, backoff,
  mark_failed,
}

module _ {R : Type 0} ⦃num : Number R⦄ where
  pub leb_of_not : (a b : R) → num.leb a b ≡ false → num.leb b a ≡ true
  leb_of_not a b h = elim (num.leb_total a b) [ inl e ↦ cc | inr e ↦ e ]

  min_of-left : (a b : R) → num.leb (min_of a b) a ≡ true
  min_of-left a b = elim (Bool-cases (num.leb a b)) [
    | inl e ↦ rw e (num.leb_refl a)
    | inr e ↦ rw e (leb_of_not a b e)
  ]

  le-min_of : (c a b : R) → num.leb c a ≡ true → num.leb c b ≡ true → num.leb c (min_of a b) ≡ true
  le-min_of c a b h k = elim (Bool-cases (num.leb a b)) [ inl e ↦ rw e h | inr e ↦ rw e k ]

  le-max_of : (a b : R) → num.leb a (max_of a b) ≡ true
  le-max_of a b = elim (Bool-cases (num.leb b a)) [
    | inl e ↦ rw e (num.leb_refl a)
    | inr e ↦ rw e (leb_of_not b a e)
  ]

  -- What `OutboxConfig` checks of the two delays, as far as the bounds need it.
  pub record IsNonneg (config : OutboxConfig R) : Type 0 where
    pub base : num.leb (num.of_ℕ 0) config.retry_base_seconds ≡ true
    pub ceiling : num.leb (num.of_ℕ 0) config.retry_max_seconds ≡ true

  module _ (config : OutboxConfig R) (v : IsNonneg config) where
    abbrev base_of : ℕ → R
    base_of n =
        min_of config.retry_max_seconds
          (num.mul config.retry_base_seconds (num.of_ℕ (2 ^ min n 20)))

    abbrev clamp : R → R
    clamp j = min_of (num.of_ℕ 1) (max_of (num.of_ℕ 0) j)

    base_nonneg : (n : ℕ) → num.leb (num.of_ℕ 0) (base_of n) ≡ true
    base_nonneg n = le-min_of _ _ _ v.ceiling (num.mul_nonneg _ _ v.base (num.of_ℕ_nonneg _))

    clamp_nonneg : (j : R) → num.leb (num.of_ℕ 0) (clamp j) ≡ true
    clamp_nonneg j = le-min_of _ _ _ (num.of_ℕ_nonneg 1) (le-max_of _ _)

    backoff-base : (n : ℕ) (j : R) → num.leb (base_of n) (backoff config n j) ≡ true
    unfolding backoff
    backoff-base n j = num.le-add _ _ (
        num.mul_nonneg _ _ (num.mul_nonneg _ _ (base_nonneg n) num.quarter_nonneg) (clamp_nonneg j))

    backoff_bounded :
        (n : ℕ) (j : R)
        → num.leb
            (backoff config n j)
            (num.add config.retry_max_seconds (num.mul config.retry_max_seconds num.quarter))
          ≡ true
    unfolding backoff
    backoff_bounded n j = num.add_mono _ _ _ _ (min_of-left _ _) (
        subst (λ x. num.leb (num.mul (num.mul (base_of n) num.quarter) (clamp j)) x ≡ true)
          (num.mul_one (num.mul config.retry_max_seconds num.quarter))
          (num.mul_mono _ _ _ _ (num.mul_nonneg _ _ (base_nonneg n) num.quarter_nonneg)
            (clamp_nonneg j)
            (num.mul_mono _ _ _ _ (base_nonneg n) num.quarter_nonneg (min_of-left _ _)
              (num.leb_refl num.quarter))
            (min_of-left _ _)))

  -- The row waits for delivery and has this identifier.
  abbrev pub waits_as : String → Row R → Bool
  waits_as id row = elim row.delivered_at [ none ↦ str_eq row.event_id id | some at ↦ false ]

  -- The row is due between two times, and counts one more retry.
  pub record IsRescheduled (failed : OutboxRecord) (earliest latest : R) (row : Row R)
      : Type 0 where
    pub not_before : num.leb earliest row.next_attempt_at ≡ true
    pub not_after : num.leb row.next_attempt_at latest ≡ true
    pub counted : row.retry_count ≡ failed.retry_count + 1

  module _ (failed : OutboxRecord) (error : String) (earliest latest at : R) where
    update-IsRescheduled :
        (rows : List (Row R))
        → num.leb earliest at ≡ true
        → num.leb at latest ≡ true
        → All
            (λ row.
              (waits_as failed.event_id row ≡ false) ⊎ IsRescheduled failed earliest latest row)
            (update_pending failed.event_id (set_failed (failed.retry_count + 1) error at) rows)
    unfolding update_pending is_pending set_failed
    update-IsRescheduled [] h k = tt
    update-IsRescheduled (row ∷ rows) h k = (one row, update-IsRescheduled rows h k)
      where
        one :
            (row : Row R)
            → let after =
                if str_eq row.event_id failed.event_id && is_pending row
                then set_failed (failed.retry_count + 1) error at row
                else row in
              (waits_as failed.event_id after ≡ false) ⊎ IsRescheduled failed earliest latest after
        one row = elim (Bool-cases (str_eq row.event_id failed.event_id)) [
          | inr e ↦ elim (Option-cases row.delivered_at) [
            | inl d ↦ rw (e, d, e) (inl refl)
            | inr (t, d) ↦ rw (e, d) (inl refl)
          ]
          | inl e ↦ elim (Option-cases row.delivered_at) [
            | inl d ↦ rw (e, d) (inr (record { not_before = h; not_after = k; counted = refl }))
            | inr (t, d) ↦ rw (e, d) (inl refl)
          ]
        ]

  update_pending-ids :
      (id : String) (change : Row R → Row R) (rows : List (Row R))
      → ((row : Row R) → (change row).event_id ≡ row.event_id)
      → map (λ row. row.event_id) (update_pending id change rows) ≡ map (λ row. row.event_id) rows
  unfolding update_pending
  update_pending-ids id change [] same = refl
  update_pending-ids id change (row ∷ rows) same =
      elim (Bool-cases (str_eq row.event_id id && is_pending row)) [
        | inl e ↦ rw (e, same row, update_pending-ids id change rows same) refl
        | inr e ↦ rw (e, update_pending-ids id change rows same) refl
      ]

  -- After a failure, with nonnegative delays in the configuration and whatever the number of retries and the random value,
  -- the outbox holds the same events, and each row of the failed event that waits for delivery counts the retry and is due
  -- no earlier than the exponential delay after now (the base delay doubled for each of the first twenty retries, and at
  -- most the largest delay), and no later than five quarters of the largest delay after now.
  pub mark_failed_bounds :
      (config : OutboxConfig R) (failed : OutboxRecord) (error : String) (timestamp jitter : R)
      (o : Outbox R)
      → IsNonneg config
      → (map (λ row. row.event_id) (mark_failed config failed error timestamp jitter o).1.rows
          ≡ map (λ row. row.event_id) o.rows)
        × All
            (λ row.
              (waits_as failed.event_id row ≡ false)
              ⊎ IsRescheduled failed
                  (num.add timestamp (
                    min_of config.retry_max_seconds (
                      num.mul config.retry_base_seconds
                        (num.of_ℕ (2 ^ min failed.retry_count 20)))))
                  (num.add timestamp (
                    num.add config.retry_max_seconds
                      (num.mul config.retry_max_seconds num.quarter)))
                  row)
            (mark_failed config failed error timestamp jitter o).1.rows
  unfolding mark_failed set_failed
  mark_failed_bounds config failed error timestamp jitter o v = (
    update_pending-ids failed.event_id _ o.rows (λ row. refl),
    update-IsRescheduled failed error _ _ _ o.rows
        (num.add_mono _ _ _ _ (num.leb_refl timestamp)
          (backoff-base config v failed.retry_count jitter))
        (num.add_mono _ _ _ _ (num.leb_refl timestamp)
          (backoff_bounded config v failed.retry_count jitter)),
  )
