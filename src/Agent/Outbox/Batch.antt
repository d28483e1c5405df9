-- ===== src/Agent/Outbox/Batch.antt =====
-- The batch that `ready` returns.
use Prim.Native.Nat.{min}
use local_network_kafka_moni.Base.{
  ◌≡◌, ap, ◌∙◌, Bool, true, false, sym, subst, none, some, ◌&&◌, List, ◌++◌, filter, length,
  length-take, inl, inr, Bool-cases, arith,
}
use mathlib.Core.List.{Permᴰ}
use local_network_kafka_moni.Base.Number.{Number}
use local_network_kafka_moni.Base.Sort.{
  IsSorted, sort, sort-IsSorted, sort-perm, take_rest, length-sort,
}
use local_network_kafka_moni.Agent.Outbox.{
  OutboxConfig, Row, Outbox, is_eligible, is_pending, row_le, ready_rows,
}
use local_network_kafka_moni.Agent.Outbox.Backoff.{leb_of_not}

module _ {R : Type 0} ⦃num : Number R⦄ where
  abbrev pub created_le : Row R → Row R → Bool
  created_le a b = num.leb a.created_at b.created_at

  row_le-created : (a b : Row R) → row_le a b ≡ true → created_le a b ≡ true
  unfolding row_le
  row_le-created a b h = elim (Bool-cases (num.leb b.created_at a.created_at)) [
    | inl e ↦ ground (arith, h)
    | inr e ↦ leb_of_not b.created_at a.created_at e
  ]

  row_le_total : (a b : Row R) → row_le a b ≡ false → created_le b a ≡ true
  unfolding row_le
  row_le_total a b h = elim (Bool-cases (num.leb b.created_at a.created_at)) [
    | inl e ↦ e
    | inr e ↦ ground (arith, h)
  ]

  -- The row is undelivered, and its next attempt is due.
  abbrev pub is_due : R → Row R → Bool
  is_due timestamp row =
      elim row.delivered_at [ none ↦ true | some at ↦ false ]
      && num.leb row.next_attempt_at timestamp

  -- The batch and the rows that it leaves for later are together the undelivered rows that are due, each as often as it is
  -- stored; the batch and then the rows left stand in the order of their creation, so that no row left is older than one
  -- of the batch; and the batch holds all of them, or as many as its size allows.
  pub ready_rows-IsBatch :
      (config : OutboxConfig R) (timestamp : R) (o : Outbox R)
      → (left : List (Row R)) × (Permᴰ
            (ready_rows config timestamp o ++ left)
            (filter (is_due timestamp) o.rows)
          × (IsSorted created_le (ready_rows config timestamp o ++ left)
              × (length (ready_rows config timestamp o)
                  ≡ min config.batch_size (length (filter (is_due timestamp) o.rows)))))
  unfolding ready_rows is_eligible is_pending
  ready_rows-IsBatch config timestamp o =
      let due = filter (is_due timestamp) o.rows in
      let all_rows = sort row_le due in
      let sorted =
        sort-IsSorted row_le created_le (λ a b c. num.leb_trans _ _ _) row_le-created row_le_total
          due in
      let parts = take_rest config.batch_size all_rows in
      (
        parts.0,
        (
          subst (λ rows. Permᴰ rows due) (sym parts.1) (sort-perm row_le due),
          (
            subst (IsSorted created_le) (sym parts.1) sorted,
            length-take config.batch_size all_rows
                ∙ ap (min config.batch_size) (length-sort row_le due),
          ),
        ),
      )
