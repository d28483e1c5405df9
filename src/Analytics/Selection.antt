-- ===== src/Analytics/Selection.antt =====
-- services/analytics/src/netpulse_analytics/orchestration/selection.py: the range of a run of the workflow, and its key. Dates
-- are ordinals from 1 on; what the standard library makes of a text is a parameter.
use local_network_kafka_moni.Base.{
  ℕ, ◌+◌, ◌-◌, ◌≤◌, String, Bool, not, ◌∷◌, ◌++◌, Option, none, some, ltb, any, arith, ◌⊎◌, inl,
  inr, Bool-cases, Option-cases, if◌then◌else◌,
}
use local_network_kafka_moni.Query.Models.{Text, Date}
use local_network_kafka_moni.Analytics.Models.{DateRange, date_range, day_count}
use local_network_kafka_moni.Analytics.Sources.{date_of}

-- An instant: one without an offset, or one with it, counted in UTC.
pub data Instant : Type 0 where
  naive : Instant
  aware : ℕ → Instant

-- `date.fromisoformat`, `date.isoformat` and `str.isspace`
pub record Calendar : Type 0 where
  pub fromisoformat : Text → Option Date
  pub isoformat : Date → Text
  pub is_space : ℕ → Bool

module _ (calendar : Calendar) where
  -- The key, or the message of the `ValueError`: `dag_id.strip()` is empty when all its characters are white space.
  unfoldable pub orchestration_run_key : Text → DateRange → Text ⊎ String
  orchestration_run_key dag_id selected =
      if not (any (λ c. not (calendar.is_space c)) dag_id)
      then inr "DAG id is required for the orchestration run key"
      else inl (
          dag_id
          ++ (58
              ∷ (calendar.isoformat selected.from_date
                  ++ (58 ∷ calendar.isoformat selected.through_date))))

  -- Two manual dates, both of which `_parse_date` reads, in order.
  unfoldable pub manual_range : Text → Text → DateRange ⊎ String
  unfolding date_range
  manual_range from through = elim (calendar.fromisoformat from) [
    | none ↦ inr "manual dates must use ISO YYYY-MM-DD format"
    | some from_date ↦ elim (calendar.fromisoformat through) [
      | none ↦ inr "manual dates must use ISO YYYY-MM-DD format"
      | some through_date ↦ elim (date_range from_date through_date) [
        | none ↦ inr "analytics date range must be ordered"
        | some selected ↦ inl selected
      ]
    ]
  ]

-- The day before the end of the interval.
unfoldable pub scheduled_range : Option Instant → DateRange ⊎ String
unfolding date_of
scheduled_range none = inr "data interval end is required without manual dates"
scheduled_range (some naive) = inr "data interval end must be timezone-aware"
scheduled_range (some (aware t)) =
    inl (record { from_date = date_of t - 1; through_date = date_of t - 1 })

-- The last test, on the number of days.
unfoldable pub bounded : ℕ → DateRange ⊎ String → DateRange ⊎ String
unfolding day_count
bounded maximum_days (inr message) = inr message
bounded maximum_days (inl selected) =
    if ltb maximum_days (day_count selected)
    then inr "analytics range cannot exceed the maximum"
    else inl selected

unfoldable pub select_date_range :
    Calendar → (maximum_days : ℕ) → Option Instant → Option Text → Option Text → DateRange ⊎ String
unfolding manual_range scheduled_range bounded
select_date_range calendar maximum_days end none none = bounded maximum_days (scheduled_range end)
select_date_range calendar maximum_days end none (some through) =
    inr "provide both manual dates or neither"
select_date_range calendar maximum_days end (some from) none =
    inr "provide both manual dates or neither"
select_date_range calendar maximum_days end (some from) (some through) =
    bounded maximum_days (manual_range calendar from through)

-- What a selection promises of its range.
unfoldable pub IsBounded : ℕ → DateRange ⊎ String → Type 0
IsBounded maximum_days (inr message) = Unit
IsBounded maximum_days (inl selected) =
    (selected.from_date ≤ selected.through_date)
    × (selected.through_date + 1 ≤ selected.from_date + maximum_days)

unfoldable IsOrdered : DateRange ⊎ String → Type 0
IsOrdered (inr message) = Unit
IsOrdered (inl selected) = selected.from_date ≤ selected.through_date

bounded-IsBounded :
    (maximum_days : ℕ) (chosen : DateRange ⊎ String)
    → IsOrdered chosen
    → IsBounded maximum_days (bounded maximum_days chosen)
unfolding bounded day_count IsBounded IsOrdered
bounded-IsBounded maximum_days (inr message) h = tt
bounded-IsBounded maximum_days (inl selected) h =
    elim (Bool-cases (ltb maximum_days (selected.through_date - selected.from_date + 1))) [
      | inl e ↦ rw e tt
      | inr e ↦ rw e (h, ground (arith, e, h))
    ]

scheduled-IsOrdered : (end : Option Instant) → IsOrdered (scheduled_range end)
unfolding scheduled_range IsOrdered
scheduled-IsOrdered none = tt
scheduled-IsOrdered (some naive) = tt
scheduled-IsOrdered (some (aware t)) = omega arith

manual-IsOrdered :
    (calendar : Calendar) (from through : Text) → IsOrdered (manual_range calendar from through)
unfolding manual_range date_range IsOrdered
manual-IsOrdered calendar from through = elim (Option-cases (calendar.fromisoformat from)) [
  | inl e ↦ rw (IsOrdered, manual_range, e) tt
  | inr (f, e) ↦ elim (Option-cases (calendar.fromisoformat through)) [
    | inl k ↦ rw (IsOrdered, manual_range, e, k) tt
    | inr (t, k) ↦ elim (Bool-cases (ltb t f)) [
      | inl m ↦ rw (IsOrdered, manual_range, e, k, date_range, m) tt
      | inr m ↦ rw (IsOrdered, manual_range, e, k, date_range, m) (ground (arith, m))
    ]
  ]
]

-- Whatever the interval and the manual dates, a range that is selected is ordered and has at most the maximum of days.
pub select_date_range-IsBounded :
    (calendar : Calendar) (maximum_days : ℕ) (end : Option Instant) (from through : Option Text)
    → IsBounded maximum_days (select_date_range calendar maximum_days end from through)
unfolding select_date_range IsBounded
select_date_range-IsBounded calendar maximum_days end none none =
    bounded-IsBounded maximum_days (scheduled_range end) (scheduled-IsOrdered end)
select_date_range-IsBounded calendar maximum_days end none (some through) = tt
select_date_range-IsBounded calendar maximum_days end (some from) none = tt
select_date_range-IsBounded calendar maximum_days end (some from) (some through) =
    bounded-IsBounded maximum_days (manual_range calendar from through)
      (manual-IsOrdered calendar from through)
