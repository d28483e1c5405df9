-- ===== src/Analytics/Refresh/Dimensions.antt =====
-- The dimension tables hold every row of their sources after a refresh, and lose none.
use local_network_kafka_moni.Base.{
  ℕ, zero, suc, ◌+◌, ◌-◌, ◌≤◌, ◌<◌, Bool, true, ◌||◌, List, [], ◌∷◌, ◌++◌, ◌≡◌, refl, ◌∙◌, subst,
  inl, inr, if◌then◌else◌, Bool-cases, arith, ◌==◌,
}
use local_network_kafka_moni.Base.Grouping.{IsEquality, pair-IsEquality, member, member-append}
use local_network_kafka_moni.Query.Models.{Text, Date}
use local_network_kafka_moni.Query.Cursor.Format.{same}
use local_network_kafka_moni.Analytics.Sources.{same_kind, between}
use local_network_kafka_moni.Analytics.Sources.Grain.{eq_of_same, same-IsEquality, kind-IsEquality}
use local_network_kafka_moni.Analytics.Warehouse.{
  Named, upsert, upsert_all, insert_missing, ids, same_date, same_probe,
}
use local_network_kafka_moni.Analytics.Refresh.{generate_series, days_from}

member-upsert :
    (a : Text) (new : Named) (rows : List Named)
    → member same a (ids (upsert new rows)) ≡ (same new.id a || member same a (ids rows))
unfolding upsert ids
member-upsert a new [] = refl
member-upsert a new (row ∷ rows) = elim (Bool-cases (same row.id new.id)) [
  | inl e ↦
      let one_id : row.id ≡ new.id = eq_of_same row.id new.id e in rw (e, one_id) (ground arith)
  | inr e ↦ rw (e, member-upsert a new rows) (ground arith)
]

pub member-upsert_all :
    (a : Text) (news rows : List Named)
    → member same a (ids (upsert_all news rows))
      ≡ (member same a (ids news) || member same a (ids rows))
unfolding upsert_all ids
member-upsert_all a [] rows = refl
member-upsert_all a (new ∷ news) rows =
    rw (member-upsert_all a news (upsert new rows), member-upsert a new rows) (ground arith)

module _ {A : Type 0} (eq : A → A → Bool) (e : IsEquality eq) where
  member-insert_one :
      (a new : A) (rows : List A)
      → member eq a (if member eq new rows then rows else rows ++ new ∷ [])
        ≡ (eq new a || member eq a rows)
  member-insert_one a new rows = elim (Bool-cases (member eq new rows)) [
    | inl k ↦ rw k (elim (Bool-cases (eq new a)) [
      | inl m ↦
          let there : member eq a rows ≡ true =
            subst (λ b. member eq b rows ≡ true) (e.sound new a m) k in
          rw (m, there) refl
      | inr m ↦ rw m refl
    ])
    | inr k ↦ rw (k, member-append eq a rows (new ∷ [])) (ground arith)
  ]

  pub member-insert_missing :
      (a : A) (news rows : List A)
      → member eq a (insert_missing eq news rows) ≡ (member eq a news || member eq a rows)
  unfolding insert_missing
  member-insert_missing a [] rows = refl
  member-insert_missing a (new ∷ news) rows =
      member-insert_missing a news (if member eq new rows then rows else rows ++ new ∷ [])
      ∙ rw (member-insert_one a new rows) (ground arith)

pub probe-IsEquality : IsEquality same_probe
unfolding same_probe
probe-IsEquality = pair-IsEquality same_kind same kind-IsEquality same-IsEquality

pub date-IsEquality : IsEquality same_date
date-IsEquality = record { reflexive = λ a. ground arith; sound = λ a b h. ground arith }

member-days_from :
    (date from count : ℕ)
    → from ≤ date
    → date < from + count
    → member same_date date (days_from from count) ≡ true
unfolding days_from
member-days_from date from zero h k = ground (arith, h, k)
member-days_from date from (suc count) h k = elim (Bool-cases (from == date)) [
  | inl e ↦ rw e refl
  | inr e ↦ rw e (member-days_from date (suc from) count (ground arith) (ground arith))
]

-- The series of the days of a range holds each of them.
pub member-generate_series :
    (from through date : Date)
    → between from through date ≡ true
    → member same_date date (generate_series from through) ≡ true
unfolding generate_series between
member-generate_series from through date h =
    member-days_from date from (through + 1 - from) (ground arith) (ground arith)
