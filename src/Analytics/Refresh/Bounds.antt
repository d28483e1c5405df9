-- ===== src/Analytics/Refresh/Bounds.antt =====
-- The least and the greatest of the dates bound them.
use local_network_kafka_moni.Base.{
  ◌≤◌, true, List, [], ◌∷◌, ◌≡◌, arith, inl, inr, Bool-cases, if◌then◌else◌, leb, ◌==◌, all,
}
use local_network_kafka_moni.Base.Grouping.{member}
use local_network_kafka_moni.Query.Models.{Date}
use local_network_kafka_moni.Analytics.Sources.{between}
use local_network_kafka_moni.Analytics.Warehouse.{same_date}
use local_network_kafka_moni.Analytics.Refresh.{least, greatest}

pub least-le : (low : Date) (dates : List Date) → least low dates ≤ low
unfolding least
least-le low [] = omega arith
least-le low (date ∷ dates) = elim (Bool-cases (leb low date)) [
  | inl e ↦ rw e (least-le low dates)
  | inr e ↦ rw e (ground (arith, least-le date dates))
]

pub le-greatest : (high : Date) (dates : List Date) → high ≤ greatest high dates
unfolding greatest
le-greatest high [] = omega arith
le-greatest high (date ∷ dates) = elim (Bool-cases (leb date high)) [
  | inl e ↦ rw e (le-greatest high dates)
  | inr e ↦ rw e (ground (arith, le-greatest date dates))
]

pub least-member :
    (low date : Date) (dates : List Date)
    → member same_date date dates ≡ true
    → least low dates ≤ date
unfolding least
least-member low date [] h = cc
least-member low date (d ∷ dates) h = elim (Bool-cases (d == date)) [
  | inl e ↦ elim (Bool-cases (leb low d)) [
    | inl k ↦ rw k (ground (arith, least-le low dates))
    | inr k ↦ rw k (ground (arith, least-le d dates))
  ]
  | inr e ↦ least-member (if leb low d then low else d) date dates (ground (arith, h))
]

pub greatest-member :
    (high date : Date) (dates : List Date)
    → member same_date date dates ≡ true
    → date ≤ greatest high dates
unfolding greatest
greatest-member high date [] h = cc
greatest-member high date (d ∷ dates) h = elim (Bool-cases (d == date)) [
  | inl e ↦ elim (Bool-cases (leb d high)) [
    | inl k ↦ rw k (ground (arith, le-greatest high dates))
    | inr k ↦ rw k (ground (arith, le-greatest d dates))
  ]
  | inr e ↦ greatest-member (if leb d high then high else d) date dates (ground (arith, h))
]

-- A date of the list is within its bounds.
pub bounds-member :
    (date first : Date) (dates : List Date)
    → member same_date date (first ∷ dates) ≡ true
    → between (least first dates) (greatest first dates) date ≡ true
unfolding between
bounds-member date first dates h = elim (Bool-cases (first == date)) [
  | inl e ↦ ground (arith, least-le first dates, le-greatest first dates)
  | inr e ↦
      let there : member same_date date dates ≡ true = ground (arith, h) in
      ground (arith, least-member first date dates there, greatest-member first date dates there)
]

pub least-pos :
    (low : Date) (dates : List Date)
    → 1 ≤ low
    → all (λ date. leb 1 date) dates ≡ true
    → 1 ≤ least low dates
unfolding least
least-pos low [] h k = h
least-pos low (d ∷ dates) h k = elim (Bool-cases (leb low d)) [
  | inl e ↦ rw e (least-pos low dates h (ground (arith, k)))
  | inr e ↦ rw e (least-pos d dates (ground (arith, k)) (ground (arith, k)))
]
