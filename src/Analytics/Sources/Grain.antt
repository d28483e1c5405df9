-- ===== src/Analytics/Sources/Grain.antt =====
-- The grain of a daily figure as a key, and the dates of the observations of a window.
use local_network_kafka_moni.Base.{
  ℕ, ◌≤◌, true, [], ◌∷◌, ◌≡◌, refl, ◌==◌, and-left, and-right, arith,
}
use local_network_kafka_moni.Base.Grouping.{IsEquality}
use local_network_kafka_moni.Query.Models.{
  SourceKind, network_measurement, service_check, Text, CursorKey,
}
use local_network_kafka_moni.Query.Cursor.Format.{same}
use local_network_kafka_moni.Analytics.Sources.{
  date_of, start_of, in_window, between, same_kind, same_grain,
}

pub same_refl : (xs : Text) → same xs xs ≡ true
unfolding same
same_refl [] = refl
same_refl (x ∷ xs) = ground (arith, same_refl xs)

pub eq_of_same : (xs ys : Text) → same xs ys ≡ true → xs ≡ ys
unfolding same
eq_of_same [] [] h = refl
eq_of_same [] (y ∷ ys) h = cc
eq_of_same (x ∷ xs) [] h = cc
eq_of_same (x ∷ xs) (y ∷ ys) h =
    let e : x ≡ y = ground (arith, and-left (x == y) (same xs ys) h) in
    let r : xs ≡ ys = eq_of_same xs ys (and-right (x == y) (same xs ys) h) in cc

pub same-IsEquality : IsEquality same
same-IsEquality = record { reflexive = same_refl; sound = eq_of_same }

kind_refl : (k : SourceKind) → same_kind k k ≡ true
unfolding same_kind
kind_refl network_measurement = refl
kind_refl service_check = refl

eq_of_kind : (k m : SourceKind) → same_kind k m ≡ true → k ≡ m
unfolding same_kind
eq_of_kind network_measurement network_measurement h = refl
eq_of_kind service_check service_check h = refl
eq_of_kind network_measurement service_check h = cc
eq_of_kind service_check network_measurement h = cc

pub kind-IsEquality : IsEquality same_kind
kind-IsEquality = record { reflexive = kind_refl; sound = eq_of_kind }

grain_refl : (a : CursorKey) → same_grain a a ≡ true
unfolding same_grain
grain_refl a =
    let day_refl : (a.date_utc == a.date_utc) ≡ true = ground arith in
    rw
      (
        day_refl,
        same_refl a.agent_id,
        same_refl a.endpoint_id,
        kind_refl a.source_kind,
        same_refl a.probe_type,
      )
      refl

pub eq_of_grain : (a b : CursorKey) → same_grain a b ≡ true → a ≡ b
unfolding same_grain
eq_of_grain a b h =
    let h1 = and-right (a.date_utc == b.date_utc) _ h in
    let h2 = and-right (same a.agent_id b.agent_id) _ h1 in
    let h3 = and-right (same a.endpoint_id b.endpoint_id) _ h2 in
    let e0 : a.date_utc ≡ b.date_utc = ground (arith, and-left (a.date_utc == b.date_utc) _ h) in
    let e1 : a.agent_id ≡ b.agent_id = eq_of_same _ _ (and-left _ _ h1) in
    let e2 : a.endpoint_id ≡ b.endpoint_id = eq_of_same _ _ (and-left _ _ h2) in
    let e3 : a.source_kind ≡ b.source_kind = eq_of_kind _ _ (and-left _ _ h3) in
    let e4 : a.probe_type ≡ b.probe_type =
      eq_of_same _ _ (and-right (same_kind a.source_kind b.source_kind) _ h3) in
    λ i. record {
      date_utc = e0 i;
      agent_id = e1 i;
      endpoint_id = e2 i;
      source_kind = e3 i;
      probe_type = e4 i;
    }

pub grain-IsEquality : IsEquality same_grain
grain-IsEquality = record { reflexive = grain_refl; sound = eq_of_grain }

-- A time is in the window of a range exactly when its date is between the bounds.
pub in_window-between :
    (from through t : ℕ) → 1 ≤ from → in_window from through t ≡ between from through (date_of t)
unfolding in_window between start_of date_of
in_window-between from through t h = ground arith
