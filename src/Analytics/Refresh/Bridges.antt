-- ===== src/Analytics/Refresh/Bridges.antt =====
-- The bridges between incidents and the agents and endpoints that they affect: their constraints hold, and they hold as
-- many rows of an incident as it lists members, when it lists none twice.
use local_network_kafka_moni.Base.{
  Bool, true, false, ◌&&◌, List, [], ◌∷◌, ◌++◌, map, ◌≡◌, refl, sym, ◌∙◌, subst, all, filter,
  filter-append, length, arith, and-left, and-right, inl, inr, Bool-cases, Memᴰ, All, append_nil,
}
use local_network_kafka_moni.Base.Grouping.{
  IsEquality, member, member-append, member-map, map-map, Unique, Unique-append, pair-IsEquality,
  all-append,
}
use local_network_kafka_moni.Query.Models.{Text}
use local_network_kafka_moni.Query.Cursor.Format.{same}
use local_network_kafka_moni.Analytics.Sources.Grain.{same_refl, eq_of_same, same-IsEquality}
use local_network_kafka_moni.Analytics.Warehouse.{SourceIncident, same_pair}
use local_network_kafka_moni.Analytics.Refresh.{members_of, pairs_of}

pub same_pair-IsEquality : IsEquality same_pair
unfolding same_pair
same_pair-IsEquality = pair-IsEquality same same same-IsEquality same-IsEquality

members-known :
    (I M : List Text) (id : Text) (members : List Text)
    → member same id I ≡ true
    → all (λ a. member same a M) members ≡ true
    → all (λ pair. member same pair.0 I && member same pair.1 M) (members_of id members) ≡ true
unfolding members_of
members-known I M id [] h k = refl
members-known I M id (a ∷ members) h k =
    rw
      (
        h,
        and-left (member same a M) (all (λ b. member same b M) members) k,
        members-known I M id members h
            (and-right (member same a M) (all (λ b. member same b M) members) k),
      )
      refl

-- The rows of an incident in a list of pairs.
unfoldable pub rows_of : Text → List (Text × Text) → List (Text × Text)
unfolding same
rows_of id pairs = filter (λ pair. same pair.0 id) pairs

rows_of-append :
    (id : Text) (xs ys : List (Text × Text))
    → rows_of id (xs ++ ys) ≡ rows_of id xs ++ rows_of id ys
unfolding rows_of
rows_of-append id xs ys = filter-append (λ pair. same pair.0 id) xs ys

-- All pairs of an incident are its rows, and none are of another.
length-rows_of_own :
    (id : Text) (members : List Text) → length (rows_of id (members_of id members)) ≡ length members
unfolding rows_of members_of
length-rows_of_own id [] = refl
length-rows_of_own id (a ∷ members) = rw (same_refl id, length-rows_of_own id members) refl

rows_of_other :
    (id other : Text) (members : List Text)
    → same other id ≡ false
    → rows_of id (members_of other members) ≡ []
unfolding rows_of members_of
rows_of_other id other [] h = refl
rows_of_other id other (a ∷ members) h = rw (h, rows_of_other id other members h) refl

member-members_of :
    (id other a : Text) (members : List Text)
    → member same_pair (id, a) (members_of other members) ≡ (same other id && member same a members)
unfolding members_of same_pair
member-members_of id other a [] = ground arith
member-members_of id other a (b ∷ members) =
    rw (member-members_of id other a members) (ground arith)

members_of-Unique :
    (id : Text) (members : List Text)
    → Unique same members
    → Unique same_pair (members_of id members)
unfolding members_of
members_of-Unique id [] h = tt
members_of-Unique id (a ∷ members) h =
    (rw (member-members_of id id a members, h.0) (ground arith), members_of-Unique id members h.1)

unfoldable pub incident_id_list : {R : Type 0} → List (SourceIncident R) → List Text
incident_id_list incidents = map (λ row. row.incident_id) (map (λ incident. incident.row) incidents)

pub member-incident_id_list :
    {R : Type 0} (incident : SourceIncident R) (incidents : List (SourceIncident R))
    → Memᴰ incident incidents
    → member same incident.row.incident_id (incident_id_list incidents) ≡ true
unfolding incident_id_list
member-incident_id_list incident incidents m =
    rw (map-map (λ i. i.row) (λ row. row.incident_id) incidents)
      (member-map same (λ i. i.row.incident_id) incident incidents same-IsEquality m)

module _ {R : Type 0} (affected : SourceIncident R → List Text) where
  pub pairs-known :
      (I M : List Text) (incidents : List (SourceIncident R))
      → all (λ incident. member same incident.row.incident_id I) incidents ≡ true
      → all (λ incident. all (λ a. member same a M) (affected incident)) incidents ≡ true
      → all (λ pair. member same pair.0 I && member same pair.1 M) (pairs_of affected incidents)
        ≡ true
  unfolding pairs_of
  pairs-known I M [] h k = refl
  pairs-known I M (incident ∷ incidents) h k =
      let known : SourceIncident R → Bool = λ b. all (λ a. member same a M) (affected b) in
      let listed : SourceIncident R → Bool = λ b. member same b.row.incident_id I in
      all-append _ (members_of incident.row.incident_id (affected incident))
        (pairs_of affected incidents)
        (members-known I M incident.row.incident_id (affected incident)
          (and-left (listed incident) (all listed incidents) h)
          (and-left (known incident) (all known incidents) k))
        (pairs-known I M incidents (and-right (listed incident) (all listed incidents) h)
          (and-right (known incident) (all known incidents) k))

  -- An incident that is not there has no row.
  rows_of-absent :
      (id : Text) (incidents : List (SourceIncident R))
      → member same id (incident_id_list incidents) ≡ false
      → rows_of id (pairs_of affected incidents) ≡ []
  unfolding pairs_of incident_id_list rows_of
  rows_of-absent id [] h = refl
  rows_of-absent id (incident ∷ incidents) h =
      rw
        (
          rows_of-append id (members_of incident.row.incident_id (affected incident))
              (pairs_of affected incidents),
          rows_of_other id incident.row.incident_id (affected incident) (ground (arith, h)),
          rows_of-absent id incidents (ground (arith, h)),
        )
        refl

  pub length-rows_of :
      (incidents : List (SourceIncident R))
      → Unique same (incident_id_list incidents)
      → (incident : SourceIncident R) → Memᴰ incident incidents
      → length (rows_of incident.row.incident_id (pairs_of affected incidents))
        ≡ length (affected incident)
  unfolding pairs_of incident_id_list
  length-rows_of [] u incident m = elim m [ ]
  length-rows_of (first ∷ rest) u incident (Memᴰ.head e) =
      subst
        (λ i.
          length (rows_of i.row.incident_id (pairs_of affected (first ∷ rest)))
          ≡ length (affected i))
        (sym e)
        (rw
          (
            rows_of-append first.row.incident_id (members_of first.row.incident_id (affected first))
                (pairs_of affected rest),
            rows_of-absent first.row.incident_id rest u.0,
            append_nil
                (rows_of first.row.incident_id (members_of first.row.incident_id (affected first))),
          )
          (length-rows_of_own first.row.incident_id (affected first)))
  length-rows_of (first ∷ rest) u incident (Memᴰ.tail m) =
      let listed : member same incident.row.incident_id (incident_id_list rest) ≡ true =
        member-incident_id_list incident rest m in
      let apart : same first.row.incident_id incident.row.incident_id ≡ false =
        elim (Bool-cases (same first.row.incident_id incident.row.incident_id)) [
          | inl k ↦ let one_id = eq_of_same first.row.incident_id incident.row.incident_id k in cc
          | inr k ↦ k
        ] in
      rw
        (
          rows_of-append incident.row.incident_id
              (members_of first.row.incident_id (affected first)) (pairs_of affected rest),
          rows_of_other incident.row.incident_id first.row.incident_id (affected first) apart,
        )
        (length-rows_of rest u.1 incident m)

  member-pairs_of :
      (id a : Text) (incidents : List (SourceIncident R))
      → member same id (incident_id_list incidents) ≡ false
      → member same_pair (id, a) (pairs_of affected incidents) ≡ false
  unfolding pairs_of incident_id_list
  member-pairs_of id a [] h = refl
  member-pairs_of id a (incident ∷ incidents) h =
      let apart : same incident.row.incident_id id ≡ false = ground (arith, h) in
      rw
        (
          member-append same_pair (id, a) (members_of incident.row.incident_id (affected incident))
              (pairs_of affected incidents),
          member-members_of id incident.row.incident_id a (affected incident),
          apart,
        )
        (member-pairs_of id a incidents (ground (arith, h)))

  pub pairs_of-Unique :
      (incidents : List (SourceIncident R))
      → Unique same (incident_id_list incidents)
      → All (λ incident. Unique same (affected incident)) incidents
      → Unique same_pair (pairs_of affected incidents)
  unfolding pairs_of incident_id_list
  pairs_of-Unique [] u h = tt
  pairs_of-Unique (incident ∷ incidents) u h =
      Unique-append same_pair (members_of incident.row.incident_id (affected incident))
        (pairs_of affected incidents)
        (members_of-Unique incident.row.incident_id (affected incident) h.0)
        (pairs_of-Unique incidents u.1 h.1)
        (λ pair m.
          let own : same incident.row.incident_id pair.0 ≡ true =
            and-left _ (member same pair.1 (affected incident)) (
              sym (member-members_of pair.0 incident.row.incident_id pair.1 (affected incident))
              ∙ m) in
          member-pairs_of pair.0 pair.1 incidents (
            subst (λ i. member same i (incident_id_list incidents) ≡ false) (eq_of_same _ _ own)
              u.0))
        same_pair-IsEquality
