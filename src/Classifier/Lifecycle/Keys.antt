-- ===== src/Classifier/Lifecycle/Keys.antt =====
-- `transition` writes one transition for each key that has a finding or an active incident.
use mathlib.Core.List.{map-append}
use local_network_kafka_moni.Base.{
  String, ◌≡◌, refl, ◌∙◌, Bool, true, false, ◌&&◌, ◌||◌, not, List, [], ◌∷◌, ◌++◌, map, inl, inr,
  All, filter, Option-cases, mem_text, arith,
}
use local_network_kafka_moni.Base.Dict.{
  Dict, get, has, keys, Fresh, from_items-Fresh, Values, from_items-Values,
}
use local_network_kafka_moni.Base.Dict.Keys.{
  Distinct, Keyed, mem_text-append, mem_text-filter, filter-Distinct, append-Distinct, has-keys,
  keys-Distinct, has-from_items, from_items-Keyed,
}
use local_network_kafka_moni.Classifier.Models.{Time, Finding, ActiveIncident, Transition, Platform}
use local_network_kafka_moni.Classifier.Config.{ClassifierConfig}
use local_network_kafka_moni.Classifier.Lifecycle.{
  miss, seen, advance_found, advance_missed, transition, active_by_key, finding_by_key,
}

abbrev pub key_of : {R : Type 0} → Transition R → String
key_of t = t.finding.incident_key

-- As `_active_from_row` builds it: the finding carries the incident's own key.
abbrev pub SameKey : {R : Type 0} → ActiveIncident R → Type 0
SameKey a = a.finding.incident_key ≡ a.incident_key

module _ {R : Type 0} (config : ClassifierConfig R) (platform : Platform) (at : Time) where
  key_of-seen :
      (incidents : Dict (ActiveIncident R)) (key : String) (found : Finding R)
      → key_of (seen config platform at incidents key found) ≡ found.incident_key
  unfolding seen
  key_of-seen incidents key found = elim (Option-cases (get key incidents)) [
    | inl e ↦ rw (e, seen)
    | inr (previous, e) ↦ rw (e, seen)
  ]

  map-advance_found :
      (incidents : Dict (ActiveIncident R)) (found : Dict (Finding R))
      → Keyed (λ f. f.incident_key) found
      → map key_of (advance_found config platform at incidents found) ≡ keys found
  unfolding advance_found
  map-advance_found incidents [] h = refl
  map-advance_found incidents ((key, f) ∷ rest) h =
      cc (key_of-seen incidents key f, h.0, map-advance_found incidents rest h.1)

  map-advance_missed :
      (found : Dict (Finding R)) (incidents : Dict (ActiveIncident R))
      → Keyed (λ a. a.incident_key) incidents
      → Values SameKey incidents
      → map key_of (advance_missed config at found incidents)
        ≡ filter (λ k. not (has k found)) (keys incidents)
  unfolding advance_missed miss
  map-advance_missed found [] h s = refl
  map-advance_missed found ((key, previous) ∷ rest) h s =
      ground (arith, map-advance_missed found rest h.1 s.1)

  -- The keys that are written, for the two dicts of `transition`.
  written : Dict (Finding R) → Dict (ActiveIncident R) → List String
  written found incidents = keys found ++ filter (λ k. not (has k found)) (keys incidents)

  written-Distinct :
      (found : Dict (Finding R)) (incidents : Dict (ActiveIncident R))
      → Fresh found
      → Fresh incidents
      → Distinct (written found incidents)
  unfolding written
  written-Distinct found incidents hf hi =
      append-Distinct (keys found) _ (keys-Distinct found hf)
        (filter-Distinct _ _ (keys-Distinct incidents hi))
        (λ k m.
          rw (mem_text-filter (λ j. not (has j found)) k (keys incidents), has-keys k found, m)
            (apart (mem_text k (keys incidents))))
    where
      apart : (b : Bool) → (b && false) ≡ false
      apart true = refl
      apart false = refl

  mem-written :
      (k : String) (found : Dict (Finding R)) (incidents : Dict (ActiveIncident R))
      → mem_text k (written found incidents) ≡ (has k found || has k incidents)
  unfolding written
  mem-written k found incidents = ground (
    arith,
    mem_text-append k (keys found) (filter (λ j. not (has j found)) (keys incidents)),
    mem_text-filter (λ j. not (has j found)) k (keys incidents),
    has-keys k found,
    has-keys k incidents,
  )

  map-transition :
      (findings : List (Finding R)) (active : List (ActiveIncident R))
      → All SameKey active
      → map key_of (transition config platform at findings active)
        ≡ written (finding_by_key findings) (active_by_key active)
  unfolding transition written
  map-transition findings active same =
      map-append key_of (advance_found config platform at incidents found)
        (advance_missed config at found incidents)
      ∙ cc (
        map-advance_found incidents found found_Keyed,
        map-advance_missed found incidents incidents_Keyed incidents_same,
      )
    where
      incidents : Dict (ActiveIncident R)
      incidents = active_by_key active

      found : Dict (Finding R)
      found = finding_by_key findings

      found_Keyed : Keyed (λ f. f.incident_key) found
      found_Keyed = unfold finding_by_key in from_items-Keyed (λ f. f.incident_key) findings [] tt

      incidents_Keyed : Keyed (λ a. a.incident_key) incidents
      incidents_Keyed = unfold active_by_key in from_items-Keyed (λ a. a.incident_key) active [] tt

      incidents_same : Values SameKey incidents
      incidents_same =
          unfold active_by_key in
          from_items-Values SameKey (λ a. a.incident_key) (λ a. a) active [] same tt

  has-found :
      (k : String) (findings : List (Finding R))
      → has k (finding_by_key findings) ≡ mem_text k (map (λ f. f.incident_key) findings)
  unfolding finding_by_key get
  has-found k findings =
      ground (arith, has-from_items (λ (f : Finding R). f.incident_key) (λ f. f) k findings [])

  has-active :
      (k : String) (active : List (ActiveIncident R))
      → has k (active_by_key active) ≡ mem_text k (map (λ a. a.incident_key) active)
  unfolding active_by_key get
  has-active k active =
      ground (arith, has-from_items (λ (a : ActiveIncident R). a.incident_key) (λ a. a) k active [])

  -- Where each active incident carries its own key, `transition` writes at most one transition for a
  -- key, and writes one exactly for the keys of the findings and of the active incidents.
  pub transition-keys :
      (findings : List (Finding R)) (active : List (ActiveIncident R))
      → All SameKey active
      → Distinct (map key_of (transition config platform at findings active))
        × ((k : String)
            → mem_text k (map key_of (transition config platform at findings active)) ≡ (
                mem_text k (map (λ f. f.incident_key) findings)
                || mem_text k (map (λ a. a.incident_key) active)))
  transition-keys findings active same = rw (map-transition findings active same) (
    written-Distinct found incidents (unfold finding_by_key in from_items-Fresh _ _ findings [] tt)
        (unfold active_by_key in from_items-Fresh _ _ active [] tt),
    λ k. rw (← has-found k findings, ← has-active k active) (mem-written k found incidents),
  )
    where
      incidents : Dict (ActiveIncident R)
      incidents = active_by_key active

      found : Dict (Finding R)
      found = finding_by_key findings
