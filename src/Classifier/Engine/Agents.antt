-- ===== src/Classifier/Engine/Agents.antt =====
-- Every finding of `classify` names an agent, and the rules about the network find at most one thing.
use local_network_kafka_moni.Base.{
  ℕ, ◌≤◌, String, ◌≡◌, refl, ◌≢◌, Bool, true, false, List, [], ◌∷◌, map, All, All-append, nonempty,
  filter, length, Bool-cases, inl, inr, and-left, and-right, sorted_set, sorted_set-ne-nil,
  nonempty-append, arith,
}
use local_network_kafka_moni.Base.Number.{Number}
use local_network_kafka_moni.Classifier.Models.{
  Time, IncidentType, Severity, MeasurementSummary, ServiceSummary, HeartbeatSummary,
  ObservationSnapshot, Finding, Platform,
}
use local_network_kafka_moni.Classifier.Config.{ClassifierConfig}
use local_network_kafka_moni.Classifier.Engine.Rows.{
  all_failed, all_healthy, cross_agent_failed, covers_both_agents,
}
use local_network_kafka_moni.Classifier.Engine.Build.{
  finding, service_finding, offline_findings, offline_loop, skips, recent_agents,
}
use local_network_kafka_moni.Classifier.Engine.{
  Groups, rule, when, or_else, service_rules, specific_rules, general_rules, symptoms, classify,
}

abbrev pub HasAgents : {R : Type 0} → Finding R → Type 0
HasAgents f = f.affected_agents ≢ []

-- At most one finding, and it names an agent.
pub record AtMostOne {R : Type 0} (fs : List (Finding R)) : Type 0 where
  pub named : All HasAgents fs
  pub single : length fs ≤ 1

-- Every finding names an agent.
record AllNamed {R : Type 0} (fs : List (Finding R)) : Type 0 where
  named : All HasAgents fs

sorted_set-map-ne-nil {ℓ} :
    {A : Type ℓ} (f : A → String) (rows : List A)
    → nonempty rows ≡ true
    → sorted_set (map f rows) ≢ []
sorted_set-map-ne-nil f [] h = cc
sorted_set-map-ne-nil f (row ∷ rows) h = sorted_set-ne-nil (f row) (map f rows)

-- Roles that cover both agents are the roles of some rows.
covers-nonempty {ℓ} :
    {A : Type ℓ} (role : A → String) (rows : List A)
    → covers_both_agents (map role rows) ≡ true
    → nonempty rows ≡ true
unfolding covers_both_agents
covers-nonempty role [] h = cc
covers-nonempty role (row ∷ rows) h = refl

nonempty-of_filter {ℓ} :
    {A : Type ℓ} (p : A → Bool) (rows : List A)
    → nonempty (filter p rows) ≡ true
    → nonempty rows ≡ true
nonempty-of_filter p [] h = cc
nonempty-of_filter p (row ∷ rows) h = refl

nil-AtMostOne : {R : Type 0} → AtMostOne {R = R} []
nil-AtMostOne = record { named = tt; single = omega arith }

rule-AtMostOne :
    {R : Type 0} (c : Bool) (f : Finding R) (others : List (Finding R))
    → (c ≡ true → HasAgents f)
    → AtMostOne others
    → AtMostOne (rule c f others)
unfolding rule
rule-AtMostOne true f others h k = record { named = (h refl, tt); single = omega arith }
rule-AtMostOne false f others h k = k

when-AtMostOne :
    {R : Type 0} (c : Bool) (fs : List (Finding R)) → AtMostOne fs → AtMostOne (when c fs)
unfolding when
when-AtMostOne true fs k = k
when-AtMostOne false fs k = nil-AtMostOne

or_else-AtMostOne :
    {R : Type 0} (fs gs : List (Finding R))
    → AtMostOne fs
    → AtMostOne gs
    → AtMostOne (or_else fs gs)
unfolding or_else
or_else-AtMostOne [] gs h k = k
or_else-AtMostOne (f ∷ fs) gs h k = h

module _ {R : Type 0} ⦃num : Number R⦄ where
  finding-HasAgents :
      (type : IncidentType) (severity : Severity) (n : ℕ) (rows : List (MeasurementSummary R))
      (s a : String)
      → nonempty rows ≡ true
      → HasAgents (finding type severity n rows s a)
  unfolding finding
  finding-HasAgents type severity n rows s a h = sorted_set-map-ne-nil (λ row. row.agent_id) rows h

service_finding-HasAgents :
    {R : Type 0} (type : IncidentType) (severity : Severity) (n : ℕ)
    (rows : List (ServiceSummary R)) (s a : String)
    → nonempty rows ≡ true
    → HasAgents (service_finding type severity n rows s a)
unfolding service_finding
service_finding-HasAgents type severity n rows s a h =
    sorted_set-map-ne-nil (λ row. row.agent_id) rows h

module _ {R : Type 0} ⦃num : Number R⦄ (config : ClassifierConfig R) where
  all_failed-nonempty :
      (rows : List (MeasurementSummary R)) → all_failed config rows ≡ true → nonempty rows ≡ true
  unfolding all_failed
  all_failed-nonempty rows h = and-left _ _ h

  all_healthy-nonempty :
      (rows : List (MeasurementSummary R)) → all_healthy config rows ≡ true → nonempty rows ≡ true
  unfolding all_healthy
  all_healthy-nonempty rows h = and-left _ _ h

  cross-nonempty :
      (rows : List (ServiceSummary R))
      → cross_agent_failed config rows ≡ true
      → nonempty rows ≡ true
  unfolding cross_agent_failed
  cross-nonempty rows h = nonempty-of_filter _ rows (covers-nonempty _ _ h)

  service_rules-AtMostOne :
      (services : List (ServiceSummary R)) → AtMostOne (service_rules config services)
  unfolding service_rules
  service_rules-AtMostOne services =
      rule-AtMostOne _ _ _ (λ h. service_finding-HasAgents _ _ _ _ _ _ (cross-nonempty _ h))
        (rule-AtMostOne _ _ _
          (λ h. service_finding-HasAgents _ _ _ _ _ _ (and-left _ _ (and-right _ _ h)))
          nil-AtMostOne)

  specific_rules-AtMostOne :
      (g : Groups R) (services : List (ServiceSummary R))
      → AtMostOne (specific_rules config g services)
  unfolding specific_rules
  specific_rules-AtMostOne g services =
      rule-AtMostOne _ _ _
        (λ h.
          finding-HasAgents _ _ _ _ _ _
            (nonempty-append _ _ (all_failed-nonempty _ (and-left _ _ h))))
        (rule-AtMostOne _ _ _
          (λ h. finding-HasAgents _ _ _ _ _ _ (
            nonempty-append _ _
              (all_failed-nonempty _ (and-left _ _ (and-right _ _ (and-right _ _ h))))))
          (rule-AtMostOne _ _ _
            (λ h. finding-HasAgents _ _ _ _ _ _ (
              nonempty-append _ _
                (nonempty-append _ _ (all_healthy-nonempty _ (and-left _ _ (and-left _ _ h))))))
            (rule-AtMostOne _ _ _
              (λ h. finding-HasAgents _ _ _ _ _ _ (
                nonempty-append g.wifi_router _
                  (and-left (nonempty g.wifi_router) _ (and-right _ _ (and-right _ _ h)))))
              (when-AtMostOne _ _ (service_rules-AtMostOne services)))))

  general_rules-AtMostOne :
      (rows : List (MeasurementSummary R)) → AtMostOne (general_rules config rows)
  unfolding general_rules
  general_rules-AtMostOne rows =
      rule-AtMostOne _ _ _
        (λ h. finding-HasAgents _ _ _ _ _ _ (covers-nonempty (λ item. item.agent_role) _ h))
        (rule-AtMostOne _ _ _
          (λ h. finding-HasAgents _ _ _ _ _ _ (covers-nonempty (λ item. item.agent_role) _ h))
          (rule-AtMostOne _ _ _ (λ h. finding-HasAgents _ _ _ _ _ _ h) nil-AtMostOne))

  -- The rules about the network report at most one finding for a snapshot, and it names an agent.
  pub symptoms-AtMostOne : (snapshot : ObservationSnapshot R) → AtMostOne (symptoms config snapshot)
  unfolding symptoms
  symptoms-AtMostOne snapshot =
      or_else-AtMostOne _ _ (specific_rules-AtMostOne _ _) (general_rules-AtMostOne _)

module _ {R : Type 0} (platform : Platform) (config : ClassifierConfig R) (at : Time) where
  offline_loop-HasAgents :
      (recent : List String) (heartbeats : List HeartbeatSummary)
      → AllNamed (offline_loop platform config at recent heartbeats)
  unfolding offline_loop
  offline_loop-HasAgents recent [] = record { named = tt }
  offline_loop-HasAgents recent (h ∷ rest) = elim (Bool-cases (skips platform config at recent h)) [
    | inl e ↦ rw e (offline_loop-HasAgents recent rest)
    | inr e ↦ rw e (record { named = (λ q. cc, (offline_loop-HasAgents recent rest).named) })
  ]

  offline_findings-HasAgents :
      (heartbeats : List HeartbeatSummary)
      → AllNamed (offline_findings platform config at heartbeats)
  unfolding offline_findings
  offline_findings-HasAgents heartbeats =
      elim (Bool-cases (nonempty (recent_agents platform config at heartbeats))) [
        | inl e ↦ rw e (offline_loop-HasAgents _ heartbeats)
        | inr e ↦ rw e (record { named = tt })
      ]

module _ {R : Type 0} ⦃num : Number R⦄ (config : ClassifierConfig R) (platform : Platform) where
  -- Every finding of `classify` names at least one affected agent.
  pub classify-HasAgents :
      (snapshot : ObservationSnapshot R) → All HasAgents (classify config platform snapshot)
  unfolding classify
  classify-HasAgents snapshot =
      All-append HasAgents _ _ (symptoms-AtMostOne config snapshot).named
        (offline_findings-HasAgents platform config snapshot.observed_at snapshot.heartbeats).named
