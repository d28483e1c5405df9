-- ===== src/Classifier/Engine/Outages.antt =====
-- The outage rules of `classify` do not depend on their order when the configuration is valid: a
-- group of rows is never both healthy and failed.
use local_network_kafka_moni.Base.{
  ◌≡◌, refl, ◌↔◌, inl, inr, true, false, List, [], ◌∷◌, map, Bool-cases, and-left, arith,
}
use local_network_kafka_moni.Base.Number.{Number}
use local_network_kafka_moni.Classifier.Models.{
  IncidentType, wifi_outage, isp_outage, MeasurementSummary, ServiceSummary, Finding,
}
use local_network_kafka_moni.Classifier.Config.{ClassifierConfig, IsValid}
use local_network_kafka_moni.Classifier.Engine.Rows.{
  healthy_rate, failed_rate, all_failed, all_healthy, wifi_disconnected,
}
use local_network_kafka_moni.Classifier.Engine.Build.{finding, service_finding}
use local_network_kafka_moni.Classifier.Engine.{Groups, rule, when, service_rules, specific_rules}

abbrev pub types_of : {R : Type 0} → List (Finding R) → List IncidentType
types_of fs = map (λ f. f.incident_type) fs

module _ {R : Type 0} ⦃num : Number R⦄ (config : ClassifierConfig R) where
  healthy_rate-not_failed :
      (rate : R)
      → IsValid config
      → healthy_rate config rate ≡ true
      → failed_rate config rate ≡ false
  unfolding healthy_rate failed_rate
  healthy_rate-not_failed rate v h =
      elim (Bool-cases (num.leb rate config.failed_success_rate_pct)) [
        | inl f ↦ cc (num.leb_trans _ _ _ h f, v.ordered)
        | inr f ↦ f
      ]

  -- A group of rows is not both healthy and failed.
  pub all_healthy-not_failed :
      (rows : List (MeasurementSummary R))
      → IsValid config
      → all_healthy config rows ≡ true
      → all_failed config rows ≡ false
  unfolding all_healthy all_failed
  all_healthy-not_failed [] v h = cc
  all_healthy-not_failed (row ∷ rows) v h =
      rw (healthy_rate-not_failed row.success_rate_pct v (and-left _ _ h)) refl

  service_rules-not_isp :
      (services : List (ServiceSummary R))
      → types_of (service_rules config services) ≡ isp_outage ∷ []
      → ⊥
  unfolding service_rules rule service_finding
  service_rules-not_isp services h = ground arith

  service_rules-not_wifi :
      (services : List (ServiceSummary R))
      → types_of (service_rules config services) ≡ wifi_outage ∷ []
      → ⊥
  unfolding service_rules rule service_finding
  service_rules-not_wifi services h = ground arith

  -- What the rule about the ISP asks of the groups.
  abbrev pub IspDown : Groups R → Type 0
  IspDown g =
      (all_healthy config g.wired_router ≡ true)
      × (all_healthy config g.wifi_router ≡ true)
      × (all_failed config g.wired_external ≡ true)
      × (all_failed config g.wifi_external ≡ true)

  -- What the rule about the Wi-Fi asks of the groups.
  abbrev pub WifiDown : Groups R → Type 0
  WifiDown g =
      (all_healthy config g.wired_router ≡ true)
      × (all_healthy config g.wired_external ≡ true)
      × (all_failed config g.wifi_router ≡ true)
      × (wifi_disconnected config g.wifi_diagnostics ≡ true)

  module _ (g : Groups R) (services : List (ServiceSummary R)) where
    isp_of_type : types_of (specific_rules config g services) ≡ isp_outage ∷ [] → IspDown g
    unfolding specific_rules rule when finding
    isp_of_type h = ground (arith, service_rules-not_isp services)

    type_of_isp :
        IsValid config → IspDown g → types_of (specific_rules config g services) ≡ isp_outage ∷ []
    unfolding specific_rules rule when finding
    type_of_isp v h = ground (
      arith,
      all_healthy-not_failed g.wired_router v,
      all_healthy-not_failed g.wifi_router v,
      all_healthy-not_failed g.wired_external v,
    )

    wifi_of_type : types_of (specific_rules config g services) ≡ wifi_outage ∷ [] → WifiDown g
    unfolding specific_rules rule when finding
    wifi_of_type h = ground (arith, service_rules-not_wifi services)

    type_of_wifi :
        IsValid config → WifiDown g → types_of (specific_rules config g services) ≡ wifi_outage ∷ []
    unfolding specific_rules rule when finding
    type_of_wifi v h = ground (arith, all_healthy-not_failed g.wired_router v)

  -- For a valid configuration the specific rules report an ISP outage, and nothing else, exactly when
  -- both agents reach the router and both fail every external check.
  pub specific_rules-isp_outage :
      (g : Groups R) (services : List (ServiceSummary R))
      → IsValid config
      → (types_of (specific_rules config g services) ≡ isp_outage ∷ []) ↔ IspDown g
  specific_rules-isp_outage g services v = (isp_of_type g services, type_of_isp g services v)

  -- For a valid configuration the specific rules report a Wi-Fi outage, and nothing else, exactly when
  -- the wired agent reaches the router and the external targets, while the Wi-Fi agent fails every
  -- router check and reports no association.
  pub specific_rules-wifi_outage :
      (g : Groups R) (services : List (ServiceSummary R))
      → IsValid config
      → (types_of (specific_rules config g services) ≡ wifi_outage ∷ []) ↔ WifiDown g
  specific_rules-wifi_outage g services v = (wifi_of_type g services, type_of_wifi g services v)
