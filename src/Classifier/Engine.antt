-- ===== src/Classifier/Engine.antt =====
-- services/incident-classifier/src/netpulse_classifier/engine.py: `ClassificationEngine.classify`.
-- The row selections and tests are in `Rows`, the builders of findings in `Build`; `transition` is
-- the module `Lifecycle`.
pub mod Rows
pub mod Build
pub mod Agents
pub mod Offline
pub mod Outages
use Rows.{
  wired_role, wifi_role, measurements_of, services_of, present, covers_both_agents, healthy_rate,
  failed_rate, all_healthy, all_failed, all_healthy_services, cross_agent_failed, wifi_degraded,
  wifi_disconnected,
}
use Build.{finding, service_finding, offline_findings}
use local_network_kafka_moni.Base.{
  ℕ, String, Bool, ◌&&◌, ◌||◌, not, List, [], ◌∷◌, ◌++◌, map, leb, ◌==◌, nonempty, filter, length,
  str_eq, sorted_set, if◌then◌else◌,
}
use local_network_kafka_moni.Base.Number.{Number}
use local_network_kafka_moni.Classifier.Models.{
  wifi_degradation, wifi_outage, router_unavailable, isp_outage, dns_failure,
  external_service_failure, high_latency, high_packet_loss, unknown_network_incident, warning,
  critical, MeasurementSummary, ServiceSummary, ObservationSnapshot, Finding, Platform,
}
use local_network_kafka_moni.Classifier.Config.{ClassifierConfig}

-- The five groups of measurements that the rules compare.
pub record Groups (R : Type 0) : Type 0 where
  pub wired_router : List (MeasurementSummary R)
  pub wifi_router : List (MeasurementSummary R)
  pub wired_external : List (MeasurementSummary R)
  pub wifi_external : List (MeasurementSummary R)
  pub wifi_diagnostics : List (MeasurementSummary R)

unfoldable pub groups_of : {R : Type 0} → List (MeasurementSummary R) → Groups R
groups_of rows = record {
  wired_router = measurements_of rows wired_role "router_ping";
  wifi_router = measurements_of rows wifi_role "router_ping";
  wired_external = measurements_of rows wired_role "external_ping";
  wifi_external = measurements_of rows wifi_role "external_ping";
  wifi_diagnostics = measurements_of rows wifi_role "wifi_diagnostics";
}

-- `if condition: findings.append(found)`, and the `elif` or `else` behind it.
unfoldable pub rule : {R : Type 0} → Bool → Finding R → List (Finding R) → List (Finding R)
rule condition found otherwise = if condition then found ∷ [] else otherwise

-- `if condition:` around a block that adds findings.
unfoldable pub when : {R : Type 0} → Bool → List (Finding R) → List (Finding R)
when condition found = if condition then found else []

-- `if not findings:` around the block that adds the others.
unfoldable pub or_else : {R : Type 0} → List (Finding R) → List (Finding R) → List (Finding R)
or_else [] others = others
or_else (found ∷ more) others = found ∷ more

module _ {R : Type 0} ⦃num : Number R⦄ (config : ClassifierConfig R) where
  -- The rules about services, which are reached when routers and external targets are healthy.
  unfoldable pub service_rules : List (ServiceSummary R) → List (Finding R)
  service_rules services =
      let dns = services_of services "dns" in
      let http = services_of services "http" in
      let failing_http = filter (λ item. failed_rate config item.success_rate_pct) http in
      let healthy_http = filter (λ item. healthy_rate config item.success_rate_pct) http in
      rule (cross_agent_failed config dns)
        (service_finding dns_failure critical 90 dns
          "IP reachability is healthy while DNS checks repeatedly fail across both agents."
          "Test an alternate configured resolver and inspect router DNS settings.")
        (rule
          (all_healthy_services config dns
            && (nonempty failing_http
                && (nonempty healthy_http
                    || length (sorted_set (map (λ i. i.endpoint_id) http)) == 1)))
          (service_finding external_service_failure warning 84 failing_http
            "Network and DNS checks are healthy while a configured external service repeatedly fails."
            "Check the service status and test the endpoint from another network.")
          [])

  -- The chain of specific rules: at most one of them fires.
  unfoldable pub specific_rules : Groups R → List (ServiceSummary R) → List (Finding R)
  specific_rules g services =
      rule (all_failed config g.wired_router && all_failed config g.wifi_router)
        (finding router_unavailable critical 94 (g.wired_router ++ g.wifi_router)
          "Both agents repeatedly failed to reach the configured router."
          "Check router power, local cabling, and LAN interface status.")
        (rule
          (all_healthy config g.wired_router
            && (all_healthy config g.wired_external
                && (all_failed config g.wifi_router
                    && wifi_disconnected config g.wifi_diagnostics)))
          (finding wifi_outage critical 96 (g.wifi_router ++ g.wifi_diagnostics)
            "The wired baseline is healthy while the Wi-Fi agent cannot reach the router and reports no association."
            "Check the access point, Wi-Fi credentials, channel, and agent location.")
          (rule
            ((all_healthy config g.wired_router && all_healthy config g.wifi_router)
              && (all_failed config g.wired_external && all_failed config g.wifi_external))
            (finding isp_outage critical 92
              ((g.wired_router ++ g.wifi_router) ++ (g.wired_external ++ g.wifi_external))
              "Both agents can reach the router but repeatedly fail external IP checks."
              "Check modem or WAN status, then contact the ISP if the condition persists.")
            (rule
              (all_healthy config g.wired_router
                && (all_healthy config g.wired_external
                    && (nonempty g.wifi_router
                        && wifi_degraded config (g.wifi_router ++ g.wifi_external)
                            g.wifi_diagnostics)))
              (finding wifi_degradation warning 88
                (g.wifi_router ++ (g.wifi_external ++ g.wifi_diagnostics))
                "The wired baseline is healthy while Wi-Fi latency, loss, or signal quality is degraded."
                "Move the Wi-Fi agent or access point, then inspect interference and channel utilization.")
              (when
                ((all_healthy config g.wired_router && all_healthy config g.wifi_router)
                  && (all_healthy config g.wired_external && all_healthy config g.wifi_external))
                (service_rules services)))))

  unfoldable pub is_lossy : MeasurementSummary R → Bool
  is_lossy item =
      not (str_eq item.measurement_type "wifi_diagnostics")
      && num.leb config.high_packet_loss_pct item.mean_packet_loss_pct

  unfoldable pub is_slow : MeasurementSummary R → Bool
  is_slow item = present item.peak_latency_ms (λ peak. num.leb config.high_latency_ms peak)

  unfoldable pub is_impaired : MeasurementSummary R → Bool
  is_impaired item =
      not (str_eq item.measurement_type "wifi_diagnostics")
      && (failed_rate config item.success_rate_pct
          || (num.leb config.high_packet_loss_pct item.mean_packet_loss_pct
              || present item.peak_latency_ms (λ peak. num.leb config.high_latency_ms peak)))

  -- The rules that are tried when no specific one fired.
  unfoldable pub general_rules : List (MeasurementSummary R) → List (Finding R)
  unfolding is_lossy is_slow is_impaired
  general_rules measurements =
      let high_loss = filter is_lossy measurements in
      let slow = filter is_slow measurements in
      let unexplained = filter is_impaired measurements in
      rule (covers_both_agents (map (λ item. item.agent_role) high_loss))
        (finding high_packet_loss warning 82 high_loss
          "Repeated high packet loss is present across wired and Wi-Fi agents."
          "Inspect router load and WAN quality; compare local and external targets.")
        (rule (covers_both_agents (map (λ item. item.agent_role) slow))
          (finding high_latency warning 80 slow
            "Repeated high latency is present across wired and Wi-Fi agents."
            "Check local congestion and compare router latency with external latency.")
          (rule (nonempty unexplained)
            (finding unknown_network_incident warning 50 unexplained
              "Repeated impairment is present, but the available cross-agent evidence does not support a more specific classification."
              "Inspect the affected target and compare both agents before escalating.")
            []))

  unfoldable pub enough_samples : List (MeasurementSummary R) → List (MeasurementSummary R)
  enough_samples = filter (λ item. leb config.minimum_samples item.sample_count)

  unfoldable pub enough_checks : List (ServiceSummary R) → List (ServiceSummary R)
  enough_checks = filter (λ item. leb config.minimum_samples item.sample_count)

  -- The findings about the network: the specific rules, or the general ones where those are silent.
  unfoldable pub symptoms : ObservationSnapshot R → List (Finding R)
  symptoms snapshot =
      let measurements = enough_samples snapshot.measurements in
      let specific = specific_rules (groups_of measurements) (enough_checks snapshot.services) in
      or_else specific (general_rules measurements)

  unfoldable pub classify : Platform → ObservationSnapshot R → List (Finding R)
  unfolding symptoms
  classify platform snapshot =
      symptoms snapshot ++ offline_findings platform config snapshot.observed_at snapshot.heartbeats
