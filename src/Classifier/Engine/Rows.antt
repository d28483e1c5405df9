-- ===== src/Classifier/Engine/Rows.antt =====
-- The selections of rows and the tests on them in engine.py.
use local_network_kafka_moni.Base.{
  String, Bool, ◌&&◌, ◌||◌, false, List, map, Option, none, some, nonempty, filter, all, any,
  str_eq, mem_text,
}
use local_network_kafka_moni.Base.Number.{Number}
use local_network_kafka_moni.Classifier.Models.{MeasurementSummary, ServiceSummary}
use local_network_kafka_moni.Classifier.Config.{ClassifierConfig}

abbrev pub wired_role : String
wired_role = "wired_reference"

abbrev pub wifi_role : String
wifi_role = "wifi_observer"

module _ {R : Type 0} where
  unfoldable pub measurements_of :
      List (MeasurementSummary R) → String → String → List (MeasurementSummary R)
  measurements_of rows role measurement_type =
      filter (λ item. str_eq item.agent_role role && str_eq item.measurement_type measurement_type)
        rows

  unfoldable pub services_of : List (ServiceSummary R) → String → List (ServiceSummary R)
  services_of rows check_type = filter (λ item. str_eq item.check_type check_type) rows

  -- `item is not None and test(item)`
  abbrev pub present : Option R → (R → Bool) → Bool
  present none test = false
  present (some value) test = test value

-- The argument is the set of the rows' roles, as a list.
unfoldable pub covers_both_agents : List String → Bool
covers_both_agents roles = mem_text wired_role roles && mem_text wifi_role roles

module _ {R : Type 0} ⦃num : Number R⦄ (config : ClassifierConfig R) where
  unfoldable pub healthy_rate : R → Bool
  healthy_rate rate = num.leb config.healthy_success_rate_pct rate

  unfoldable pub failed_rate : R → Bool
  failed_rate rate = num.leb rate config.failed_success_rate_pct

  unfoldable pub all_healthy : List (MeasurementSummary R) → Bool
  all_healthy rows = nonempty rows && all (λ row. healthy_rate row.success_rate_pct) rows

  unfoldable pub all_failed : List (MeasurementSummary R) → Bool
  all_failed rows = nonempty rows && all (λ row. failed_rate row.success_rate_pct) rows

  unfoldable pub all_healthy_services : List (ServiceSummary R) → Bool
  all_healthy_services rows = nonempty rows && all (λ row. healthy_rate row.success_rate_pct) rows

  unfoldable pub cross_agent_failed : List (ServiceSummary R) → Bool
  cross_agent_failed rows =
      covers_both_agents
        (map (λ item. item.agent_role) (filter (λ item. failed_rate item.success_rate_pct) rows))

  unfoldable pub wifi_degraded : List (MeasurementSummary R) → List (MeasurementSummary R) → Bool
  wifi_degraded network diagnostics =
      any
        (λ item.
          present item.peak_latency_ms
            (λ peak. num.leb (num.mul config.high_latency_ms num.half) peak)
          || num.leb (num.mul config.high_packet_loss_pct num.three_quarters)
              item.mean_packet_loss_pct)
        network
      && any
          (λ item.
            present item.weakest_signal_dbm (λ signal. num.leb signal config.weak_signal_dbm))
          diagnostics

  unfoldable pub wifi_disconnected : List (MeasurementSummary R) → Bool
  wifi_disconnected rows =
      nonempty rows && all (λ item. present item.connected_rate_pct failed_rate) rows
