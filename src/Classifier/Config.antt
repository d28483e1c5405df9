-- ===== src/Classifier/Config.antt =====
-- services/incident-classifier/src/netpulse_classifier/config.py: the settings, and the bounds that
-- finite ones have after `from_env`. Reading and checking the environment is left out, and so are the metrics settings.
use local_network_kafka_moni.Base.{ℕ, String, ◌≡◌, true, false, ◌≤◌}
use local_network_kafka_moni.Base.Number.{Number}

pub record ClassifierConfig (R : Type 0) : Type 0 where
  pub bootstrap_servers : String
  pub database_url : String
  pub client_id : String
  pub lookback_seconds : ℕ
  pub interval_seconds : R
  pub minimum_samples : ℕ
  pub open_observations : ℕ
  pub resolve_observations : ℕ
  pub healthy_success_rate_pct : R
  pub failed_success_rate_pct : R
  pub high_latency_ms : R
  pub high_packet_loss_pct : R
  pub weak_signal_dbm : R
  pub heartbeat_stale_seconds : ℕ
  pub delivery_timeout_seconds : R

module _ {R : Type 0} ⦃num : Number R⦄ where
  -- The bounds that the checks at the end of `from_env` are for, on finite settings: the counts and windows are at least
  -- one, the intervals, timeouts and the latency threshold above zero, the success thresholds in order within 0..100, the
  -- loss threshold within 0..100 and the signal threshold within -120..0.
  pub record IsValid (c : ClassifierConfig R) : Type 0 where
    pub lookback : 1 ≤ c.lookback_seconds
    pub samples : 1 ≤ c.minimum_samples
    pub opens : 1 ≤ c.open_observations
    pub resolves : 1 ≤ c.resolve_observations
    pub stale : 1 ≤ c.heartbeat_stale_seconds
    pub interval : num.leb c.interval_seconds (num.of_ℕ 0) ≡ false
    pub timeout : num.leb c.delivery_timeout_seconds (num.of_ℕ 0) ≡ false
    pub failed_nonneg : num.leb (num.of_ℕ 0) c.failed_success_rate_pct ≡ true
    pub ordered : num.leb c.healthy_success_rate_pct c.failed_success_rate_pct ≡ false
    pub healthy_bounded : num.leb c.healthy_success_rate_pct (num.of_ℕ 100) ≡ true
    pub latency : num.leb c.high_latency_ms (num.of_ℕ 0) ≡ false
    pub loss_nonneg : num.leb (num.of_ℕ 0) c.high_packet_loss_pct ≡ true
    pub loss_bounded : num.leb c.high_packet_loss_pct (num.of_ℕ 100) ≡ true
    pub signal_floor : num.leb (num.neg (num.of_ℕ 120)) c.weak_signal_dbm ≡ true
    pub signal_nonpositive : num.leb c.weak_signal_dbm (num.of_ℕ 0) ≡ true
