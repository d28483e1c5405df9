-- ===== src/Classifier.antt =====
-- services/incident-classifier: the rule engine, the lifecycle of incidents, their storage and the
-- service that runs them.
pub mod Models
pub mod Config
pub mod Engine
pub mod Lifecycle
pub mod Event
pub mod Store
pub mod Service
