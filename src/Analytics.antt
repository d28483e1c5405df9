-- ===== src/Analytics.antt =====
-- services/analytics: the warehouse of daily figures, its reconciliation with the sources, and the
-- workflow that runs both.
pub mod Models
pub mod Sources
pub mod Warehouse
pub mod Refresh
pub mod Reconcile
pub mod Reporting
pub mod Quality
pub mod Selection
pub mod Workflow
pub mod Tableau
