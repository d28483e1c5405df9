-- ===== src/Tests.antt =====
-- The theorems at concrete inputs: the numbers are hundredths, the platform and the broker are
-- simple functions.
mod Hundredths
mod Monitor
mod Outbox
mod Listing
mod Ingestion
mod Warehouse
mod Analytics
mod Tableau
