-- ===== src/Service.antt =====
-- internal/core/service: the workflows of the firewall.
pub mod Bundles
pub mod Calls
pub mod Context
pub mod Effects
pub mod Enrichment
pub mod Ingest
pub mod Jobs
pub mod Notifier
pub mod Triple
pub mod Policies
pub mod Requests
pub mod Snapshot
pub mod Tenants
pub mod Upstreams
pub mod Worker
pub mod Lookup
pub mod Prepare
pub mod Access
mod ControlTests
mod GraphTests
mod Tests
