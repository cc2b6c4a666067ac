-- ===== src/Domain.antt =====
-- internal/core/domain: the data of the firewall and the operations on single values.
pub mod Message
pub mod Artifact
pub mod Dependency
pub mod Capability
pub mod Config
pub mod Policy
mod Tests
