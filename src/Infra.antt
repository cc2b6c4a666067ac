-- ===== src/Infra.antt =====
-- internal/infra: adapters to other systems.
pub mod DecisionCache
pub mod BlobCache
pub mod NpmGraph
pub mod Tests
