-- ===== src/Infra/NpmGraph.antt =====
-- internal/infra/npmgraph: the dependency graph of an npm lock file.
pub mod Depths
pub mod Paths
pub mod LockFile
pub mod Graph
mod Tests
