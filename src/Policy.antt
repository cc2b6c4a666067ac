-- ===== src/Policy.antt =====
-- internal/core/policy: the policy types, their conditions, and the evaluation of a policy set.
pub mod Condition
pub mod Descriptor
pub mod Definitions
pub mod Catalog
pub mod Validate
pub mod Evaluator
pub mod Hash
mod Tests
