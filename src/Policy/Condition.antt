-- ===== src/Policy/Condition.antt =====
-- internal/core/policy/condition: the conditions, one module for each file. A condition returns
-- whether it matched and why: `ok none` for (false, "", nil), `ok (some reason)` for (true, reason,
-- nil), `err e` for (false, "", e).
pub mod Age
pub mod Cvss
pub mod Judged
pub mod License
pub mod NamespaceList
pub mod MutableTag
pub mod Scorecard
