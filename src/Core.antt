-- ===== src/Core.antt =====
-- The product core: identities, reports, findings, the gate and the budget of the dimensions.
pub mod Identity
pub mod Report
pub mod Failure
pub mod Findings
pub mod Gate
pub mod Evidence
pub mod Budget
pub mod Dimensions
pub mod Context
pub mod Pipeline
mod Examples
