-- ===== src/Tests.antt =====
-- Runs of the model at concrete values, and the theorems applied to them.
pub mod Fixtures
pub mod Access
pub mod Answers
pub mod Serving
pub mod Shown
pub mod Panels
pub mod Costs
pub mod Controls
pub mod Pages
pub mod Drawn
pub mod Forms
