-- ===== src/Automation.antt =====
-- The automation page: ui/src/app/automation/page.tsx.
pub mod Prefix
pub mod Request
pub mod Templates
pub mod Form
pub mod Presets
pub mod Lanes
pub mod Batch
mod Examples
