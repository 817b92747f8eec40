-- ===== src/Api.antt =====
-- The client of the HTTP interface: ui/src/lib/api.ts.
pub mod Session
pub mod Headers
pub mod Http
pub mod Query
pub mod Jobs
pub mod Experiments
pub mod Triggers
pub mod Skills
pub mod Integrations
pub mod System
pub mod Approvals
pub mod Office
pub mod Health
pub mod Firing
mod Examples
