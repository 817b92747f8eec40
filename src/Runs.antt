-- ===== src/Runs.antt =====
-- The page of the runs: ui/src/app/runs/page.tsx.
pub mod Stats
pub mod Filters
mod Examples
