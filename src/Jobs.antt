-- ===== src/Jobs.antt =====
-- The page of the jobs: ui/src/app/jobs/page.tsx. Its paging is that of the runs' page too.
pub mod Paging
pub mod Stats
pub mod Versions
mod Examples
