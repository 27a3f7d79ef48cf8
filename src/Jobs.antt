-- ===== src/Jobs.antt =====
-- src/server/job-*.ts: scheduled jobs. `Schedule` is when a job next runs, `Scheduler` who runs it then.
pub mod Schedule
pub mod Scheduler
