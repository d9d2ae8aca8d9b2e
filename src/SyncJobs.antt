-- ===== src/SyncJobs.antt =====
-- server/syncjobs: the jobs that fetch a user's courses and assignments from Moodle.
pub mod Job
pub mod Claim
pub mod Runs
pub mod Execute
pub mod Provision
pub mod Requests
pub mod Budget
pub mod Window
pub mod Steps
