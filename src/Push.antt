-- ===== src/Push.antt =====
-- server/push: the user push pipeline.
pub mod Job
pub mod Provider
pub mod Deliver
pub mod Claim
pub mod Drain
pub mod Versions
pub mod Presend
pub mod Hold
pub mod Db
pub mod Countdown
pub mod Guards
pub mod Materialize
pub mod Process
