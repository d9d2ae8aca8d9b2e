-- ===== src/Tests.antt =====
-- Runs on concrete inputs, and the theorems at inputs that meet their hypotheses.
mod ChangelogRuns
mod MergeRuns
mod DeliverRuns
mod ClaimRuns
mod AuthRuns
mod LimiterRuns
mod PresendRuns
mod MaterializeRuns
mod SyncJobRuns
