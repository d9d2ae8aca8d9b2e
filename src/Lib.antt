-- ===== src/Lib.antt =====
-- Models of the tigerduck backend: the service that keeps a student's timetable, assignments and
-- settings in step across devices, signs devices in, and pushes reminders. Each model is translated
-- from a Python module of server/; the theorems say what makes that module correct.
--
-- The parts and where they are modelled:
-- - Prelude: Boolean tests, lists over the native numbers, and ORDER BY as a stable insertion sort.
-- - Sync.Changelog: server/sync/changelog.py and server/sync/retention.py. `Db` holds the rows of
--   user_change_log and user_sync_state; `append_change`, `read_changes` and
--   `purge_expired_changelog` are the functions of those names. `read_changes_from` takes what the
--   first of the two queries saw apart from what the second one reads. Sync.Changelog.Ordering has
--   the writers as a step relation, with one open transaction for each user.
-- - Sync.Merge: server/sync/merge.py. `Field` is a value with its stamp and device; `NameOverride`
--   has the columns of a course name.
-- - Push.Job, Push.Provider, Push.Deliver: server/push/pipeline.py with the columns of
--   server/auth/models/push.py. `deliver_round` and `send_one` are _deliver_round and _send_one.
-- - Push.Claim, Push.Drain: the same file. `claim_due_jobs`, `outranked`, `release_claimed` and
--   `recover_stale_jobs` are the queries of those names over the rows of push_jobs, the locks of
--   other transactions being a parameter; `crash_job` is the handler of _process_job;
--   `run_push_tick` is the loop, over a parameter for the work on one job.
-- - Push.Versions, Push.Presend, Push.Hold: server/push/client_versions.py, server/push/presend.py
--   and `_held_back` of the pipeline. `check_before_send` decides from the rows and, where they
--   leave it open, from the reply of Moodle, a parameter; `held_back` decides again under the job's
--   lock.
-- - Push.Db, Push.Countdown, Push.Guards, Push.Materialize: `_materialize` and its queries.
--   `guards` is what ends a round before the tokens are read, `reach` what follows; PushDb holds
--   the tables. The rows of a job in a round, and those that another round adds, share the unique
--   index of push_deliveries.
-- - Push.Process: `_process_job`, over all of these.
-- - Calendar: server/academic_calendar/terms.py, and the quiet days of the pipeline.
-- - SyncJobs.Job, SyncJobs.Claim, SyncJobs.Runs, SyncJobs.Execute: server/syncjobs/executor.py and
--   server/syncjobs/credentials.py, each transaction a function on SyncDb; `execute_job` has them
--   in order, with what other transactions do between them as parameters. SyncJobs.Provision:
--   server/syncjobs/provisioning.py and run_now of server/routes/sync_jobs.py. SyncJobs.Requests:
--   the retries of portal/app/routes/moodle/jobs.py, the deletion of
--   portal/app/routes/deregister.py, the stored credential of server/routes/auth.py and the uploads
--   of server/routes/sync/_shared.py, as writes of the same tables. SyncJobs.Steps has all of them
--   as a step relation.
-- - SyncJobs.Budget, SyncJobs.Window: server/syncjobs/budget.py and
--   server/syncjobs/availability.py.
-- - Auth.Session, Auth.Contest, Auth.Refresh, Auth.Use: server/auth/service.py and
--   server/auth/dependencies.py on the rows of auth_sessions. `linked_ids` walks as the recursive
--   query does; `refresh`, `rotate`, `rotate_again`, `settle_contest`, `require_user` and `logout`
--   are the functions of those names. Auth.Use.Later has the transactions that may come after a
--   request as a step relation.
-- - Auth.Limiter: server/auth/rate_limit.py. The dictionary of buckets is a function into options;
--   `record_attempt` is the method record.
-- - Tests: runs at concrete inputs, and each theorem at an input that meets its hypotheses.
--
-- Conventions: ids and times are natural numbers, a time being microseconds (or any other unit)
-- since an epoch, so a difference of times is written as a sum on the other side. A text that is
-- only compared is a String. A database transaction is a function on the rows it reads and writes;
-- concurrency is an explicit sequence of transactions or, where a function runs several statements,
-- of statements. Recursion is on the list or row that the code loops over. Fuel bounds the client's
-- paging loop (more than the rows to read is enough) the rounds of a push job (its max_attempts is
-- enough), the claims of a tick (more than the ids of the jobs is enough) and the walk along linked
-- sessions (the number of sessions).
--
-- Not modelled: HTTP routes and their schemas, logging and metrics, SQL other than the queries
-- named above, the providers' clients and Moodle, which enter as parameters, the second look at a
-- class for a course reminder, also a parameter, and the rest of the portal, the prompts beside its
-- retries included. What a sync run stores of assignments and courses is not part of SyncDb.
pub mod Prelude
pub mod Sync
pub mod Push
pub mod Auth
pub mod Calendar
pub mod SyncJobs
mod Tests
