-- ===== src/Lib.antt =====
-- The backend of Flux: services for contests, tournaments, problems, locks and users on a database,
-- a service that schedules operating-system tasks, and one that submits solutions to Codeforces
-- through bots.
--
-- Parts. The scheduler (internal/service/scheduler_service) launches commands within a budget of
-- CPU and memory; a request that does not fit may kill running tasks of lower priority, or waits.
-- The submission service (internal/service/submission_service) is made of components that exchange
-- mails: a manager keeps a watcher for each submission, which asks the master; the master hands the
-- submission to one of its slaves, each of which is a task of the scheduler; a slave gets a bot
-- from the bot manager; and a monitor for each bot compares what Codeforces says with the database.
-- The postman delivers the mails. The other services (internal/service) answer requests from the
-- tables of the database: contests start when a lock runs out or at a time of their own, problems
-- are seen through locks, tournaments have numbered rounds of contests, callers are authorized by
-- role or as creators, users sign up with a token, and Submit checks a submission before it mails
-- the evaluator.
--
-- Files.
-- Common: lists, maps as association lists, texts as lists of bytes, int32 arithmetic with its
--   wrap-around (wrap32, add32, sub32), tests and equality.
-- Errors: internal/flux_errors/errors.go; HandleDBErrors is handle_db_errors.
-- Scheduler/Model: models.go. Scheduler/Resources: Resources.add, greater, use and
--   validateTaskRequest. Scheduler/Signals: isAlive, killTask, KillTask, GetTaskState and
--   getTaskStateFromError. Scheduler/Plan: plan.go, as plan_prepare up to the kill and plan_commit
--   after it. Scheduler/Launch: ScheduleTask, launch, launchTask, execute, executeLongRunningTask and
--   waitForTaskComplete; its children hold the invariant of the reachable states.
-- Submission/Model: nyx_models.go and common_models.go. Submission/Postman: postman.go.
--   Submission/Monitor: cf_bot_monitor.go. Submission/BotManager: bot_manager.go.
--   Submission/Master: nyx_master.go. Submission/Watcher: the writing part of nyx_watcher.go.
--   Submission/Manager: nyx_manager.go.
-- Services/Tables: sql/schema and internal/database, the queries by file. Services/Context:
--   GetClaimsFromContext, AuthorizeUserRole, AuthorizeCreatorAccess. Services/Users: user_service, its
--   roles with their cache in Users/Roles. Services/Locks: lock_service. Services/Problems:
--   problem_service. Services/Contests: contest_service, its writes in Contests/Edit; CanSubmit and
--   submission_service/submit.go are in Contests/Submit. Services/Auth: auth_service.
--   Services/Tournaments: tournament_service with tournaments.sql.go. Their other children hold proofs.
-- The modules named Examples hold concrete runs.
--
-- Conventions. A handler is a function from the state before to the state after; a function that
-- can panic returns an Option. Goroutines are entries of lists and steps of a relation
-- (Scheduler/Launch/Invariant). Fields of Go's int32 are integers whose arithmetic wraps; UUIDs and
-- times are natural numbers. What the operating system, the clock, Codeforces and the database
-- answer is an argument. A request to a service reads one clock, and the roles of its caller are
-- those that FetchUserRoles answers during it; a query fails or not, by its name, whatever the
-- rows. An operation returns its result with the tables that it writes; a transaction that ends in
-- an error leaves the tables as they were, and a failed statement aborts it, as PostgreSQL does.
-- The validator package is a Boolean function on requests, bcrypt a pair of functions, golang-lru
-- an interface with its documented laws. Of an error of a service only the sentinel is kept, and
-- the text of GetLockById for a lock that the caller may not see. sort.Slice is an insertion sort,
-- which it is on slices of up to twelve elements.
--
-- Bounds and fuel. The retries of SignUp are fifteen, as in the source. Only deliver_mails takes
-- fuel; two rounds for each mail are enough, since a mail that cannot be delivered causes one
-- report and a report causes none. The counts of the master and the amounts of the scheduler are
-- int32; the theorems about them name the bounds that they need.
--
-- Not modelled: the capacity of channels; sockets, files and HTTP; the averages of the load
-- monitor, in floating point; the standard data of problems, still to be done; the reads by
-- filters, which page through rows, but for those by ids; Login, whose JWT is a library's; the HTTP
-- interface and the e-mails.
pub mod Common
pub mod Errors
pub mod Scheduler
pub mod Submission
pub mod Services
