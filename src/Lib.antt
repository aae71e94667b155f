-- ===== src/Lib.antt =====
-- BorgBackup Manager: the rules by which the manager lets runs and people in.
--
-- Parts. app/service.py keeps the queue of Borg runs: every run is a database row that an
-- asyncio task carries out. A queued run asks for its turn, and one plan over all live rows decides
-- (`_execution_plan`, Planner.antt, on the rows and keys of Runs.antt and Paths.antt). The claim
-- writes the status that the next plan reads (`_claim_execution_turn`, Claims.antt); an archive
-- refresh takes its turn by another test. A manual backup reserves its repository for the
-- maintenance that follows it (Chains.antt). How runs get into the queue, the maintenance after a
-- manual backup and the three phases of a schedule's group are in Queue.antt; they call the chains.
-- Work inside the process is bounded by an adjustable
-- limiter (`_AdjustableCapacity`, Capacity.antt). Which jobs a schedule starts, and that no job has
-- two, is app/schedules.py with the routes of app/main.py that write schedules and jobs
-- (Schedules.antt). The manager's own backups are tasks of app/manager_backup_progress.py
-- (BackupTasks.antt). The output of a run passes filters of app/borg_progress.py: one counts the
-- listed items (`BorgItemActivityStreamFilter`, ItemActivity.antt), one takes out the counters of
-- network interfaces (`BorgNetworkStreamFilter`, Telemetry.antt). The output is written to a log
-- file that a browser follows (app/run_logs.py, RunLogs.antt).
-- app/security_store.py keeps accounts (Accounts.antt), their sessions (Sessions.antt), the login
-- rate limit (Login.antt), the encrypted secrets (Secrets.antt) and the SSH actions of hosts
-- (SshActions.antt) in SQLite tables; the second factor of a sign-in is app/two_factor.py
-- (TwoFactor.antt).
--
-- How the code corresponds. A function of the source is a definition of the same name, without a
-- leading underscore. Tables and dictionaries are lists of rows or association lists (Dict.antt),
-- exceptions and early returns are results, and a critical section under a lock, or between two
-- suspensions of the event loop, is one function from state to state. Text.antt has Python's str as
-- a list of code points. Numbers are natural numbers; instants are microseconds on one clock. Each
-- component has its proofs in child modules and its runs in a module Tests. Prelude.antt holds what
-- all share.
--
-- Bounds. A loop is structural recursion over the list that the source iterates, but for two. The
-- loop of `BorgNetworkStreamFilter.feed` has as fuel one more than the length of its payload, and
-- each turn shortens the payload (Telemetry/Loop.antt). `_wait_for_run` polls without a bound; its
-- fuel is the number of polls (Queue/Waiting.antt). Integers are unbounded as in Python.
--
-- Threads. The routes that change or delete an account ask their questions in statements before the
-- one that writes, and in no transaction with it. Accounts/Users.antt has the questions and the write
-- apart, Accounts/Requests.antt lets other operations come between them, and Accounts/Race.antt two
-- deletions.
--
-- Awaits. Where a coroutine awaits, the rest of the manager acts: in Queue a `World` says what it
-- does, and the properties hold for every world, or for those whose acts are steps of the queue.
--
-- Parameters. Path resolution, the case and the classes of Unicode characters, SHA-256, HMAC-SHA1,
-- scrypt, the vault's encryption, the tests of storage and of access before a run, the command
-- builders, the parse of an external SSH location, the acceptance of a cron
-- expression and the encoding of text in UTF-8 are arguments of the definitions that use them.
--
-- Not modelled. The other HTTP routes (app/main.py), the construction of Borg commands
-- (app/runner.py), the execution of a command (`_execute_run_inner`) but for the status that it
-- leaves, the progress filter of app/borg_progress.py, the storage guard,
-- backup archives and caches, notifications, the browser interface and the installation scripts. Messages, log
-- lines and names shown to a user are left out, as is a locked database.
pub mod Accounts
pub mod BackupTasks
pub mod Capacity
pub mod Chains
pub mod Claims
pub mod Dict
pub mod ItemActivity
pub mod Login
pub mod Paths
pub mod Planner
pub mod Prelude
pub mod Queue
pub mod RunLogs
pub mod Runs
pub mod Schedules
pub mod Secrets
pub mod Sessions
pub mod SshActions
pub mod Telemetry
pub mod Text
pub mod TwoFactor
