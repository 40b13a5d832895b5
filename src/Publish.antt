-- ===== src/Publish.antt =====
-- internal/publish/publish.go: the publication algorithm over any platform (module Host). A method
-- runs on the state of the run and returns its result or its error with the new state; log lines
-- are left out, and each call of the platform is recorded with its answer in `log`, the latest
-- first.
pub mod Types
pub mod Exec
pub mod Check
pub mod Reconcile
pub mod Run
pub mod Log
pub mod Checked
pub mod Compared
pub mod Quiet
pub mod Final
pub mod Once
pub mod Published
pub mod Latest
pub mod Settled
pub mod Preflight
pub mod Load
pub mod Loaded
