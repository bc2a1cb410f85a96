-- ===== src/Runs.antt =====
-- The lifecycle and the scheduler of runs (comet/web/run_service.py, class RunLifecycleService).
-- Each method is a function on the service; those that look a run up give `none` for the KeyError
-- of a run that is not there. Times are numbers, and the clock's reading is an argument. Not
-- modelled: the files of a run, its request, its event bus, and the contents of a snapshot beyond
-- the session's own fields.
mod Types
mod Store
mod Records
mod Queue
mod Scheduler
mod Lifecycle
mod Lookup
mod Limits
mod Claims
mod Dispatching
mod Steps
mod Keeps
mod Reached
mod Exhausted
mod StaysEnded
mod Ended
mod Tests
pub use Types.{
  Status, created, pending, starting, running, cancelling, completed, failed, cancelled, stale,
  is_active, is_pending, Policy, Session, RunRecord, Snapshot, Thread, launched, executing, ended,
  Service, same_user,
}
