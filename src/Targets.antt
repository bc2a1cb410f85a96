-- ===== src/Targets.antt =====
-- The choice of the method to test next (comet/agent/target_selector.py, class TargetSelector, with
-- the queries of comet/store/database.py that it reads). What the rows of the database hold, the
-- files of the project and the analysis of a Java file are fields of the selector; the number that
-- `random.choice` draws is an argument. A target is the dictionary that is returned, without the
-- numbers that go with the choice for display.
mod Types
mod Methods
mod Strategies
mod Scanning
mod Allowed
mod ByKillrate
mod Chosen
mod Complete
mod Draws
mod Tests
pub use Types.{
  Method, described, bare, Coverage, MutantGroup, MutantStat, Selector, Criteria, coverage,
  killrate, mutations, priority, random, other, Target, Selection, chosen, nothing, value_error,
}
