-- ===== src/Evaluation.antt =====
-- The evaluation of mutants (comet/executor/mutation_evaluator.py, KillMatrix of comet/models.py, and
-- the failed tests of comet/executor/surefire_parser.py).
mod Types
mod Verdict
mod Sandboxed
mod Builders
mod Killed
mod Executed
mod Survivors
mod Orders
mod Tests
