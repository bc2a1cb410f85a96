-- ===== src/StaticGuard.antt =====
-- The filter of mutants that do not compile (comet/generators/static_guard.py).
mod Types
mod Source
mod Classpath
mod Validation
mod Filtering
mod Tests
