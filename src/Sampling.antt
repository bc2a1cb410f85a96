-- ===== src/Sampling.antt =====
-- The methods that a study samples (comet/web/study_sampling.py). The random generator is an argument:
-- `sample` draws k of the numbers below n, as `random.Random.sample` does.
mod Types
mod Discovery
mod Queue
mod Parts
mod Once
mod Tests
