-- ===== src/Policy.antt =====
-- The limits that the server puts on the settings of a run (comet/config/policy.py).
mod Types
mod Limits
mod Bounds
mod Repeated
mod Values
mod Redaction
mod Masked
mod Uploads
mod Untouched
mod Submitted
mod Tests
