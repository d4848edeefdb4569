-- ===== src/Limiter.antt =====
-- src/_internal/aimd.py, src/_internal/limits.py, src/network/limiter.py, src/network/concurrency.py:
-- the rate limiters.
pub mod Limits
pub mod Adaptive
pub mod Tuning
pub mod Rates
pub mod Buckets
pub mod Starvation
