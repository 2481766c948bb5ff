-- ===== src/Drain.antt =====
-- retinue/adhoc_drain.py: one pass of the scheduler drain over a repository's labeled issues.
pub mod Types
pub mod Plan
pub mod Select
pub mod Build
pub mod Pass
pub mod Verdicts
pub mod Effects
pub mod Chosen
pub mod Justified
pub mod Calls
pub mod Spending
pub mod Capped
pub mod Flight
