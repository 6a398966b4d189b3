-- ===== src/Chain.antt =====
-- acdp_verifier/chain.py: chains of derived contexts, the walk over what each context is derived from.
pub mod Verdict
pub mod Worst
pub mod References
pub mod Walk
pub mod Reach
pub mod Bounds
pub mod Walked
pub mod Limits
pub mod Tests
