-- ===== src/Trustlist.antt =====
-- acdp_verifier/trustlist.py: the versions of a pinned trust list and the one that counts at a
-- time. Times are canonical RFC 3339 texts, which Python compares as texts.
pub mod Series
pub mod Select
pub mod Bounds
pub mod Entry
pub mod Evaluate
pub mod Sorting
pub mod Verdict
pub mod Best
pub mod Used
pub mod Tests
pub mod VerdictTests
