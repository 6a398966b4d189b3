-- ===== src/Translog.antt =====
-- acdp_verifier/translog.py: the registry transparency log of RFC-ACDP-0012.
pub mod Tree
pub mod Verify
pub mod Index
pub mod Split
pub mod Root
pub mod Ascent
pub mod Inclusion
pub mod Binding
pub mod Hashed
pub mod Pair
pub mod Sound
pub mod Subproof
pub mod Linked
pub mod Power
pub mod Consistency
pub mod AppendOnly
pub mod Tests
