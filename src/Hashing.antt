-- ===== src/Hashing.antt =====
-- acdp_verifier/hashing.py: the hash of a body's own content, and the lineage of a context.
pub mod Content
pub mod Binding
pub mod Tests
