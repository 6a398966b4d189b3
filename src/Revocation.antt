-- ===== src/Revocation.antt =====
-- acdp_verifier/revocation.py: statements that revoke a key, and the boundary that they draw.
pub mod Statement
pub mod Boundary
pub mod Tests
