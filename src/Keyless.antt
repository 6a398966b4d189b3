-- ===== src/Keyless.antt =====
-- acdp_verifier/keyless.py: keyless-signed contexts, the decision over the facts that were checked,
-- the revocations that apply, the listed identities, and supersession.
pub mod Decision
pub mod Decided
pub mod Conclusion
pub mod Agreement
pub mod Signers
pub mod Lineage
pub mod Tests
