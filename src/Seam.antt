-- ===== src/Seam.antt =====
-- acdp_verifier/seamdecision.py: the preimage of a sealed record's digest.
pub mod Frame
pub mod Disclosure
pub mod Anchored
pub mod Slots
pub mod Binding
pub mod Participants
pub mod Tests
