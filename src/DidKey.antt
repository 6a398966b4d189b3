-- ===== src/DidKey.antt =====
-- acdp_verifier/didkey.py: `did:key` resolution, over texts of code points and byte strings.
pub mod Resolve
pub mod Encoded
pub mod RoundTrip
pub mod Sound
pub mod Tests
