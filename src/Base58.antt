-- ===== src/Base58.antt =====
-- acdp_verifier/base58.py: the multibase `z` alphabet. Bytes and characters are numbers.
pub mod Codec
pub mod Numeral
pub mod Parse
pub mod Alphabet
pub mod ToBytes
pub mod RoundTrip
pub mod Tests
