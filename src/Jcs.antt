-- ===== src/Jcs.antt =====
-- acdp_verifier/jcs.py: the canonical text of a JSON value (RFC 8785). The parser is Python's `json`.
pub mod Numbers
pub mod Strings
pub mod Serialize
pub mod Canon
pub mod Refinement
pub mod Lexemes
pub mod Chars
pub mod Kinds
pub mod Printed
pub mod Sorting
pub mod Texts
pub mod Binding
pub mod Alike
pub mod Reordered
pub mod Determined
pub mod Ascending
pub mod Tests
