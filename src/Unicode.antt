-- ===== src/Unicode.antt =====
-- `str.encode("utf-8")` and `str.encode("utf-16-be")` of Python, which the program calls: code points
-- to bytes, with an error at a surrogate, which no encoding has.
pub mod Encode
pub mod Binding
