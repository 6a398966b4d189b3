-- ===== src/Times.antt =====
-- acdp_verifier/timeutil.py: timestamps. What `\d`, `int` and `strptime` do is Python's and a parameter.
pub mod Parse
pub mod Tests
