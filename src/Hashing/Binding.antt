-- ===== src/Hashing/Binding.antt =====
-- What an agreed content hash says of two bodies.
use acdp_verifier_py.Prelude.{◌≡◌, Bytes}
use acdp_verifier_py.Errors.{ok}
use acdp_verifier_py.Crypto.{Sha256}
use acdp_verifier_py.Json.{Json, obj, Fields}
use acdp_verifier_py.Jcs.Numbers.{Doubles}
use acdp_verifier_py.Jcs.Serialize.{canonicalize}

module _ ⦃h : Sha256⦄ ⦃d : Doubles⦄ where
  -- A string that is hashed for a body.
  abbrev pub BodyInput : Fields → Bytes → Type 0
  BodyInput members bs = canonicalize (obj members) ≡ ok bs
