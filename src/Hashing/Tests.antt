-- ===== src/Hashing/Tests.antt =====
-- Runs of hashing.py with a toy digest and toy doubles, and its theorem at two bodies.
use acdp_verifier_py.Prelude.{◌≡◌, refl, Text, text, pos}
use acdp_verifier_py.Errors.{raise, hash_mismatch, schema_violation}
use acdp_verifier_py.Crypto.{Sha256}
use acdp_verifier_py.Json.{int, float, str, Fields, end, field}
use acdp_verifier_py.Jcs.Numbers.{Doubles}
use acdp_verifier_py.Jcs.Tests.{toy_doubles}
use acdp_verifier_py.Translog.Tests.{toy}
use acdp_verifier_py.Hashing.Content.{verify_body_content_hash}

instance digest : Sha256
digest = toy

instance doubles : Doubles
doubles = toy_doubles

-- The digest of `{"a":1,"b":"x"}`.
abbrev claim : Text
claim = text "sha256:0f0f0f0f0f0f0f0f0f0f0f0f0f0f0f0f0f0f0f0f0f0f0f0f0f0f0f0f0f0f0f0f"

abbrev body : Fields
body = field (text "a") (int (pos 1)) (
    field (text "b") (str (text "x")) (
      field (text "content_hash") (str claim)
        (field (text "ctx_id") (str (text "acdp://r/1")) end)))

abbrev respelt : Fields
respelt =
    field (text "content_hash") (str claim)
      (field (text "b") (str (text "x")) (field (text "a") (float 2) end))

tampered : verify_body_content_hash (field (text "c") (int (pos 1)) body) ≡ raise hash_mismatch
unfolding verify_body_content_hash digest doubles
tampered = refl

unclaimed : verify_body_content_hash end ≡ raise schema_violation
unfolding verify_body_content_hash
unclaimed = refl
