-- ===== src/Base58/Tests.antt =====
-- Runs of base58.py, and the properties at concrete inputs.
use acdp_verifier_py.Prelude.{[], ◌∷◌, ◌≡◌, refl, arith, Bytes, IsBytes, text}
use acdp_verifier_py.Errors.{ok, raise, value_error}
use acdp_verifier_py.Base58.Codec.{b58encode, b58decode}
use acdp_verifier_py.Base58.RoundTrip.{b58decode-b58encode, b58encode-b58decode}

abbrev sample : Bytes
sample = 0 ∷ 0 ∷ 1 ∷ 255 ∷ []

sample-IsBytes : IsBytes sample
sample-IsBytes = (omega arith, (omega arith, (omega arith, (omega arith, tt))))

sample_encoded : b58encode sample ≡ text "119p"
unfolding b58encode b58decode
sample_encoded = refl

sample_decoded : b58decode (text "119p") ≡ ok sample
unfolding b58decode b58encode
sample_decoded = refl

outside_alphabet : b58decode (text "10") ≡ raise value_error
unfolding b58decode b58encode
outside_alphabet = refl

b58decode-b58encode_example : b58decode (b58encode sample) ≡ ok sample
b58decode-b58encode_example = b58decode-b58encode sample sample-IsBytes

b58encode-b58decode_example : b58encode sample ≡ text "119p"
b58encode-b58decode_example = b58encode-b58decode (text "119p") sample sample_decoded
