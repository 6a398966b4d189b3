-- ===== src/DidKey/Resolve.antt =====
-- didkey.py: the DIDs of keys, and the resolution of a DID URL to its key.
use acdp_verifier_py.Prelude.{
  partition, ℕ, [], ◌∷◌, ◌++◌, Bytes, Text, text, bytes_eq, starts_with, ◌==◌, if◌then◌else◌,
  length, drop,
}
use acdp_verifier_py.Errors.{
  Error, Result, ok, raise, out_of_fuel, ◌>>=◌, ◌>>◌, require, refuse, value_error,
  key_resolution_failed, key_not_authorized, invalid_signature,
}
use acdp_verifier_py.Base58.Codec.{b58encode, b58decode}

abbrev pub multicodec_ed25519 : Bytes
multicodec_ed25519 = 237 ∷ 1 ∷ []

abbrev pub multicodec_p256 : Bytes
multicodec_p256 = 128 ∷ 36 ∷ []

abbrev pub ed25519 : Text
ed25519 = text "ed25519"

abbrev pub ecdsa_p256 : Text
ecdsa_p256 = text "ecdsa-p256"

pub record ResolvedKey : Type 0 where
  pub algorithm : Text
  pub public_key : Bytes

unfoldable pub did_key_from_ed25519 : Bytes → Result Text
did_key_from_ed25519 raw_public_key = do
  require (length raw_public_key == 32) value_error
  ok (text "did:key:z" ++ b58encode (multicodec_ed25519 ++ raw_public_key))

unfoldable pub did_key_from_p256_compressed : Bytes → Result Text
did_key_from_p256_compressed point = do
  require (length point == 33) value_error
  ok (text "did:key:z" ++ b58encode (multicodec_p256 ++ point))

-- `except ValueError as exc: raise KeyResolutionFailed(...) from exc`
unfoldable pub base58_error : Error → Error
base58_error value_error = key_resolution_failed
base58_error e = e

unfoldable pub base58_payload : Result Bytes → Result Bytes
unfolding base58_error
base58_payload (ok decoded) = ok decoded
base58_payload (raise e) = raise (base58_error e)
base58_payload out_of_fuel = out_of_fuel

-- The length of a key under its algorithm, and the resolved key.
unfoldable pub sized_key : Text → ℕ → Bytes → Result ResolvedKey
sized_key algorithm key_length key = do
  require (length key == key_length) key_resolution_failed
  ok (record { algorithm = algorithm; public_key = key })

-- The multicodec prefix of a payload.
unfoldable pub typed_key : Bytes → Result ResolvedKey
unfolding starts_with sized_key
typed_key decoded =
    if starts_with decoded multicodec_ed25519
    then sized_key ed25519 32 (drop 2 decoded)
    else if starts_with decoded multicodec_p256
    then sized_key ecdsa_p256 33 (drop 2 decoded)
    else raise key_resolution_failed

unfoldable pub decode_method_specific_id : Text → Result ResolvedKey
unfolding starts_with base58_payload typed_key
decode_method_specific_id msid = do
  require (starts_with msid (text "z")) key_resolution_failed
  decoded ← base58_payload (b58decode (drop 1 msid))
  typed_key decoded

-- The checks of step 1 on the parts of a DID URL; the method-specific identifier.
unfoldable pub parse_did_url : Text → Text → Result Text
unfolding partition bytes_eq starts_with
parse_did_url agent_id key_id = do
  let parts = partition 35 key_id
  require parts.found key_resolution_failed
  refuse (bytes_eq parts.after []) key_resolution_failed
  require (starts_with parts.before (text "did:key:")) key_resolution_failed
  let msid = drop 8 parts.before
  refuse (bytes_eq msid []) key_resolution_failed
  require (bytes_eq parts.after msid) key_resolution_failed
  require (bytes_eq parts.before agent_id) key_not_authorized
  ok msid

unfoldable pub resolve_did_key : Text → Text → Text → Result ResolvedKey
unfolding parse_did_url decode_method_specific_id bytes_eq
resolve_did_key agent_id key_id signature_algorithm = do
  msid ← parse_did_url agent_id key_id
  resolved ← decode_method_specific_id msid
  require (bytes_eq signature_algorithm resolved.algorithm) invalid_signature
  ok resolved
