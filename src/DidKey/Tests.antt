-- ===== src/DidKey/Tests.antt =====
-- Runs of didkey.py, and the properties at concrete inputs.
use acdp_verifier_py.Prelude.{
  ℕ, ◌++◌, ◌≡◌, ◌⊎◌, refl, arith, zero, suc, Bytes, IsBytes, Text, text, replicate,
}
use acdp_verifier_py.Errors.{ok, raise, key_resolution_failed}
use acdp_verifier_py.Base58.Codec.{b58encode}
use acdp_verifier_py.DidKey.Resolve.{
  ResolvedKey, multicodec_ed25519, ed25519, ecdsa_p256, did_key_from_ed25519,
  did_key_from_p256_compressed, resolve_did_key, typed_key,
}
use acdp_verifier_py.DidKey.RoundTrip.{
  did_url, resolve_payload, resolve_did_key-did_key_from_ed25519,
  resolve_did_key-did_key_from_p256_compressed,
}
use acdp_verifier_py.DidKey.Sound.{resolve_did_key_sound}

abbrev key : Bytes
key = replicate 32 7

abbrev point : Bytes
point = replicate 33 2

sevens-IsBytes : (n : ℕ) → IsBytes (replicate n 7)
sevens-IsBytes zero = tt
sevens-IsBytes (suc n) = (omega arith, sevens-IsBytes n)

twos-IsBytes : (n : ℕ) → IsBytes (replicate n 2)
twos-IsBytes zero = tt
twos-IsBytes (suc n) = (omega arith, twos-IsBytes n)

abbrev key_did : Text
key_did = text "did:key:z6Mkevh7bMWWUda468bFjfFGtDxLXgkG8L46bsaXEwHD9Z3L"

no_fragment : resolve_did_key key_did key_did ed25519 ≡ raise key_resolution_failed
unfolding resolve_did_key
no_fragment = refl

resolve_did_key-did_key_from_ed25519_example :
    (did : Text) × (did_key_from_ed25519 key ≡ ok did)
    × (resolve_did_key did (did_url did) ed25519
        ≡ ok (record { algorithm = ed25519; public_key = key }))
resolve_did_key-did_key_from_ed25519_example =
    resolve_did_key-did_key_from_ed25519 key (sevens-IsBytes 32) refl

resolve_did_key-did_key_from_p256_compressed_example :
    (did : Text) × (did_key_from_p256_compressed point ≡ ok did)
    × (resolve_did_key did (did_url did) ecdsa_p256
        ≡ ok (record { algorithm = ecdsa_p256; public_key = point }))
resolve_did_key-did_key_from_p256_compressed_example =
    resolve_did_key-did_key_from_p256_compressed point (twos-IsBytes 33) refl

abbrev key_resolved : ResolvedKey
key_resolved = record { algorithm = ed25519; public_key = key }

abbrev encoded_did : Text
encoded_did = text "did:key:z" ++ b58encode (multicodec_ed25519 ++ key)

key_did_resolved : resolve_did_key encoded_did (did_url encoded_did) ed25519 ≡ ok key_resolved
key_did_resolved =
    resolve_payload (multicodec_ed25519 ++ key) key_resolved
      (omega arith, (omega arith, sevens-IsBytes 32)) (unfold typed_key in refl)

resolve_did_key_sound_example :
    (did_url encoded_did ≡ did_url encoded_did)
    × (ed25519 ≡ ed25519)
    × (((ed25519 ≡ ed25519) × (did_key_from_ed25519 key ≡ ok encoded_did))
        ⊎ ((ed25519 ≡ ecdsa_p256) × (did_key_from_p256_compressed key ≡ ok encoded_did)))
resolve_did_key_sound_example =
    resolve_did_key_sound encoded_did (did_url encoded_did) ed25519 key_resolved key_did_resolved
