-- ===== src/DidKey/RoundTrip.antt =====
-- didkey.py: from a key to its DID and back.
use acdp_verifier_py.Prelude.{
  ℕ, ◌≡◌, ◌≢◌, refl, [], ◌∷◌, ◌++◌, arith, true, false, Bytes, IsBytes, Text, text, bytes_eq,
  bytes_eq_iff, starts_with, drop, length, All-append,
}
use acdp_verifier_py.Errors.{ok}
use acdp_verifier_py.Base58.Codec.{b58encode}
use acdp_verifier_py.Base58.RoundTrip.{b58decode-b58encode}
use acdp_verifier_py.Prelude.{partition}
use acdp_verifier_py.DidKey.Resolve.{
  ResolvedKey, multicodec_ed25519, multicodec_p256, ed25519, ecdsa_p256, did_key_from_ed25519,
  did_key_from_p256_compressed, base58_payload, sized_key, typed_key, decode_method_specific_id,
  parse_did_url, resolve_did_key,
}
use acdp_verifier_py.DidKey.Encoded.{IsFree, b58encode-IsFree, partition_lem}

-- The key URL of a DID: the DID, `#` and its method-specific identifier.
abbrev pub did_url : Text → Text
did_url did = did ++ 35 ∷ drop 8 did

bytes_eq_refl : (xs : Bytes) → bytes_eq xs xs ≡ true
bytes_eq_refl xs = (bytes_eq_iff xs xs).1 refl

did_key-IsFree : IsFree 35 (text "did:key:")
did_key-IsFree = ground arith

-- The checks on a key URL whose parts are known.
parse_did_url_parts :
    (key msid : Text)
    → bytes_eq msid [] ≡ false
    → partition 35 key ≡ record { before = text "did:key:" ++ msid; found = true; after = msid }
    → parse_did_url (text "did:key:" ++ msid) key ≡ ok msid
unfolding parse_did_url starts_with bytes_eq
parse_did_url_parts key msid some_id parts = rw (parts, some_id, bytes_eq_refl msid) refl

parse_did_url_lem :
    (m : ℕ) (ms : Text)
    → IsFree 35 (m ∷ ms)
    → parse_did_url (text "did:key:" ++ m ∷ ms) (did_url (text "did:key:" ++ m ∷ ms)) ≡ ok (m ∷ ms)
parse_did_url_lem m ms free =
    parse_did_url_parts (did_url (text "did:key:" ++ m ∷ ms)) (m ∷ ms) (unfold bytes_eq in refl) (
      partition_lem 35 (text "did:key:" ++ m ∷ ms) (m ∷ ms)
        (All-append (λ c. c ≢ 35) (text "did:key:") (m ∷ ms) did_key-IsFree free))

decode_method_specific_id_lem :
    (payload : Bytes)
    → IsBytes payload
    → decode_method_specific_id (text "z" ++ b58encode payload) ≡ typed_key payload
unfolding decode_method_specific_id starts_with bytes_eq base58_payload
decode_method_specific_id_lem payload h = rw (b58decode-b58encode payload h) refl

pub resolve_payload :
    (payload : Bytes) (r : ResolvedKey)
    → IsBytes payload
    → typed_key payload ≡ ok r
    → resolve_did_key
        (text "did:key:z" ++ b58encode payload)
        (did_url (text "did:key:z" ++ b58encode payload))
        r.algorithm
      ≡ ok r
unfolding resolve_did_key
resolve_payload payload r h typed =
    rw
      (
        parse_did_url_lem 122 (b58encode payload) ((ground arith), b58encode-IsFree payload),
        decode_method_specific_id_lem payload h,
        typed,
        bytes_eq_refl r.algorithm,
      )
      refl

-- The DID that `did_key_from_ed25519` gives a 32-byte key resolves to this key.
pub resolve_did_key-did_key_from_ed25519 :
    (raw : Bytes)
    → IsBytes raw
    → length raw ≡ 32
    → (did : Text) × (did_key_from_ed25519 raw ≡ ok did)
      × (resolve_did_key did (did_url did) ed25519
          ≡ ok (record { algorithm = ed25519; public_key = raw }))
resolve_did_key-did_key_from_ed25519 raw h size = (
  text "did:key:z" ++ b58encode (multicodec_ed25519 ++ raw),
  unfold did_key_from_ed25519 in rw size refl,
  resolve_payload (multicodec_ed25519 ++ raw) (record { algorithm = ed25519; public_key = raw })
      (omega arith, (omega arith, h))
      (unfold typed_key starts_with bytes_eq sized_key in rw size refl),
)

-- The DID that `did_key_from_p256_compressed` gives a 33-byte point resolves to this point.
pub resolve_did_key-did_key_from_p256_compressed :
    (point : Bytes)
    → IsBytes point
    → length point ≡ 33
    → (did : Text) × (did_key_from_p256_compressed point ≡ ok did)
      × (resolve_did_key did (did_url did) ecdsa_p256
          ≡ ok (record { algorithm = ecdsa_p256; public_key = point }))
resolve_did_key-did_key_from_p256_compressed point h size = (
  text "did:key:z" ++ b58encode (multicodec_p256 ++ point),
  unfold did_key_from_p256_compressed in rw size refl,
  resolve_payload (multicodec_p256 ++ point) (record { algorithm = ecdsa_p256; public_key = point })
      (omega arith, (omega arith, h))
      (unfold typed_key starts_with bytes_eq sized_key in rw size refl),
)
