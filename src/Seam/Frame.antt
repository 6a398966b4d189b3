-- ===== src/Seam/Frame.antt =====
-- seamdecision.py: `_frame`, `_opt`, `participants_digest`, `preimage_v4` and `record_digest_v4`.
use acdp_verifier_py.Prelude.{
  ℕ, ◌/◌, ◌%◌, List, [], ◌∷◌, ◌++◌, Option, none, some, Bytes, Text, text, ltb, length,
  if◌then◌else◌, ℤ, pos, negsuc,
}
use acdp_verifier_py.Errors.{Result, ok, raise, ◌>>=◌, value_error, struct_error}
use acdp_verifier_py.Crypto.{Sha256}
use acdp_verifier_py.Unicode.Encode.{utf8}

-- `struct.pack("<I", n)`
unfoldable pub le32 : ℕ → Result Bytes
le32 n =
    if ltb n 4294967296
    then ok ((n % 256) ∷ (n / 256 % 256) ∷ (n / 65536 % 256) ∷ (n / 16777216 % 256) ∷ [])
    else raise struct_error

-- `struct.pack("<Q", n)`
unfoldable pub le64 : ℤ → Result Bytes
le64 (pos n) =
    if ltb n 18446744073709551616
    then ok (
        (n % 256)
        ∷ (n / 256 % 256)
        ∷ (n / 65536 % 256)
        ∷ (n / 16777216 % 256)
        ∷ (n / 4294967296 % 256)
        ∷ (n / 1099511627776 % 256)
        ∷ (n / 281474976710656 % 256)
        ∷ (n / 72057594037927936 % 256)
        ∷ [])
    else raise struct_error
le64 (negsuc n) = raise struct_error

-- `value.encode("ascii")`
unfoldable pub ascii : Text → Result Bytes
ascii [] = ok []
ascii (c ∷ cs) = if ltb c 128 then (ascii cs >>= λ rest. ok (c ∷ rest)) else raise value_error

unfoldable pub frame : Bytes → Result Bytes
unfolding le32
frame bytes = do size ← le32 (length bytes); ok (size ++ bytes)

-- A slot of the preimage, with the encoding that makes its bytes.
pub data Slot : Type 0 where
  framed : Result Bytes → Slot
  absent : Slot
  present : Result Bytes → Slot

-- `_frame` and `_opt` on what the encoding comes to.
unfoldable pub slot_bytes : Slot → Result Bytes
unfolding frame
slot_bytes (framed encoding) = encoding >>= frame
slot_bytes absent = ok (0 ∷ [])
slot_bytes (present encoding) = do bytes ← encoding; rest ← frame bytes; ok (1 ∷ rest)

-- `b"".join(...)`, the slots made in their order
unfoldable pub join_slots : List Slot → Result Bytes
unfolding slot_bytes
join_slots [] = ok []
join_slots (s ∷ ss) = do one ← slot_bytes s; rest ← join_slots ss; ok (one ++ rest)

-- `_opt(_utf8(value))` and `_opt(value)`
unfoldable pub opt_text : Option Text → Slot
unfolding utf8
opt_text none = absent
opt_text (some t) = present (utf8 t)

unfoldable pub opt_bytes : Option Bytes → Slot
opt_bytes none = absent
opt_bytes (some b) = present (ok b)

pub record SealedRecordV4 : Type 0 where
  pub decision_id : Text
  pub tenant : Text
  pub namespace : Text
  pub ciphertext_digest : Bytes
  pub sealed_at : ℤ
  pub outcome : Text
  pub mode : Option Text
  pub policy_version : Option Text
  pub supersedes : Option Text
  pub context_digest : Bytes
  pub participation_digest : Bytes
  pub policy_rules_digest : Option Bytes
  pub classification : Text
  pub participants_digest : Bytes
  pub trust_basis_commitment : Text
  pub auth_method : Text

unfoldable pub slots : SealedRecordV4 → List Slot
unfolding utf8 ascii opt_text opt_bytes le64 le32
slots r =
    framed (ascii (text "seam.audit.record-digest.v4"))
    ∷ framed (utf8 r.decision_id)
    ∷ framed (utf8 r.tenant)
    ∷ framed (utf8 r.namespace)
    ∷ framed (ok r.ciphertext_digest)
    ∷ framed (le64 r.sealed_at)
    ∷ framed (utf8 r.outcome)
    ∷ opt_text r.mode
    ∷ opt_text r.policy_version
    ∷ opt_text r.supersedes
    ∷ framed (ok r.context_digest)
    ∷ framed (ok r.participation_digest)
    ∷ opt_bytes r.policy_rules_digest
    ∷ framed (utf8 r.classification)
    ∷ framed (ok r.participants_digest)
    ∷ framed (ascii r.trust_basis_commitment)
    ∷ framed (utf8 r.auth_method)
    ∷ framed (le32 4)
    ∷ []

unfoldable pub preimage_v4 : SealedRecordV4 → Result Bytes
unfolding join_slots slots
preimage_v4 r = join_slots (slots r)

-- `_frame(pid.encode("utf-8"))` for each participant
unfoldable pub join_participants : List Text → Result Bytes
unfolding utf8 frame
join_participants [] = ok []
join_participants (p ∷ ps) = do
  bytes ← utf8 p
  one ← frame bytes
  rest ← join_participants ps
  ok (one ++ rest)

-- The parts, behind the framed domain.
unfoldable pub behind_domain : Result Bytes → List Text → Result Bytes
unfolding le32 join_participants
behind_domain domain ids = do
  head ← domain
  count ← le32 (length ids)
  rest ← join_participants ids
  ok (head ++ (count ++ rest))

unfoldable pub participants_preimage : List Text → Result Bytes
unfolding ascii frame behind_domain
participants_preimage ids = behind_domain (ascii (text "seam.audit.participants.v4") >>= frame) ids

module _ ⦃h : Sha256⦄ where
  unfoldable pub record_digest_v4 : SealedRecordV4 → Result Bytes
  unfolding preimage_v4
  record_digest_v4 r = preimage_v4 r >>= λ b. ok (h.sha256 b)

  unfoldable pub participants_digest_of : List Text → Result Bytes
  unfolding participants_preimage
  participants_digest_of ids = participants_preimage ids >>= λ b. ok (h.sha256 b)
