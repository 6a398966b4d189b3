-- ===== src/Seam/Binding.antt =====
-- What a preimage says of the record.
use acdp_verifier_py.Prelude.{
  ℕ, ◌/◌, ◌%◌, ◌<◌, ◌≡◌, inl, inr, refl, sym, ap, ◌∙◌, [], ◌∷◌, Option, none, some, Bytes, Text,
  ltb, ltb→lt, ℤ, pos, negsuc, arith, Bool-cases,
}
use acdp_verifier_py.Errors.{ok, bind_inv}
use acdp_verifier_py.Unicode.Encode.{utf8}
use acdp_verifier_py.Unicode.Binding.{utf8_injective}
use acdp_verifier_py.Seam.Frame.{
  le64, ascii, opt_text, opt_bytes, SealedRecordV4, slots, preimage_v4,
}
use acdp_verifier_py.Seam.Slots.{Alike, Same, Kindred, AreKindred, AreSame, join_slots_injective}

opt_text-Kindred : (a b : Option Text) → Kindred (opt_text a) (opt_text b)
unfolding opt_text
opt_text-Kindred none none = tt
opt_text-Kindred none (some t) = tt
opt_text-Kindred (some s) none = tt
opt_text-Kindred (some s) (some t) = tt

opt_bytes-Kindred : (a b : Option Bytes) → Kindred (opt_bytes a) (opt_bytes b)
unfolding opt_bytes
opt_bytes-Kindred none none = tt
opt_bytes-Kindred none (some t) = tt
opt_bytes-Kindred (some s) none = tt
opt_bytes-Kindred (some s) (some t) = tt

text_of : (s t : Text) → Alike (utf8 s) (utf8 t) → s ≡ t
text_of s t (b, es, et) = utf8_injective s t b es et

opt_text_of : (a b : Option Text) → Same (opt_text a) (opt_text b) → a ≡ b
unfolding opt_text
opt_text_of none none h = refl
opt_text_of none (some t) h = absurd h
opt_text_of (some s) none h = absurd h
opt_text_of (some s) (some t) h = ap some (text_of s t h)

opt_bytes_of : (a b : Option Bytes) → Same (opt_bytes a) (opt_bytes b) → a ≡ b
unfolding opt_bytes
opt_bytes_of none none h = refl
opt_bytes_of none (some t) h = absurd h
opt_bytes_of (some s) none h = absurd h
opt_bytes_of (some s) (some t) (b, es, et) = cc (es, et)

ascii_value : (t : Text) {b : Bytes} → ascii t ≡ ok b → t ≡ b
unfolding ascii
ascii_value [] e = cc (e)
ascii_value (c ∷ cs) {b = b} e = elim (Bool-cases (ltb c 128)) [
  | inl low ↦
      let (rest, made, encoded) = bind_inv _ (ascii cs) (rw low at e) in
      cc (ascii_value cs encoded, made)
  | inr high ↦ cc (rw high at e)
]

ascii_of : (s t : Text) → Alike (ascii s) (ascii t) → s ≡ t
ascii_of s t (b, es, et) = ascii_value s es ∙ sym (ascii_value t et)

eight_bytes :
    (m n : ℕ)
    → m < 18446744073709551616
    → n < 18446744073709551616
    → m % 256 ≡ n % 256
    → m / 256 % 256 ≡ n / 256 % 256
    → m / 65536 % 256 ≡ n / 65536 % 256
    → m / 16777216 % 256 ≡ n / 16777216 % 256
    → m / 4294967296 % 256 ≡ n / 4294967296 % 256
    → m / 1099511627776 % 256 ≡ n / 1099511627776 % 256
    → m / 281474976710656 % 256 ≡ n / 281474976710656 % 256
    → m / 72057594037927936 % 256 ≡ n / 72057594037927936 % 256
    → m ≡ n
eight_bytes m n hm hn b₀ b₁ b₂ b₃ b₄ b₅ b₆ b₇ = omega arith

le64_of : (a b : ℤ) → Alike (le64 a) (le64 b) → a ≡ b
unfolding le64
le64_of (negsuc m) b (x, ea, eb) = cc (ea)
le64_of (pos m) (negsuc n) (x, ea, eb) = cc (eb)
le64_of (pos m) (pos n) (x, ea, eb) = elim (Bool-cases (ltb m 18446744073709551616)) [
  | inr large ↦ cc (rw large at ea)
  | inl small ↦ elim (Bool-cases (ltb n 18446744073709551616)) [
    | inr large ↦ cc (rw large at eb)
    | inl fits ↦
        let bytes_m = rw small at ea in
        let bytes_n = rw fits at eb in
        let b₀ : m % 256 ≡ n % 256 = cc (bytes_m, bytes_n) in
        let b₁ : m / 256 % 256 ≡ n / 256 % 256 = cc (bytes_m, bytes_n) in
        let b₂ : m / 65536 % 256 ≡ n / 65536 % 256 = cc (bytes_m, bytes_n) in
        let b₃ : m / 16777216 % 256 ≡ n / 16777216 % 256 = cc (bytes_m, bytes_n) in
        let b₄ : m / 4294967296 % 256 ≡ n / 4294967296 % 256 = cc (bytes_m, bytes_n) in
        let b₅ : m / 1099511627776 % 256 ≡ n / 1099511627776 % 256 = cc (bytes_m, bytes_n) in
        let b₆ : m / 281474976710656 % 256 ≡ n / 281474976710656 % 256 = cc (bytes_m, bytes_n) in
        let b₇ : m / 72057594037927936 % 256 ≡ n / 72057594037927936 % 256 =
          cc (bytes_m, bytes_n) in
        ap pos (
          eight_bytes m n (ltb→lt m 18446744073709551616 small) (ltb→lt n 18446744073709551616 fits)
            b₀ b₁ b₂ b₃ b₄ b₅ b₆ b₇)
  ]
]

slots-AreKindred : (r s : SealedRecordV4) → AreKindred (slots r) (slots s)
unfolding slots
slots-AreKindred r s = (
  tt,
  (
    tt,
    (
      tt,
      (
        tt,
        (
          tt,
          (
            tt,
            (
              tt,
              (
                opt_text-Kindred r.mode s.mode,
                (
                  opt_text-Kindred r.policy_version s.policy_version,
                  (
                    opt_text-Kindred r.supersedes s.supersedes,
                    (
                      tt,
                      (
                        tt,
                        (
                          opt_bytes-Kindred r.policy_rules_digest s.policy_rules_digest,
                          (tt, (tt, (tt, (tt, (tt, tt))))),
                        ),
                      ),
                    ),
                  ),
                ),
              ),
            ),
          ),
        ),
      ),
    ),
  ),
)

bytes_of : (a b : Bytes) → Alike (ok a) (ok b) → a ≡ b
bytes_of a b (x, ea, eb) = cc (ea, eb)

same_record : (r s : SealedRecordV4) → AreSame (slots r) (slots s) → r ≡ s
unfolding slots
same_record r s
      (
        _,
        (
          decision_id,
          (
            tenant,
            (
              namespace,
              (
                ciphertext,
                (
                  sealed_at,
                  (
                    outcome,
                    (
                      mode,
                      (
                        policy,
                        (
                          supersedes,
                          (
                            context,
                            (
                              participation,
                              (rules, (classification, (participants, (trust, (auth, _))))),
                            ),
                          ),
                        ),
                      ),
                    ),
                  ),
                ),
              ),
            ),
          ),
        ),
      ) =
    let e₁ = text_of r.decision_id s.decision_id decision_id in
    let e₂ = text_of r.tenant s.tenant tenant in
    let e₃ = text_of r.namespace s.namespace namespace in
    let e₄ = bytes_of r.ciphertext_digest s.ciphertext_digest ciphertext in
    let e₅ = le64_of r.sealed_at s.sealed_at sealed_at in
    let e₆ = text_of r.outcome s.outcome outcome in
    let e₇ = opt_text_of r.mode s.mode mode in
    let e₈ = opt_text_of r.policy_version s.policy_version policy in
    let e₉ = opt_text_of r.supersedes s.supersedes supersedes in
    let f₁ = bytes_of r.context_digest s.context_digest context in
    let f₂ = bytes_of r.participation_digest s.participation_digest participation in
    let f₃ = opt_bytes_of r.policy_rules_digest s.policy_rules_digest rules in
    let f₄ = text_of r.classification s.classification classification in
    let f₅ = bytes_of r.participants_digest s.participants_digest participants in
    let f₆ = ascii_of r.trust_basis_commitment s.trust_basis_commitment trust in
    let f₇ = text_of r.auth_method s.auth_method auth in
    cc (e₁, e₂, e₃, e₄, e₅, e₆, e₇, e₈, e₉, f₁, f₂, f₃, f₄, f₅, f₆, f₇)

-- Two records with one preimage are equal: no slot can run into the next, and an absent slot is told
-- from an empty one.
pub preimage_v4_injective :
    (r s : SealedRecordV4) (b : Bytes) → preimage_v4 r ≡ ok b → preimage_v4 s ≡ ok b → r ≡ s
unfolding preimage_v4
preimage_v4_injective r s b er es =
    same_record r s (join_slots_injective (slots r) (slots s) b (slots-AreKindred r s) er es)
