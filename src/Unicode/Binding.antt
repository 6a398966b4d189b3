-- ===== src/Unicode/Binding.antt =====
-- What the bytes of an encoded text say of the text.
use acdp_verifier_py.Prelude.{
  ℕ, ◌+◌, ◌-◌, ◌*◌, ◌<◌, ◌≡◌, refl, inl, inr, [], ◌∷◌, ◌++◌, Bytes, Text, ltb, if◌then◌else◌, arith,
  Bool-cases, IsBytes, All-append, ◌≢◌,
}
use acdp_verifier_py.Errors.{ok, bind_inv}
use acdp_verifier_py.Unicode.Encode.{is_surrogate, IsText, utf8_char, utf8}

-- Reads one code point off the front of a byte string.
read_char : Bytes → ℕ × Bytes
read_char [] = (0, [])
read_char (b ∷ bs) =
    if ltb b 128
    then (b, bs)
    else if ltb b 224
    then two b bs
    else if ltb b 240
    then three b bs
    else four b bs
  where
    two : ℕ → Bytes → ℕ × Bytes
    two b (x ∷ bs) = ((b - 192) * 64 + (x - 128), bs)
    two b [] = (0, [])

    three : ℕ → Bytes → ℕ × Bytes
    three b (x ∷ y ∷ bs) = ((b - 224) * 4096 + (x - 128) * 64 + (y - 128), bs)
    three b _ = (0, [])

    four : ℕ → Bytes → ℕ × Bytes
    four b (x ∷ y ∷ z ∷ bs) =
        ((b - 240) * 262144 + (x - 128) * 4096 + (y - 128) * 64 + (z - 128), bs)
    four b _ = (0, [])

read_char-utf8_char : (c : ℕ) (rest : Bytes) → read_char (utf8_char c ++ rest) ≡ (c, rest)
unfolding read_char utf8_char
read_char-utf8_char c rest = ground arith

utf8_char-IsBytes : (c : ℕ) → c < 1114112 → IsBytes (utf8_char c)
unfolding utf8_char
utf8_char-IsBytes c h = ground arith

utf8_inv :
    (c : ℕ) (cs : Text) {bs : Bytes}
    → utf8 (c ∷ cs) ≡ ok bs
    → (rest : Bytes) × (utf8 cs ≡ ok rest) × (bs ≡ utf8_char c ++ rest)
unfolding utf8
utf8_inv c cs e = elim (Bool-cases (is_surrogate c)) [
  | inl surrogate ↦ cc (rw surrogate at e)
  | inr plain ↦
      let (rest, joined, encoded) = bind_inv _ (utf8 cs) (rw plain at e) in
      (rest, encoded, cc (joined))
]

utf8_char-nonempty : (c : ℕ) (rest : Bytes) → utf8_char c ++ rest ≢ []
unfolding utf8_char
utf8_char-nonempty c rest e = ground (arith, e)

pub utf8_injective : (s t : Text) (bs : Bytes) → utf8 s ≡ ok bs → utf8 t ≡ ok bs → s ≡ t
utf8_injective [] [] bs e₁ e₂ = refl
utf8_injective [] (d ∷ ds) bs e₁ e₂ =
    let (rest, encoded, joined) = utf8_inv d ds e₂ in
    let empty : bs ≡ [] = cc (e₁, utf8_nil) in
    absurd (utf8_char-nonempty d rest (cc (joined, empty)))
  where
    utf8_nil : utf8 [] ≡ ok []
    utf8_nil = unfold utf8 in refl
utf8_injective (c ∷ cs) [] bs e₁ e₂ =
    let (rest, encoded, joined) = utf8_inv c cs e₁ in
    let empty : bs ≡ [] = cc (e₂, utf8_nil) in
    absurd (utf8_char-nonempty c rest (cc (joined, empty)))
  where
    utf8_nil : utf8 [] ≡ ok []
    utf8_nil = unfold utf8 in refl
utf8_injective (c ∷ cs) (d ∷ ds) bs e₁ e₂ =
    let (rest, encoded, joined) = utf8_inv c cs e₁ in
    let (rest', encoded', joined') = utf8_inv d ds e₂ in
    let one = read_char-utf8_char c rest in
    let other = read_char-utf8_char d rest' in
    let same_char : c ≡ d = cc (one, other, joined, joined') in
    let same_rest : rest ≡ rest' = cc (one, other, joined, joined') in
    let tail = utf8_injective cs ds rest encoded (cc (encoded', same_rest)) in cc (same_char, tail)

pub utf8-IsBytes : (s : Text) (bs : Bytes) → IsText s → utf8 s ≡ ok bs → IsBytes bs
utf8-IsBytes [] bs h e = let empty : bs ≡ [] = unfold utf8 in (cc (e)) in rw empty tt
utf8-IsBytes (c ∷ cs) bs h e =
    let (rest, encoded, joined) = utf8_inv c cs e in
    rw joined (
      All-append (λ b. b < 256) (utf8_char c) rest (utf8_char-IsBytes c h.0)
        (utf8-IsBytes cs rest h.1 encoded))
