-- ===== src/Seam/Slots.antt =====
-- What framed slots say of their bytes.
use acdp_verifier_py.Prelude.{
  ℕ, ◌/◌, ◌%◌, ◌<◌, ◌≡◌, inl, inr, sym, ap, ◌∙◌, List, [], ◌∷◌, ◌++◌, Bytes, ltb, ltb→lt, length,
  append_assoc, append_injective, arith, Bool-cases,
}
use acdp_verifier_py.Errors.{Result, ok, ◌>>=◌, bind_inv}
use acdp_verifier_py.Seam.Frame.{le32, frame, Slot, framed, absent, present, slot_bytes, join_slots}

four_bytes :
    (m n : ℕ)
    → m < 4294967296
    → n < 4294967296
    → m % 256 ≡ n % 256
    → m / 256 % 256 ≡ n / 256 % 256
    → m / 65536 % 256 ≡ n / 65536 % 256
    → m / 16777216 % 256 ≡ n / 16777216 % 256
    → m ≡ n
four_bytes m n hm hn b₀ b₁ b₂ b₃ = omega arith

-- The number that four bytes stand for.
pub le32_injective :
    (m n : ℕ) (x y : Bytes) (s t : Bytes)
    → le32 m ≡ ok x
    → le32 n ≡ ok y
    → x ++ s ≡ y ++ t
    → (m ≡ n) × (s ≡ t)
unfolding le32
le32_injective m n x y s t ex ey e = elim (Bool-cases (ltb m 4294967296)) [
  | inr large ↦ cc (rw large at ex)
  | inl small ↦ elim (Bool-cases (ltb n 4294967296)) [
    | inr large ↦ cc (rw large at ey)
    | inl fits ↦
        let bytes_x = rw small at ex in
        let bytes_y = rw fits at ey in
        let b₀ : m % 256 ≡ n % 256 = cc (bytes_x, bytes_y, e) in
        let b₁ : m / 256 % 256 ≡ n / 256 % 256 = cc (bytes_x, bytes_y, e) in
        let b₂ : m / 65536 % 256 ≡ n / 65536 % 256 = cc (bytes_x, bytes_y, e) in
        let b₃ : m / 16777216 % 256 ≡ n / 16777216 % 256 = cc (bytes_x, bytes_y, e) in
        (
          four_bytes m n (ltb→lt m 4294967296 small) (ltb→lt n 4294967296 fits) b₀ b₁ b₂ b₃,
          cc (bytes_x, bytes_y, e),
        )
  ]
]

pub frame_injective :
    (a b x y s t : Bytes) → frame a ≡ ok x → frame b ≡ ok y → x ++ s ≡ y ++ t → (a ≡ b) × (s ≡ t)
unfolding frame
frame_injective a b x y s t ex ey e =
    let (m, made_x, size_x) = bind_inv _ (le32 (length a)) ex in
    let (n, made_y, size_y) = bind_inv _ (le32 (length b)) ey in
    let same_x : m ++ a ≡ x = cc (made_x) in
    let same_y : n ++ b ≡ y = cc (made_y) in
    let e' =
      sym (append_assoc m a s)
      ∙ ap (λ (z : Bytes). z ++ s) same_x
      ∙ e
      ∙ ap (λ (z : Bytes). z ++ t) (sym same_y)
      ∙ append_assoc n b t in
    let (sizes, rest) =
      le32_injective (length a) (length b) m n (a ++ s) (b ++ t) size_x size_y e' in
    append_injective a s b t sizes rest

-- Both encodings come to the same bytes.
abbrev pub Alike : Result Bytes → Result Bytes → Type 0
Alike p q = (b : Bytes) × (p ≡ ok b) × (q ≡ ok b)

abbrev pub Same : Slot → Slot → Type 0
Same (framed p) (framed q) = Alike p q
Same absent absent = Unit
Same (present p) (present q) = Alike p q
Same _ _ = ⊥

-- Slots of one kind: framed, or optional.
abbrev pub Kindred : Slot → Slot → Type 0
Kindred (framed p) (framed q) = Unit
Kindred (framed p) absent = ⊥
Kindred (framed p) (present q) = ⊥
Kindred absent (framed q) = ⊥
Kindred (present p) (framed q) = ⊥
Kindred _ _ = Unit

pub encoded_injective :
    (p q : Result Bytes) (x y s t : Bytes)
    → (p >>= frame) ≡ ok x
    → (q >>= frame) ≡ ok y
    → x ++ s ≡ y ++ t
    → Alike p q × (s ≡ t)
encoded_injective p q x y s t ex ey e =
    let (a, framed_a, encoded_a) = bind_inv frame p ex in
    let (b, framed_b, encoded_b) = bind_inv frame q ey in
    let (same, rest) = frame_injective a b x y s t framed_a framed_b e in
    ((a, encoded_a, encoded_b ∙ ap ok (sym same)), rest)

present_inv :
    (p : Result Bytes) (x : Bytes)
    → slot_bytes (present p) ≡ ok x
    → (f : Bytes) × (x ≡ 1 ∷ f) × ((p >>= frame) ≡ ok f)
unfolding slot_bytes
present_inv p x e =
    let (bytes, e₁, encoded) = bind_inv _ p e in
    let (f, made, sized) = bind_inv _ (frame bytes) e₁ in (f, cc (made), rw encoded sized)

slot_injective :
    (a b : Slot) (x y s t : Bytes)
    → Kindred a b
    → slot_bytes a ≡ ok x
    → slot_bytes b ≡ ok y
    → x ++ s ≡ y ++ t
    → Same a b × (s ≡ t)
unfolding slot_bytes
slot_injective (framed p) (framed q) x y s t k ex ey e = encoded_injective p q x y s t ex ey e
slot_injective (framed p) absent x y s t k ex ey e = absurd k
slot_injective (framed p) (present q) x y s t k ex ey e = absurd k
slot_injective absent (framed q) x y s t k ex ey e = absurd k
slot_injective absent absent x y s t k ex ey e = (tt, cc (ex, ey, e))
slot_injective absent (present q) x y s t k ex ey e =
    let (f, made, encoded) = present_inv q y ey in cc (ex, made, e)
slot_injective (present p) (framed q) x y s t k ex ey e = absurd k
slot_injective (present p) absent x y s t k ex ey e =
    let (f, made, encoded) = present_inv p x ex in cc (ey, made, e)
slot_injective (present p) (present q) x y s t k ex ey e =
    let (f, made_x, encoded_x) = present_inv p x ex in
    let (g, made_y, encoded_y) = present_inv q y ey in
    encoded_injective p q f g s t encoded_x encoded_y (cc (made_x, made_y, e))

abbrev pub AreKindred : List Slot → List Slot → Type 0
AreKindred [] [] = Unit
AreKindred [] (b ∷ bs) = ⊥
AreKindred (a ∷ more) [] = ⊥
AreKindred (a ∷ more) (b ∷ bs) = Kindred a b × AreKindred more bs

abbrev pub AreSame : List Slot → List Slot → Type 0
AreSame [] [] = Unit
AreSame [] (b ∷ bs) = ⊥
AreSame (a ∷ more) [] = ⊥
AreSame (a ∷ more) (b ∷ bs) = Same a b × AreSame more bs

pub join_slots_injective :
    (more bs : List Slot) (x : Bytes)
    → AreKindred more bs
    → join_slots more ≡ ok x
    → join_slots bs ≡ ok x
    → AreSame more bs
unfolding join_slots
join_slots_injective [] [] x k ea eb = tt
join_slots_injective [] (b ∷ bs) x k ea eb = absurd k
join_slots_injective (a ∷ more) [] x k ea eb = absurd k
join_slots_injective (a ∷ more) (b ∷ bs) x k ea eb =
    let (one, ea₁, slot_a) = bind_inv _ (slot_bytes a) ea in
    let (rest, made_a, rest_a) = bind_inv _ (join_slots more) ea₁ in
    let (two, eb₁, slot_b) = bind_inv _ (slot_bytes b) eb in
    let (last, made_b, rest_b) = bind_inv _ (join_slots bs) eb₁ in
    let joined : one ++ rest ≡ two ++ last = cc (made_a, made_b) in
    let (same, ends) = slot_injective a b one two rest last k.0 slot_a slot_b joined in
    (same, join_slots_injective more bs rest k.1 rest_a (rest_b ∙ ap ok (sym ends)))
