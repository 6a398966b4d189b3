-- ===== src/Prelude/Order.antt =====
-- Texts in the order of their code points.
use mathlib.Core.Path.{◌≡◌, refl}
use mathlib.Core.Logic.{inl, inr}
use mathlib.Core.Bool.{true, false}
use mathlib.Core.List.{[], ◌∷◌}
use native.Mathlib.Omega.{arith}
use acdp_verifier_py.Prelude.Tests.{Bool-cases}
use acdp_verifier_py.Prelude.Texts.{Text, text_leb}

pub text_leb_refl : (a : Text) → text_leb a a ≡ true
unfolding text_leb
text_leb_refl [] = refl
text_leb_refl (x ∷ a) = ground (arith, text_leb_refl a)

pub text_leb_trans :
    (a b c : Text) → text_leb a b ≡ true → text_leb b c ≡ true → text_leb a c ≡ true
unfolding text_leb
text_leb_trans [] b c h k = refl
text_leb_trans (x ∷ a) [] c h k = cc (h)
text_leb_trans (x ∷ a) (y ∷ b) [] h k = cc (k)
text_leb_trans (x ∷ a) (y ∷ b) (z ∷ c) h k = ground (arith, h, k, text_leb_trans a b c)

pub text_leb_total : (a b : Text) → text_leb a b ≡ false → text_leb b a ≡ true
unfolding text_leb
text_leb_total [] b h = cc (h)
text_leb_total (x ∷ a) [] h = refl
text_leb_total (x ∷ a) (y ∷ b) h = ground (arith, h, text_leb_total a b)

-- c < m and m ≤ t give c < t.
pub text_lt_le : (c m t : Text) → text_leb m c ≡ false → text_leb m t ≡ true → text_leb t c ≡ false
text_lt_le c m t above le = elim (Bool-cases (text_leb t c)) [
  | inl under ↦ cc (text_leb_trans m t c le under, above)
  | inr over ↦ over
]
