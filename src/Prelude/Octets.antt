-- ===== src/Prelude/Octets.antt =====
-- Python's `bytes` as lists of numbers below 256, their comparison, and powers of two.
use Prim.Native.Nat.{ℕ, zero, suc, ◌*◌, ◌<◌, ◌≤◌, ◌/◌}
use mathlib.Core.Path.{◌≡◌, refl}
use mathlib.Core.Logic.{◌↔◌}
use mathlib.Core.Bool.{Bool, true, false, ◌&&◌}
use mathlib.Core.List.{List, [], ◌∷◌}
use native.Mathlib.Omega.{arith}
use acdp_verifier_py.Prelude.Tests.{◌==◌, if◌then◌else◌}
use acdp_verifier_py.Prelude.Lists.{All}

abbrev pub Bytes : Type 0
Bytes = List ℕ

abbrev pub IsByte : ℕ → Type 0
IsByte b = b < 256

abbrev pub IsBytes : Bytes → Type 0
IsBytes bs = All IsByte bs

unfoldable pub bytes_eq : Bytes → Bytes → Bool
bytes_eq [] [] = true
bytes_eq [] (y ∷ ys) = false
bytes_eq (x ∷ xs) [] = false
bytes_eq (x ∷ xs) (y ∷ ys) = x == y && bytes_eq xs ys

pub bytes_eq_iff : (xs ys : Bytes) → (bytes_eq xs ys ≡ true) ↔ (xs ≡ ys)
unfolding bytes_eq
bytes_eq_iff [] [] = ((λ _. refl), (λ _. refl))
bytes_eq_iff [] (y ∷ ys) = ((λ h. cc), (λ h. cc))
bytes_eq_iff (x ∷ xs) [] = ((λ h. cc), (λ h. cc))
bytes_eq_iff (x ∷ xs) (y ∷ ys) = ground (arith, bytes_eq_iff xs ys)

-- 2 ^ j by doubling, which `omega` reads one step at a time.
abbrev pub pow2 : ℕ → ℕ
pow2 zero = 1
pow2 (suc j) = 2 * pow2 j

pub pow2_pos : (j : ℕ) → 0 < pow2 j
pow2_pos zero = omega arith
pow2_pos (suc j) = omega (arith, pow2_pos j)

-- Python's `int.bit_length`, on fuel.
unfoldable pub bit_length : ℕ → ℕ → ℕ
bit_length zero n = 0
bit_length (suc f) n = let rest = bit_length f (n / 2) in if n == 0 then 0 else suc rest

bit_length-zero : (f : ℕ) → bit_length f 0 ≡ 0
unfolding bit_length
bit_length-zero zero = refl
bit_length-zero (suc f) = refl

pub bit_length-between : (j f n : ℕ) → pow2 j ≤ n → n < 2 * pow2 j → n ≤ f → bit_length f n ≡ suc j
unfolding bit_length
bit_length-between j zero n le lt hf = absurd (omega (arith, pow2_pos j))
bit_length-between zero (suc f) n le lt hf =
    let one : n / 2 ≡ 0 = omega arith in ground (arith, bit_length-zero f, one)
bit_length-between (suc j) (suc f) n le lt hf = ground (
  arith,
  pow2_pos j,
  bit_length-between j f (n / 2) (omega arith) (omega arith) (omega (arith, pow2_pos j)),
)

pub pow2_mono : (i j : ℕ) → i ≤ j → pow2 i ≤ pow2 j
pow2_mono zero j h = omega (arith, pow2_pos j)
pow2_mono (suc i) zero h = absurd (omega arith)
pow2_mono (suc i) (suc j) h = omega (arith, pow2_mono i j (omega arith))
