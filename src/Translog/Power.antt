-- ===== src/Translog/Power.antt =====
-- The test for a power of two in `verify_consistency`: `first == 1 << (first.bit_length() - 1)`.
use acdp_verifier_py.Prelude.{
  ℕ, zero, suc, ◌-◌, ◌^◌, ◌≡◌, refl, true, false, arith, pow2, pow2_pos, bit_length-between, ==_iff,
}
use native.Mathlib.Nat.{pow-suc}
use acdp_verifier_py.Translog.Verify.{is_power_of_two}
use acdp_verifier_py.Translog.Linked.{Between}

pow2-pow : (j : ℕ) → 2 ^ j ≡ pow2 j
pow2-pow zero = refl
pow2-pow (suc j) = omega (arith, pow-suc 2 j, pow2-pow j)

pub is_power_of_two-pow2 : (j : ℕ) → is_power_of_two (pow2 j) ≡ true
unfolding is_power_of_two
is_power_of_two-pow2 j =
    let e : suc j - 1 ≡ j = omega arith in
    rw (
      bit_length-between j (pow2 j) (pow2 j) (omega arith) (omega (arith, pow2_pos j))
          (omega arith),
      e,
      pow2-pow,
      (==_iff (pow2 j) (pow2 j)).1 refl,
    )

pub is_power_of_two-Between : (m : ℕ) → Between m → is_power_of_two m ≡ false
unfolding is_power_of_two
is_power_of_two-Between m (j, lo, hi) =
    let e : suc j - 1 ≡ j = omega arith in
    rw (bit_length-between j m m (omega arith) hi (omega arith), e, pow2-pow) (ground (arith, lo))
