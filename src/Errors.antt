-- ===== src/Errors.antt =====
-- acdp_verifier/errors.py: the exception classes and their wire codes, and the outcome of a Python
-- call that may raise. A message is a text for people and is left out. `JcsError` and
-- `ChainOptionsError`, which are ValueErrors of other files, are `value_error`.
use acdp_verifier_py.Prelude.{◌≡◌, refl, Bool, true, false, String, ◌⊎◌, inl, inr}

pub data Error : Type 0 where
  acdp_error validation_error schema_violation hash_mismatch data_ref_hash_mismatch : Error
  embedded_too_large invalid_signature key_resolution_failed key_resolution_unreachable : Error
  key_not_authorized invalid_receipt invalid_log_proof invalid_witness_cosignature : Error
  -- Python's own `ValueError`, `AssertionError`, `TypeError`, `KeyError`, `AttributeError` and
  -- `struct.error`
  value_error assertion_error type_error key_error attribute_error struct_error : Error
  -- `seamdecision.DisclosureError`, by its reason
  malformed_record inconsistent_disclosure : Error

-- The class attribute `code`; the last eight have none.
unfoldable pub code : Error → String
code acdp_error = "internal_error"
code validation_error = "schema_violation"
code schema_violation = "schema_violation"
code hash_mismatch = "hash_mismatch"
code data_ref_hash_mismatch = "data_ref_hash_mismatch"
code embedded_too_large = "embedded_too_large"
code invalid_signature = "invalid_signature"
code key_resolution_failed = "key_resolution_failed"
code key_resolution_unreachable = "key_resolution_unreachable"
code key_not_authorized = "key_not_authorized"
code invalid_receipt = "invalid_receipt"
code invalid_log_proof = "invalid_log_proof"
code invalid_witness_cosignature = "invalid_witness_cosignature"
code value_error = ""
code assertion_error = ""
code type_error = ""
code key_error = ""
code attribute_error = ""
code struct_error = ""
code malformed_record = ""
code inconsistent_disclosure = ""

-- What a call hands back. `out_of_fuel` is no Python outcome: a loop of the model ran dry.
pub data Result {ℓ} (A : Type ℓ) : Type ℓ where
  ok : A → Result A
  raise : Error → Result A
  out_of_fuel : Result A

infixl 5 ◌>>=◌ ◌>>◌
abbrev pub ◌>>=◌ {ℓ κ} : {A : Type ℓ} {B : Type κ} → Result A → (A → Result B) → Result B
ok a >>= f = f a
raise e >>= f = raise e
out_of_fuel >>= f = out_of_fuel

abbrev pub ◌>>◌ {ℓ} : {B : Type ℓ} → Result (Unit {0}) → Result B → Result B
m >> k = m >>= λ _. k

-- `if not test: raise e`
abbrev pub require : Bool → Error → Result (Unit {0})
require true e = ok tt
require false e = raise e

-- `if test: raise e`
abbrev pub refuse : Bool → Error → Result (Unit {0})
refuse true e = raise e
refuse false e = ok tt

-- Inversion of a step that succeeded.
pub bind_inv {κ ℓ} :
    {X : Type κ} {Y : Type ℓ} (next : X → Result Y) (r : Result X) {y : Y}
    → (r >>= next) ≡ ok y
    → (x : X) × (next x ≡ ok y) × (r ≡ ok x)
bind_inv next (raise _) returned = cc
bind_inv next out_of_fuel returned = cc
bind_inv next (ok x) returned = (x, returned, refl)

pub Result-cases {ℓ} :
    {A : Type ℓ} (r : Result A)
    → ((a : A) × (r ≡ ok a)) ⊎ (((e : Error) × (r ≡ raise e)) ⊎ (r ≡ out_of_fuel))
Result-cases (ok a) = inl (a, refl)
Result-cases (raise e) = inr (inl (e, refl))
Result-cases out_of_fuel = inr (inr refl)

-- A check that was passed.
pub require_inv {ℓ} :
    {Y : Type ℓ} (test : Bool) (e : Error) (next : Result Y) {y : Y}
    → (require test e >> next) ≡ ok y
    → (test ≡ true) × (next ≡ ok y)
require_inv true e next returned = (refl, returned)
require_inv false e next returned = cc

pub refuse_inv {ℓ} :
    {Y : Type ℓ} (test : Bool) (e : Error) (next : Result Y) {y : Y}
    → (refuse test e >> next) ≡ ok y
    → (test ≡ false) × (next ≡ ok y)
refuse_inv true e next returned = cc
refuse_inv false e next returned = (refl, returned)
