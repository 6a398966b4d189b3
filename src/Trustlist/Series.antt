-- ===== src/Trustlist/Series.antt =====
-- trustlist.py: the pins, the versions of a list, and the tests on them.
use acdp_verifier_py.Prelude.{
  ℕ, List, [], ◌∷◌, Bool, false, ◌||◌, Option, none, some, Text, bytes_eq, ltb, if◌then◌else◌,
}

pub record IssuerPin : Type 0 where
  pub issuer : Text
  pub list_id : Text
  pub issuer_key_fingerprints : Option (List Text)

-- The entries of a version are not looked at here: `Entry` is their type.
pub record ListVersion (Entry : Type 0) : Type 0 where
  pub serial : ℕ
  pub issued_at : Text
  pub valid_from : Text
  pub valid_until : Text
  pub content_hash : Text
  pub entries : List Entry
  pub ctx_id : Option Text
  pub retracted : Bool

pub data Status : Type 0 where
  used expired invalid : Status

pub record PinState (Entry : Type 0) : Type 0 where
  pub pin : IssuerPin
  pub status : Status
  pub version : Option (ListVersion Entry)
  pub reason : Option Text

pub data Outcome : Type 0 where
  trusted expired out_of_scope untrusted_registry list_invalid : Outcome

-- `PinState.outcome`
unfoldable pub outcome : Status → Option Outcome
outcome used = none
outcome expired = some expired
outcome invalid = some list_invalid

-- `[x for x in xs if test(x)]`
unfoldable pub keep_if {ℓ} : {A : Type ℓ} → (A → Bool) → List A → List A
keep_if test [] = []
keep_if test (x ∷ xs) = let rest = keep_if test xs in if test x then x ∷ rest else rest

unfoldable pub is_member : Text → List Text → Bool
unfolding bytes_eq
is_member x [] = false
is_member x (y ∷ ys) = bytes_eq x y || is_member x ys

-- `set(xs)`, as the list of its elements
unfoldable pub set_of : List Text → List Text
unfolding is_member
set_of [] = []
set_of (x ∷ xs) = let rest = set_of xs in if is_member x rest then rest else x ∷ rest

-- `floor or 0`
unfoldable pub floor_or_zero : Option ℕ → ℕ
floor_or_zero none = 0
floor_or_zero (some n) = n

unfoldable pub max : ℕ → ℕ → ℕ
max a b = if ltb a b then b else a

module _ {Entry : Type 0} where
  -- `max(v.serial for v in versions)`; a serial is never negative
  unfoldable pub max_serial : List (ListVersion Entry) → ℕ
  unfolding max
  max_serial [] = 0
  max_serial (v ∷ vs) = max v.serial (max_serial vs)

  -- `max(versions, key=lambda v: v.serial)`: the first of the highest serial
  unfoldable pub latest : ListVersion Entry → List (ListVersion Entry) → ListVersion Entry
  latest best [] = best
  latest best (v ∷ vs) = latest (if ltb best.serial v.serial then v else best) vs
