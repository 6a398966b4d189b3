-- ===== src/Crypto.antt =====
-- hashlib.sha256, which the program calls and does not implement: a function with the documented
-- form of its result, 32 bytes. No two inputs are assumed to differ in their digests; a theorem
-- that rests on that has as its other outcome a collision between strings that the program hashes.
use acdp_verifier_py.Prelude.{◌≡◌, ◌≢◌, length, Bytes, IsBytes}

-- A digest or any other string of 32 bytes.
pub record IsDigest (b : Bytes) : Type 0 where
  pub size : length b ≡ 32
  pub bytes : IsBytes b

pub record Sha256 : Type 0 where
  pub sha256 : Bytes → Bytes
  pub sha256-IsDigest : (b : Bytes) → IsBytes b → IsDigest (sha256 b)

-- Two different byte strings with one digest, the one of `P` and the other of `Q`: of the strings
-- that two runs of the program hash.
pub record Collision ⦃h : Sha256⦄ (P Q : Bytes → Type 0) : Type 0 where
  pub left : Bytes
  pub right : Bytes
  pub left_input : P left
  pub right_input : Q right
  pub differ : left ≢ right
  pub same : h.sha256 left ≡ h.sha256 right

module _ ⦃h : Sha256⦄ {P Q P' Q' : Bytes → Type 0} where
  pub Collision-map :
      ((w : Bytes) → P w → P' w) → ((w : Bytes) → Q w → Q' w) → Collision P Q → Collision P' Q'
  Collision-map f g c = record {
    left = c.left;
    right = c.right;
    left_input = f c.left c.left_input;
    right_input = g c.right c.right_input;
    differ = c.differ;
    same = c.same;
  }
