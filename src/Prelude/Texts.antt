-- ===== src/Prelude/Texts.antt =====
-- Python's `str` as the list of its code points.
use Prim.Native.Nat.{ℕ}
use Prim.Native.Char.{code}
use Prim.Native.String.{String}
use mathlib.Core.Bool.{Bool, true, false, ◌&&◌, ◌||◌, not}
use mathlib.Core.Logic.{◌↔◌}
use mathlib.Core.Path.{◌≡◌}
use mathlib.Core.List.{List, [], ◌∷◌}
use acdp_verifier_py.Prelude.Tests.{◌==◌, ltb, if◌then◌else◌}
use acdp_verifier_py.Prelude.Octets.{bytes_eq, bytes_eq_iff}

abbrev pub Text : Type 0
Text = List ℕ

-- The code points of a literal.
abbrev pub text : String → Text
text String.[] = []
text (String.◌∷◌ c s) = code c ∷ text s

abbrev pub text_eq : Text → Text → Bool
text_eq = bytes_eq

pub text_eq_iff : (s t : Text) → (text_eq s t ≡ true) ↔ (s ≡ t)
text_eq_iff = bytes_eq_iff

-- `text.startswith(prefix)`
unfoldable pub starts_with : Text → Text → Bool
unfolding bytes_eq
starts_with t [] = true
starts_with [] (p ∷ ps) = false
starts_with (c ∷ t) (p ∷ ps) = bytes_eq (c ∷ []) (p ∷ []) && starts_with t ps

pub record Partition : Type 0 where
  pub before : Text
  pub found : Bool
  pub after : Text

-- `text.partition(sep)` for one character `sep`
unfoldable pub partition : ℕ → Text → Partition
partition sep [] = record { before = []; found = false; after = [] }
partition sep (c ∷ cs) =
    let rest = partition sep cs in
    if c == sep
    then record { before = []; found = true; after = cs }
    else record { before = c ∷ rest.before; found = rest.found; after = rest.after }

-- `a <= b` and `a < b` on texts, by code points
unfoldable pub text_leb : Text → Text → Bool
text_leb [] b = true
text_leb (x ∷ a) [] = false
text_leb (x ∷ a) (y ∷ b) = ltb x y || (x == y && text_leb a b)

unfoldable pub text_ltb : Text → Text → Bool
unfolding text_leb
text_ltb a b = not (text_leb b a)
