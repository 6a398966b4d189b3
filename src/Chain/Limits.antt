-- ===== src/Chain/Limits.antt =====
-- chain.py: `_normalize_limits`. What it raises is a ValueError.
use acdp_verifier_py.Prelude.{
  ℕ, ◌≤◌, ◌≡◌, sym, Bool, true, ◌&&◌, ◌||◌, Option, none, some, Text, text, text_eq, bytes_eq, ltb,
  if◌then◌else◌, pos, negsuc, length, List, arith, Bool-cases, inl, inr,
}
use acdp_verifier_py.Errors.{Result, ok, raise, ◌>>=◌, require, require_inv, bind_inv, value_error}
use acdp_verifier_py.Json.{Json, null, bool, int, float, str, arr, obj, Fields, end, field, get}
use acdp_verifier_py.Chain.Walk.{Limits, Walk, walk}
use acdp_verifier_py.Chain.Walked.{walk-Bounded}

-- `set(limits) <= set(DEFAULT_LIMITS)`
unfoldable pub known_names : Fields → Bool
unfolding bytes_eq
known_names end = true
known_names (field name v members) =
    (text_eq name (text "max_depth")
      || (text_eq name (text "max_nodes") || text_eq name (text "max_fanout")))
    && known_names members

-- A limit with its default and its minimum, which is not negative.
unfoldable pub checked_limit : ℕ → ℕ → Option Json → Result ℕ
checked_limit default least none = ok default
checked_limit default least (some (int (pos n))) =
    if ltb default n then raise value_error else if ltb n least then raise value_error else ok n
checked_limit default least (some (int (negsuc n))) = raise value_error
checked_limit default least (some _) = raise value_error

unfoldable pub normalize_limits : Json → Result Limits
unfolding known_names checked_limit get
normalize_limits null = ok (record { max_depth = 10; max_nodes = 500; max_fanout = 100 })
normalize_limits (obj limits) = do
  _ ← require (known_names limits) value_error
  depth ← checked_limit 10 0 (get (text "max_depth") limits)
  nodes ← checked_limit 500 1 (get (text "max_nodes") limits)
  fanout ← checked_limit 100 0 (get (text "max_fanout") limits)
  ok (record { max_depth = depth; max_nodes = nodes; max_fanout = fanout })
normalize_limits _ = raise value_error

checked_limit_inv :
    (default least : ℕ) (v : Option Json) {n : ℕ}
    → least ≤ default
    → checked_limit default least v ≡ ok n
    → (least ≤ n) × (n ≤ default)
unfolding checked_limit
checked_limit_inv default least none {n = n} h e =
    let same : default ≡ n = cc (e) in (omega (arith, same), omega (arith, same))
checked_limit_inv default least (some (int (pos m))) {n = n} h e =
    elim (Bool-cases (ltb default m)) [
      | inl above ↦ cc (rw above at e)
      | inr fits ↦ elim (Bool-cases (ltb m least)) [
        | inl below ↦ cc (rw below at (rw fits at e))
        | inr large ↦
            let same : ok m ≡ ok n = rw large at (rw fits at e) in
            let number : m ≡ n = cc (same) in
            (ground (arith, number, large), ground (arith, number, fits))
      ]
    ]
checked_limit_inv default least (some (int (negsuc m))) h e = cc (e)
checked_limit_inv default least (some null) h e = cc (e)
checked_limit_inv default least (some (bool b)) h e = cc (e)
checked_limit_inv default least (some (float x)) h e = cc (e)
checked_limit_inv default least (some (str s)) h e = cc (e)
checked_limit_inv default least (some (arr xs)) h e = cc (e)
checked_limit_inv default least (some (obj ms)) h e = cc (e)

-- The limits that are taken lie between their minima and their defaults.
abbrev pub Within : Limits → Type 0
Within l = (l.max_depth ≤ 10) × (1 ≤ l.max_nodes) × (l.max_nodes ≤ 500) × (l.max_fanout ≤ 100)

normalize_limits-Within : (options : Json) (l : Limits) → normalize_limits options ≡ ok l → Within l
unfolding normalize_limits
normalize_limits-Within null l e =
    let same : record { max_depth = 10; max_nodes = 500; max_fanout = 100 } ≡ l = cc (e) in
    rw (sym same) (omega arith, omega arith, omega arith, omega arith)
normalize_limits-Within (obj limits) l e =
    let (_, e₁) = require_inv (known_names limits) value_error _ e in
    let (depth, e₂, d) = bind_inv _ (checked_limit 10 0 (get (text "max_depth") limits)) e₁ in
    let (nodes, e₃, n) = bind_inv _ (checked_limit 500 1 (get (text "max_nodes") limits)) e₂ in
    let (fanout, made, f) = bind_inv _ (checked_limit 100 0 (get (text "max_fanout") limits)) e₃ in
    let depth_in = checked_limit_inv 10 0 (get (text "max_depth") limits) (omega arith) d in
    let nodes_in = checked_limit_inv 500 1 (get (text "max_nodes") limits) (omega arith) n in
    let fanout_in = checked_limit_inv 100 0 (get (text "max_fanout") limits) (omega arith) f in
    let same : record { max_depth = depth; max_nodes = nodes; max_fanout = fanout } ≡ l =
      cc (made) in
    rw (sym same) (depth_in.1, nodes_in.0, nodes_in.1, fanout_in.1)
normalize_limits-Within (bool b) l e = cc (e)
normalize_limits-Within (int n) l e = cc (e)
normalize_limits-Within (float x) l e = cc (e)
normalize_limits-Within (str s) l e = cc (e)
normalize_limits-Within (arr xs) l e = cc (e)

-- Whatever limits a caller asks for, a walk under those that are taken has at most 500 nodes.
pub normalize_limits-walk :
    (options : Json) (l : Limits) (contexts : Fields) (roots : List Text) (w : Walk)
    → normalize_limits options ≡ ok l
    → walk l contexts roots ≡ ok w
    → (length w.order ≤ 500) × Within l
normalize_limits-walk options l contexts roots w taken walked =
    let within = normalize_limits-Within options l taken in
    let bounded = walk-Bounded l contexts roots w walked in
    (omega (arith, bounded.0, within.2), within)
