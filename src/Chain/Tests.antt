-- ===== src/Chain/Tests.antt =====
-- Runs of chain.py on a cycle of three contexts, and its theorems at them.
use acdp_verifier_py.Prelude.{
  ◌≤◌, ◌≡◌, ◌↔◌, refl, [], ◌∷◌, true, false, none, some, Text, text, length, All, pos,
}
use acdp_verifier_py.Errors.{ok, raise, value_error, key_error, attribute_error}
use acdp_verifier_py.Json.{Json, null, int, str, arr, obj, Items, nil, cons, Fields, end, field}
use acdp_verifier_py.Chain.Walk.{Limits, Walk, by_nodes, walk}
use acdp_verifier_py.Chain.Bounds.{Ends}
use acdp_verifier_py.Chain.Walked.{Bounded, walk-Bounded, walk-Ends}
use acdp_verifier_py.Chain.Limits.{Within, normalize_limits, normalize_limits-walk}
use acdp_verifier_py.Chain.Verdict.{
  Stage, Stages, ok_verdict, ok_with_caveats, unknown, refused, rank, chain, node_verdict,
}
use acdp_verifier_py.Chain.Worst.{chain-least}

-- An entry whose body has these references.
abbrev entry : Items → Json
entry refs = obj (field (text "body") (obj (field (text "derived_from") (arr refs) end)) end)

abbrev contexts : Fields
contexts =
    field (text "a")
      (entry (cons (str (text "c")) (cons (str (text "b")) (cons (str (text "c")) nil))))
      (field (text "b") (entry (cons (str (text "a")) (cons (str (text "d")) nil)))
        (field (text "c") (entry (cons (str (text "e")) nil)) (field (text "d") null end)))

abbrev limits : Limits
limits = record { max_depth = 10; max_nodes = 4; max_fanout = 100 }

abbrev walked : Walk
walked = record {
  order = text "a" ∷ text "c" ∷ text "b" ∷ text "d" ∷ [];
  depth = (text "a", 0) ∷ (text "c", 1) ∷ (text "b", 1) ∷ (text "d", 2) ∷ [];
  edges =
      (text "a", text "c" ∷ text "b" ∷ [])
      ∷ (text "b", text "a" ∷ text "d" ∷ [])
      ∷ (text "c", [])
      ∷ [];
  frontier = text "e" ∷ [];
  control = some by_nodes;
}

walk_run : walk limits contexts (text "a" ∷ []) ≡ ok walked
unfolding walk
walk_run = refl

walk_without_body : walk limits (field (text "a") (obj end) end) (text "a" ∷ []) ≡ raise key_error
unfolding walk
walk_without_body = refl

walk_of_text :
    walk limits
      (field (text "a") (obj (field (text "body") (str (text "x")) end)) end)
      (text "a" ∷ [])
    ≡ raise attribute_error
unfolding walk
walk_of_text = refl

walk-Bounded_example :
    Bounded limits contexts
      (text "a" ∷ [])
      (text "a" ∷ text "c" ∷ text "b" ∷ text "d" ∷ [])
      ((text "a", 0) ∷ (text "c", 1) ∷ (text "b", 1) ∷ (text "d", 2) ∷ [])
walk-Bounded_example = walk-Bounded limits contexts (text "a" ∷ []) walked walk_run

walk-Ends_example : Ends contexts (walk limits contexts (text "a" ∷ []))
walk-Ends_example = walk-Ends limits contexts (text "a" ∷ [])

abbrev asked : Json
asked = obj (field (text "max_nodes") (int (pos 4)) end)

limits_taken : normalize_limits asked ≡ ok limits
unfolding normalize_limits
limits_taken = refl

limit_too_large :
    normalize_limits (obj (field (text "max_nodes") (int (pos 501)) end)) ≡ raise value_error
unfolding normalize_limits
limit_too_large = refl

normalize_limits-walk_example : (length walked.order ≤ 500) × Within limits
normalize_limits-walk_example =
    normalize_limits-walk asked limits contexts (text "a" ∷ []) walked limits_taken walk_run

abbrev plain : Text → Stage
plain value = record {
  value = value;
  basis = some (text "pinned");
  evidence_time = some (text "t");
  key_status = none;
}

abbrev stages : Text → Stages
stages key =
    (text "presence", plain (text "present"))
    ∷ (text "identity", plain (text "bound"))
    ∷ (text "content_hash", plain (text "match"))
    ∷ (text "signature", plain (text "valid"))
    ∷ (text "key", plain key)
    ∷ (text "key_revocation", plain (text "not-revoked"))
    ∷ (text "registry_receipt", plain (text "ok"))
    ∷ (text "retraction", plain (text "retracted"))
    ∷ (text "log", plain (text "ok"))
    ∷ []

stands_with_caveats :
    node_verdict (stages (text "current")) true ≡ ok (ok_with_caveats, text "retracted" ∷ [])
unfolding node_verdict
stands_with_caveats = refl

key_revoked : node_verdict (stages (text "revoked")) true ≡ ok (refused, text "retracted" ∷ [])
unfolding node_verdict
key_revoked = refl

chain-least_example : (rank (chain (ok_verdict ∷ ok_with_caveats ∷ []) false) ≤ rank unknown) ↔ (
    All (λ u. rank u ≤ rank unknown) (ok_verdict ∷ ok_with_caveats ∷ [])
    × (false ≡ false → 2 ≤ rank unknown))
chain-least_example = chain-least (ok_verdict ∷ ok_with_caveats ∷ []) false unknown
