-- ===== src/Chain/Walked.antt =====
-- The walk as a whole.
use acdp_verifier_py.Prelude.{
  ℕ, zero, suc, ◌+◌, ◌≤◌, ◌≡◌, refl, sym, ap, List, [], ◌∷◌, ◌++◌, Text, leb, length, if◌then◌else◌,
  All, arith, Bool-cases, inl, inr,
}
use mathlib.Core.Path.{subst}
use acdp_verifier_py.Errors.{ok, bind_inv}
use acdp_verifier_py.Json.{Fields}
use acdp_verifier_py.Chain.Walk.{
  Limits, Walking, Walk, cut, admit, by_nodes, start_roots, visit_nodes, sorted_utf8, new_level,
  levels, start, walk, lasting_cuts, cut_texts,
}
use acdp_verifier_py.Chain.Reach.{Reach, Reached, Sound, start-Sound, visit_nodes-Sound}
use acdp_verifier_py.Chain.Bounds.{
  Ends, returns, Ends-bind, sorted_utf8-All, sorted_utf8-Ends, levels-Ends,
}

-- Each root that is kept is in the order and on the first level.
start_roots-level :
    (limits : Limits) (rs : List Text) (w : Walking)
    → w.order ≡ w.next_level
    → (start_roots limits rs w).order ≡ (start_roots limits rs w).next_level
unfolding start_roots
start_roots-level limits [] w e = e
start_roots-level limits (r ∷ rs) w e = start_roots-level limits rs _ one
  where
    one :
        (if leb limits.max_nodes (length w.order) then cut by_nodes r w else admit 0 r w).order
        ≡ (if leb limits.max_nodes (length w.order)
            then cut by_nodes r w
            else admit 0 r w).next_level
    one = elim (Bool-cases (leb limits.max_nodes (length w.order))) [
      | inl full ↦ rw full (unfold cut in e)
      | inr room ↦ rw room (unfold admit in ap (λ (ts : List Text). ts ++ r ∷ []) e)
    ]

module _ (limits : Limits) (contexts : Fields) (roots : List Text) where
  abbrev pub Bounded : List Text → List (Text × ℕ) → Type 0
  Bounded order depth =
      (length order ≤ limits.max_nodes) × All (Reached limits contexts roots) depth

  levels-Bounded :
      (f d : ℕ) (level : List Text) (w v : Walking)
      → Bounded w.order w.depth
      → All (λ n. Reach contexts roots n d) level
      → levels f limits contexts d level w ≡ ok v
      → Bounded v.order v.depth
  unfolding levels
  levels-Bounded f d [] w v s reach e = let same : w ≡ v = cc (e) in rw (sym same) s
  levels-Bounded zero d (n ∷ ns) w v s reach e = cc (e)
  levels-Bounded (suc f) d (n ∷ ns) w v s reach e =
      let (nodes, e₁, sorted) = bind_inv _ (sorted_utf8 (n ∷ ns)) e in
      let (visited, e₂, went) = bind_inv _ (visit_nodes limits contexts d nodes (new_level w)) e₁ in
      let reach' = sorted_utf8-All (λ n. Reach contexts roots n d) (n ∷ ns) nodes reach sorted in
      let fresh : Sound limits contexts roots (suc d) (new_level w) =
        unfold new_level in record { size = s.0; reached = s.1; next = tt } in
      let sound =
        visit_nodes-Sound limits contexts roots d nodes (new_level w) visited fresh reach' went in
      levels-Bounded f (suc d) visited.next_level visited v (sound.size, sound.reached) sound.next
        e₂

  -- A walk that returns has at most `max_nodes` nodes in its order, and each node of the depth table
  -- lies at most `max_depth` deep and is reached from a root by that many references.
  pub walk-Bounded : (w : Walk) → walk limits contexts roots ≡ ok w → Bounded w.order w.depth
  unfolding walk
  walk-Bounded w e =
      let s = start-Sound limits contexts roots in
      let (v, e₁, walked) =
        bind_inv _
          (levels (2 + limits.max_depth) limits contexts 0 (start limits roots).order
            (start limits roots))
          e in
      let (frontier, made, _) =
        bind_inv _ (sorted_utf8 (cut_texts (lasting_cuts v.depth v.cuts))) e₁ in
      let same_level : (start limits roots).order ≡ (start limits roots).next_level =
        unfold start in (start_roots-level limits roots _ refl) in
      let on_level = subst (All (λ n. Reach contexts roots n 0)) (sym same_level) s.next in
      let bounded =
        levels-Bounded (2 + limits.max_depth) 0 (start limits roots).order (start limits roots) v
          (s.size, s.reached) on_level walked in
      let order : v.order ≡ w.order = cc (made) in
      let depth : v.depth ≡ w.depth = cc (made) in
      (rw order at bounded.0, subst (All (Reached limits contexts roots)) depth bounded.1)

  -- The walk comes to an end on any contexts, with cycles or without: it returns, it raises the
  -- ValueError of a name that UTF-8 cannot encode, or it raises what reading the references of one
  -- of the contexts raises. This is about the loops of `_walk`, without its call of `_cycle_nodes`.
  pub walk-Ends : Ends contexts (walk limits contexts roots)
  unfolding walk
  walk-Ends =
      Ends-bind
        (levels (2 + limits.max_depth) limits contexts 0 (start limits roots).order
          (start limits roots))
        _
        (levels-Ends limits contexts (2 + limits.max_depth) 0 (start limits roots).order
          (start limits roots) (omega arith) (omega arith))
        (λ v.
          Ends-bind (sorted_utf8 (cut_texts (lasting_cuts v.depth v.cuts))) _
            (sorted_utf8-Ends (cut_texts (lasting_cuts v.depth v.cuts))) (λ ts. returns _ refl))
