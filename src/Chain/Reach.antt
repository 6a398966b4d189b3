-- ===== src/Chain/Reach.antt =====
-- What the walk has come to at each step: contexts that the roots are derived from, within the limits.
use acdp_verifier_py.Prelude.{
  ℕ, suc, ◌<◌, ◌≤◌, ◌≡◌, refl, sym, List, [], ◌∷◌, some, Text, text_eq, leb, length, length-append,
  if◌then◌else◌, All, All-append, arith, Bool-cases, Option, none, inl, inr,
}
use mathlib.Core.List.{Memᴰ}
use acdp_verifier_py.Errors.{ok, bind_inv}
use acdp_verifier_py.Json.{Fields}
use acdp_verifier_py.Chain.References.{refs_of}
use acdp_verifier_py.Chain.Walk.{
  Limits, Control, put, has_key, Walking, cut, cut_new, admit, start_roots, visit_ref, visit_refs,
  cut_refs, set_edges, visit_found, visit_node, visit_nodes, start, by_depth, by_nodes, by_fanout,
}

-- `Reach contexts roots n k`: a chain of k references leads from a root to n.
pub data Reach (contexts : Fields) (roots : List Text) : Text → ℕ → Type 0 where
  root : (r : Text) → Memᴰ r roots → Reach contexts roots r 0
  step :
      {n : Text} {k : ℕ}
      → Reach contexts roots n k
      → (refs : List Text) → refs_of contexts n ≡ ok (some refs)
      → (ref : Text) → Memᴰ ref refs
      → Reach contexts roots ref (suc k)

every_member {ℓ κ} :
    {A : Type ℓ} (P : A → Type κ) (xs : List A) → ((x : A) → Memᴰ x xs → P x) → All P xs
every_member P [] h = tt
every_member P (x ∷ xs) h = (h x (Memᴰ.head refl), every_member P xs (λ y m. h y (Memᴰ.tail m)))

put-All {ℓ κ} :
    {A : Type ℓ} (P : Text × A → Type κ) (k : Text) (v : A) (es : List (Text × A))
    → P (k, v)
    → All P es
    → All P (put k v es)
unfolding put
put-All P k v [] h hs = (h, tt)
put-All P k v (e ∷ es) h hs = elim (Bool-cases (text_eq e.0 k)) [
  | inl same ↦ rw same (h, hs.1)
  | inr other ↦ rw other (hs.0, put-All P k v es h hs.1)
]

module _ (limits : Limits) (contexts : Fields) (roots : List Text) where
  abbrev pub Reached : Text × ℕ → Type 0
  Reached e = e.1 ≤ limits.max_depth × Reach contexts roots e.0 e.1

  -- The state while the nodes at depth d - 1 are visited.
  pub record Sound (d : ℕ) (w : Walking) : Type 0 where
    pub size : length w.order ≤ limits.max_nodes
    pub reached : All Reached w.depth
    pub next : All (λ n. Reach contexts roots n d) w.next_level

  cut-Sound :
      (d : ℕ) (control : Control) (ref : Text) (w : Walking)
      → Sound d w
      → Sound d (cut control ref w)
  unfolding cut
  cut-Sound d control ref w s = record { size = s.size; reached = s.reached; next = s.next }

  cut_new-Sound :
      (d : ℕ) (control : Control) (ref : Text) (w : Walking)
      → Sound d w
      → Sound d (cut_new control ref w)
  unfolding cut_new
  cut_new-Sound d control ref w s = elim (Bool-cases (has_key ref w.depth)) [
    | inl known ↦ rw known s
    | inr new ↦ rw new (cut-Sound d control ref w s)
  ]

  admit-Sound :
      (d : ℕ) (ref : Text) (w : Walking)
      → Sound d w
      → length w.order < limits.max_nodes
      → d ≤ limits.max_depth
      → Reach contexts roots ref d
      → Sound d (admit d ref w)
  unfolding admit
  admit-Sound d ref w s room deep reach = record {
    size = omega (arith, length-append w.order (ref ∷ []));
    reached = put-All Reached ref d w.depth (deep, reach) s.reached;
    next = All-append _ w.next_level (ref ∷ []) s.next (reach, tt);
  }

  visit_ref-Sound :
      (d index : ℕ) (ref : Text) (w : Walking)
      → Sound (suc d) w
      → d < limits.max_depth
      → Reach contexts roots ref (suc d)
      → Sound (suc d) (visit_ref limits d index ref w).0
  unfolding visit_ref
  visit_ref-Sound d index ref w s deep reach = elim (Bool-cases (leb limits.max_fanout index)) [
    | inl wide ↦ rw wide (cut_new-Sound (suc d) by_fanout ref w s)
    | inr narrow ↦ rw narrow (elim (Bool-cases (has_key ref w.depth)) [
      | inl known ↦ rw known s
      | inr new ↦ rw new (elim (Bool-cases (leb limits.max_nodes (length w.order))) [
        | inl full ↦ rw full (cut-Sound (suc d) by_nodes ref w s)
        | inr room ↦
            rw room (admit-Sound (suc d) ref w s (ground (arith, room)) (omega arith) reach)
      ])
    ])
  ]

  visit_refs-Sound :
      (d index : ℕ) (refs : List Text) (w : Walking)
      → Sound (suc d) w
      → d < limits.max_depth
      → All (λ r. Reach contexts roots r (suc d)) refs
      → Sound (suc d) (visit_refs limits d index refs w).0
  unfolding visit_refs
  visit_refs-Sound d index [] w s deep reach = s
  visit_refs-Sound d index (ref ∷ refs) w s deep reach =
      visit_refs-Sound d (suc index) refs (visit_ref limits d index ref w).0
        (visit_ref-Sound d index ref w s deep reach.0) deep reach.1

  cut_refs-Sound : (d : ℕ) (refs : List Text) (w : Walking) → Sound d w → Sound d (cut_refs refs w)
  unfolding cut_refs
  cut_refs-Sound d [] w s = s
  cut_refs-Sound d (ref ∷ refs) w s =
      cut_refs-Sound d refs (cut_new by_depth ref w) (cut_new-Sound d by_depth ref w s)

  set_edges-Sound :
      (d : ℕ) (node : Text) (p : Walking × List Text) → Sound d p.0 → Sound d (set_edges node p)
  unfolding set_edges
  set_edges-Sound d node (w, refs) s = record { size = s.size; reached = s.reached; next = s.next }

  visit_found-Sound :
      (d : ℕ) (node : Text) (found : Option (List Text)) (w : Walking)
      → Sound (suc d) w
      → Reach contexts roots node d
      → refs_of contexts node ≡ ok found
      → Sound (suc d) (visit_found limits d node found w)
  unfolding visit_found
  visit_found-Sound d node none w s reach read = s
  visit_found-Sound d node (some refs) w s reach read = elim (Bool-cases (leb limits.max_depth d)) [
    | inl deep ↦ rw deep (cut_refs-Sound (suc d) refs w s)
    | inr shallow ↦ rw shallow (
        set_edges-Sound (suc d) node (visit_refs limits d 0 refs w) (
          visit_refs-Sound d 0 refs w s (ground (arith, shallow))
            (every_member _ refs (λ r m. step reach refs read r m))))
  ]

  visit_node-Sound :
      (d : ℕ) (node : Text) (w v : Walking)
      → Sound (suc d) w
      → Reach contexts roots node d
      → visit_node limits contexts d node w ≡ ok v
      → Sound (suc d) v
  unfolding visit_node
  visit_node-Sound d node w v s reach e =
      let (found, made, read) = bind_inv _ (refs_of contexts node) e in
      let same : visit_found limits d node found w ≡ v = cc (made) in
      rw (sym same) (visit_found-Sound d node found w s reach read)

  pub visit_nodes-Sound :
      (d : ℕ) (nodes : List Text) (w v : Walking)
      → Sound (suc d) w
      → All (λ n. Reach contexts roots n d) nodes
      → visit_nodes limits contexts d nodes w ≡ ok v
      → Sound (suc d) v
  unfolding visit_nodes
  visit_nodes-Sound d [] w v s reach e = let same : w ≡ v = cc (e) in rw (sym same) s
  visit_nodes-Sound d (node ∷ nodes) w v s reach e =
      let (u, rest, one) = bind_inv _ (visit_node limits contexts d node w) e in
      visit_nodes-Sound d nodes u v (visit_node-Sound d node w u s reach.0 one) reach.1 rest

  start_roots-Sound :
      (rs : List Text) (w : Walking)
      → Sound 0 w
      → All (λ r. Memᴰ r roots) rs
      → Sound 0 (start_roots limits rs w)
  unfolding start_roots
  start_roots-Sound [] w s h = s
  start_roots-Sound (r ∷ rs) w s h = start_roots-Sound rs _ one h.1
    where
      one :
          Sound 0 (if leb limits.max_nodes (length w.order) then cut by_nodes r w else admit 0 r w)
      one = elim (Bool-cases (leb limits.max_nodes (length w.order))) [
        | inl full ↦ rw full (cut-Sound 0 by_nodes r w s)
        | inr room ↦ rw room (admit-Sound 0 r w s (ground (arith, room)) (omega arith) (root r h.0))
      ]

  pub start-Sound : Sound 0 (start limits roots)
  unfolding start
  start-Sound =
      start_roots-Sound roots _ (record { size = omega arith; reached = tt; next = tt })
        (every_member _ roots (λ r m. m))
