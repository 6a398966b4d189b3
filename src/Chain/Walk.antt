-- ===== src/Chain/Walk.antt =====
-- chain.py: the loops of `_walk`, up to its call of `_cycle_nodes`, which is not
-- modelled.
use acdp_verifier_py.Prelude.{
  ℕ, zero, suc, ◌+◌, List, [], ◌∷◌, ◌++◌, Bool, true, false, ◌||◌, Option, none, some, Bytes, Text,
  text_eq, bytes_eq, text_leb, leb, length, if◌then◌else◌,
}
use acdp_verifier_py.Errors.{Result, ok, out_of_fuel, ◌>>=◌}
use acdp_verifier_py.Chain.References.{text_in, refs_of}
use acdp_verifier_py.Unicode.Encode.{utf8}
use acdp_verifier_py.Json.{Fields}

pub record Limits : Type 0 where
  pub max_depth : ℕ
  pub max_nodes : ℕ
  pub max_fanout : ℕ

-- Which limit has cut a context off.
pub data Control : Type 0 where
  by_depth by_nodes by_fanout : Control

-- A dictionary, in the order of its insertions.
unfoldable pub put {ℓ} : {A : Type ℓ} → Text → A → List (Text × A) → List (Text × A)
unfolding bytes_eq
put k v [] = (k, v) ∷ []
put k v (e ∷ es) = let rest = put k v es in if text_eq e.0 k then (k, v) ∷ es else e ∷ rest

unfoldable pub has_key {ℓ} : {A : Type ℓ} → Text → List (Text × A) → Bool
unfolding bytes_eq
has_key k [] = false
has_key k (e ∷ es) = text_eq e.0 k || has_key k es

pub record Walking : Type 0 where
  pub depth : List (Text × ℕ)
  pub order : List Text
  pub edges : List (Text × List Text)
  pub cuts : List (Control × Text)
  pub next_level : List Text

unfoldable pub cut : Control → Text → Walking → Walking
cut control ref w = record {
  depth = w.depth;
  order = w.order;
  edges = w.edges;
  cuts = w.cuts ++ (control, ref) ∷ [];
  next_level = w.next_level;
}

-- `if ref not in depth: cuts.append(...)`
unfoldable pub cut_new : Control → Text → Walking → Walking
unfolding cut has_key
cut_new control ref w = if has_key ref w.depth then w else cut control ref w

-- `depth[ref] = d`, `order.append(ref)` and `next_level.append(ref)`
unfoldable pub admit : ℕ → Text → Walking → Walking
unfolding put
admit d ref w = record {
  depth = put ref d w.depth;
  order = w.order ++ ref ∷ [];
  edges = w.edges;
  cuts = w.cuts;
  next_level = w.next_level ++ ref ∷ [];
}

unfoldable pub start_roots : Limits → List Text → Walking → Walking
unfolding cut admit
start_roots limits [] w = w
start_roots limits (root ∷ roots) w =
    start_roots limits roots
      (if leb limits.max_nodes (length w.order) then cut by_nodes root w else admit 0 root w)

-- One reference of a node at depth `d`; the second part says whether it is an edge.
unfoldable pub visit_ref : Limits → ℕ → ℕ → Text → Walking → Walking × Bool
unfolding cut_new cut has_key admit
visit_ref limits d index ref w =
    if leb limits.max_fanout index
    then (cut_new by_fanout ref w, false)
    else if has_key ref w.depth
    then (w, true)
    else if leb limits.max_nodes (length w.order)
    then (cut by_nodes ref w, false)
    else (admit (suc d) ref w, true)

unfoldable pub visit_refs : Limits → ℕ → ℕ → List Text → Walking → Walking × List Text
unfolding visit_ref
visit_refs limits d index [] w = (w, [])
visit_refs limits d index (ref ∷ refs) w =
    let one = visit_ref limits d index ref w in
    let rest = visit_refs limits d (suc index) refs one.0 in
    (rest.0, if one.1 then ref ∷ rest.1 else rest.1)

unfoldable pub cut_refs : List Text → Walking → Walking
unfolding cut_new
cut_refs [] w = w
cut_refs (ref ∷ refs) w = cut_refs refs (cut_new by_depth ref w)

unfoldable pub set_edges : Text → Walking × List Text → Walking
unfolding put
set_edges node (w, refs) = record {
  depth = w.depth;
  order = w.order;
  edges = put node refs w.edges;
  cuts = w.cuts;
  next_level = w.next_level;
}

unfoldable pub visit_found : Limits → ℕ → Text → Option (List Text) → Walking → Walking
unfolding cut_refs visit_refs set_edges
visit_found limits d node none w = w
visit_found limits d node (some refs) w =
    if leb limits.max_depth d
    then cut_refs refs w
    else set_edges node (visit_refs limits d 0 refs w)

unfoldable pub visit_node : Limits → Fields → ℕ → Text → Walking → Result Walking
unfolding refs_of visit_found
visit_node limits contexts d node w =
    refs_of contexts node >>= λ found. ok (visit_found limits d node found w)

unfoldable pub visit_nodes : Limits → Fields → ℕ → List Text → Walking → Result Walking
unfolding visit_node
visit_nodes limits contexts d [] w = ok w
visit_nodes limits contexts d (node ∷ nodes) w =
    visit_node limits contexts d node w >>= λ v. visit_nodes limits contexts d nodes v

-- `sorted(..., key=_utf8)`
unfoldable pub insert_keyed : Bytes × Text → List (Bytes × Text) → List (Bytes × Text)
unfolding text_leb
insert_keyed k [] = k ∷ []
insert_keyed k (e ∷ es) =
    let rest = insert_keyed k es in if text_leb k.0 e.0 then k ∷ e ∷ es else e ∷ rest

unfoldable pub sort_keyed : List Text → Result (List (Bytes × Text))
unfolding utf8 insert_keyed
sort_keyed [] = ok []
sort_keyed (t ∷ ts) = do key ← utf8 t; rest ← sort_keyed ts; ok (insert_keyed (key, t) rest)

unfoldable pub without_keys : List (Bytes × Text) → List Text
without_keys [] = []
without_keys (e ∷ es) = e.1 ∷ without_keys es

unfoldable pub sorted_utf8 : List Text → Result (List Text)
unfolding sort_keyed without_keys
sorted_utf8 ts = sort_keyed ts >>= λ es. ok (without_keys es)

unfoldable pub new_level : Walking → Walking
new_level w = record {
  depth = w.depth;
  order = w.order;
  edges = w.edges;
  cuts = w.cuts;
  next_level = [];
}

-- `while level`, on fuel
unfoldable pub levels : ℕ → Limits → Fields → ℕ → List Text → Walking → Result Walking
unfolding sorted_utf8 visit_nodes new_level
levels f limits contexts d [] w = ok w
levels zero limits contexts d (n ∷ ns) w = out_of_fuel
levels (suc f) limits contexts d (n ∷ ns) w = do
  nodes ← sorted_utf8 (n ∷ ns)
  visited ← visit_nodes limits contexts d nodes (new_level w)
  levels f limits contexts (suc d) visited.next_level visited

pub record Walk : Type 0 where
  pub order : List Text
  pub depth : List (Text × ℕ)
  pub edges : List (Text × List Text)
  pub frontier : List Text
  pub control : Option Control

-- The cuts of contexts that the walk did not reach another way.
unfoldable pub lasting_cuts : List (Text × ℕ) → List (Control × Text) → List (Control × Text)
unfolding has_key
lasting_cuts depth [] = []
lasting_cuts depth (c ∷ cs) =
    let rest = lasting_cuts depth cs in if has_key c.1 depth then rest else c ∷ rest

unfoldable pub cut_texts : List (Control × Text) → List Text
unfolding text_in
cut_texts [] = []
cut_texts (c ∷ cs) = let rest = cut_texts cs in if text_in c.1 rest then rest else c.1 ∷ rest

unfoldable pub first_control : List (Control × Text) → Option Control
first_control [] = none
first_control (c ∷ cs) = some c.0

unfoldable pub start : Limits → List Text → Walking
unfolding start_roots
start limits roots =
    start_roots limits roots
      (record { depth = []; order = []; edges = []; cuts = []; next_level = [] })

unfoldable pub walk : Limits → Fields → List Text → Result Walk
unfolding start levels lasting_cuts cut_texts first_control sorted_utf8
walk limits contexts roots = do
  let begun = start limits roots
  w ← levels (2 + limits.max_depth) limits contexts 0 begun.order begun
  let lasting = lasting_cuts w.depth w.cuts
  frontier ← sorted_utf8 (cut_texts lasting)
  ok (record {
    order = w.order;
    depth = w.depth;
    edges = w.edges;
    frontier = frontier;
    control = first_control lasting;
  })
