-- ===== src/Chain/Bounds.antt =====
-- The end of the walk: what it hands back, and that it comes to an end.
use acdp_verifier_py.Prelude.{
  ℕ, zero, suc, ◌+◌, ◌<◌, ◌≤◌, ◌≡◌, ◌≢◌, refl, sym, ◌∙◌, List, [], ◌∷◌, true, false, Option, none,
  some, pos, negsuc, Bytes, Text, text, text_leb, leb, All, arith, Bool-cases, leb→le, inl, inr,
}
use acdp_verifier_py.Errors.{
  Error, Result, ok, raise, out_of_fuel, ◌>>=◌, bind_inv, Result-cases, value_error,
}
use acdp_verifier_py.Json.{Json, null, bool, int, float, str, arr, obj, Fields, get, get_or_null}
use acdp_verifier_py.Unicode.Encode.{utf8, is_surrogate}
use acdp_verifier_py.Chain.References.{distinct, values_of, body_refs, entry_refs, refs_of}
use acdp_verifier_py.Chain.Walk.{
  Limits, Walking, cut, cut_new, has_key, cut_refs, visit_found, visit_node, visit_nodes,
  insert_keyed, sort_keyed, without_keys, sorted_utf8, new_level, levels, by_depth,
}

-- Sorting keeps what holds of each.
insert_keyed-All {κ} :
    (P : Text → Type κ) (k : Bytes × Text) (es : List (Bytes × Text))
    → P k.1
    → All P (without_keys es)
    → All P (without_keys (insert_keyed k es))
unfolding insert_keyed without_keys
insert_keyed-All P k [] h hs = (h, tt)
insert_keyed-All P k (e ∷ es) h hs = elim (Bool-cases (text_leb k.0 e.0)) [
  | inl le ↦ rw le (h, hs)
  | inr gt ↦ rw gt (hs.0, insert_keyed-All P k es h hs.1)
]

sort_keyed-All {κ} :
    (P : Text → Type κ) (ts : List Text) (es : List (Bytes × Text))
    → All P ts
    → sort_keyed ts ≡ ok es
    → All P (without_keys es)
unfolding sort_keyed
sort_keyed-All P [] es h e =
    let same : [] ≡ es = cc (e) in rw (sym same) (unfold without_keys in tt)
sort_keyed-All P (t ∷ ts) es h e =
    let (key, e₁, _) = bind_inv _ (utf8 t) e in
    let (rest, e₂, sorted) = bind_inv _ (sort_keyed ts) e₁ in
    let same : insert_keyed (key, t) rest ≡ es = cc (e₂) in
    rw (sym same) (insert_keyed-All P (key, t) rest h.0 (sort_keyed-All P ts rest h.1 sorted))

pub sorted_utf8-All {κ} :
    (P : Text → Type κ) (ts ss : List Text) → All P ts → sorted_utf8 ts ≡ ok ss → All P ss
unfolding sorted_utf8
sorted_utf8-All P ts ss h e =
    let (es, made, sorted) = bind_inv _ (sort_keyed ts) e in
    let same : without_keys es ≡ ss = cc (made) in rw (sym same) (sort_keyed-All P ts es h sorted)

-- How a run over some contexts ends: with a value, with the ValueError of a name that UTF-8 cannot
-- encode, or with the exception that reading one of the contexts raises.
pub data Ends (contexts : Fields) {A : Type 0} (r : Result A) : Type 0 where
  returns : (a : A) → r ≡ ok a → Ends contexts r
  unencodable : r ≡ raise value_error → Ends contexts r
  unreadable : (n : Text) (e : Error) → refs_of contexts n ≡ raise e → r ≡ raise e → Ends contexts r

pub Ends-bind_run :
    {contexts : Fields} {A B : Type 0} (r : Result A) (next : A → Result B)
    → Ends contexts r
    → ((a : A) → r ≡ ok a → Ends contexts (next a))
    → Ends contexts (r >>= next)
Ends-bind_run r next (returns a e) h = rw e (h a e)
Ends-bind_run r next (unencodable e) h = unencodable (rw e)
Ends-bind_run r next (unreadable n err read e) h = unreadable n err read (rw e)

pub Ends-bind :
    {contexts : Fields} {A B : Type 0} (r : Result A) (next : A → Result B)
    → Ends contexts r
    → ((a : A) → Ends contexts (next a))
    → Ends contexts (r >>= next)
Ends-bind r next ends h = Ends-bind_run r next ends (λ a e. h a)

utf8-Ends : {contexts : Fields} (t : Text) → Ends contexts (utf8 t)
unfolding utf8
utf8-Ends [] = returns [] refl
utf8-Ends (c ∷ cs) = elim (Bool-cases (is_surrogate c)) [
  | inl surrogate ↦ unencodable (rw surrogate)
  | inr plain ↦ rw plain (Ends-bind (utf8 cs) _ (utf8-Ends cs) (λ bs. returns _ refl))
]

sort_keyed-Ends : {contexts : Fields} (ts : List Text) → Ends contexts (sort_keyed ts)
unfolding sort_keyed
sort_keyed-Ends [] = returns [] refl
sort_keyed-Ends (t ∷ ts) =
    Ends-bind (utf8 t) _ (utf8-Ends t)
      (λ key. Ends-bind (sort_keyed ts) _ (sort_keyed-Ends ts) (λ es. returns _ refl))

pub sorted_utf8-Ends : {contexts : Fields} (ts : List Text) → Ends contexts (sorted_utf8 ts)
unfolding sorted_utf8
sorted_utf8-Ends ts = Ends-bind (sort_keyed ts) _ (sort_keyed-Ends ts) (λ es. returns _ refl)

values_of-total : (v : Json) → values_of v ≢ out_of_fuel
unfolding values_of
values_of-total null e = cc (e)
values_of-total (bool true) e = cc (e)
values_of-total (bool false) e = cc (e)
values_of-total (int (pos n)) e = ground (arith, e)
values_of-total (int (negsuc n)) e = cc (e)
values_of-total (float x) e = ground (arith, e)
values_of-total (str s) e = cc (e)
values_of-total (arr xs) e = cc (e)
values_of-total (obj ms) e = cc (e)

bind-total :
    {A B : Type 0} (r : Result A) (next : A → B)
    → r ≢ out_of_fuel
    → (r >>= λ a. ok (next a)) ≢ out_of_fuel
bind-total (ok a) next h e = cc (e)
bind-total (raise x) next h e = cc (e)
bind-total out_of_fuel next h e = h refl

body_refs-total : (body : Option Json) → body_refs body ≢ out_of_fuel
unfolding body_refs
body_refs-total none e = cc (e)
body_refs-total (some null) e = cc (e)
body_refs-total (some (bool b)) e = cc (e)
body_refs-total (some (int n)) e = cc (e)
body_refs-total (some (float x)) e = cc (e)
body_refs-total (some (str s)) e = cc (e)
body_refs-total (some (arr xs)) e = cc (e)
body_refs-total (some (obj body)) e =
    bind-total (values_of (get_or_null (text "derived_from") body)) distinct
      (values_of-total (get_or_null (text "derived_from") body)) e

entry_refs-total : (entry : Option Json) → entry_refs entry ≢ out_of_fuel
unfolding entry_refs
entry_refs-total none e = cc (e)
entry_refs-total (some null) e = cc (e)
entry_refs-total (some (bool b)) e = cc (e)
entry_refs-total (some (int n)) e = cc (e)
entry_refs-total (some (float x)) e = cc (e)
entry_refs-total (some (str s)) e = cc (e)
entry_refs-total (some (arr xs)) e = cc (e)
entry_refs-total (some (obj entry)) e =
    bind-total (body_refs (get (text "body") entry)) some
      (body_refs-total (get (text "body") entry)) e

refs_of-Ends : (contexts : Fields) (n : Text) → Ends contexts (refs_of contexts n)
refs_of-Ends contexts n = elim (Result-cases (refs_of contexts n)) [
  | inl (found, e) ↦ returns found e
  | inr (inl (err, e)) ↦ unreadable n err e e
  | inr (inr e) ↦ absurd (entry_refs-total (get n contexts) (unfold refs_of in e))
]

module _ (limits : Limits) (contexts : Fields) where
  -- At the greatest depth no node is added.
  cut_refs-next : (refs : List Text) (w : Walking) → (cut_refs refs w).next_level ≡ w.next_level
  unfolding cut_refs cut_new cut
  cut_refs-next [] w = refl
  cut_refs-next (ref ∷ refs) w =
      cut_refs-next refs (cut_new by_depth ref w)
      ∙ elim (Bool-cases (has_key ref w.depth)) [ inl known ↦ rw known | inr new ↦ rw new ]

  visit_found-next :
      (d : ℕ) (node : Text) (found : Option (List Text)) (w : Walking)
      → limits.max_depth ≤ d
      → (visit_found limits d node found w).next_level ≡ w.next_level
  unfolding visit_found
  visit_found-next d node none w deep = refl
  visit_found-next d node (some refs) w deep =
      let test : leb limits.max_depth d ≡ true = ground arith in rw test (cut_refs-next refs w)

  visit_nodes-next :
      (d : ℕ) (nodes : List Text) (w v : Walking)
      → limits.max_depth ≤ d
      → visit_nodes limits contexts d nodes w ≡ ok v
      → v.next_level ≡ w.next_level
  unfolding visit_nodes visit_node
  visit_nodes-next d [] w v deep e = let same : w ≡ v = cc (e) in rw (sym same)
  visit_nodes-next d (node ∷ nodes) w v deep e =
      let (u, rest, one) = bind_inv _ (visit_node limits contexts d node w) e in
      let (found, made, _) = bind_inv _ (refs_of contexts node) one in
      let same : visit_found limits d node found w ≡ u = cc (made) in
      visit_nodes-next d nodes u v deep rest ∙ rw (sym same) (visit_found-next d node found w deep)

  visit_nodes-Ends :
      (d : ℕ) (nodes : List Text) (w : Walking)
      → Ends contexts (visit_nodes limits contexts d nodes w)
  unfolding visit_nodes visit_node
  visit_nodes-Ends d [] w = returns w refl
  visit_nodes-Ends d (node ∷ nodes) w =
      Ends-bind (visit_node limits contexts d node w) _
        (Ends-bind (refs_of contexts node) _ (refs_of-Ends contexts node) (λ found. returns _ refl))
        (λ v. visit_nodes-Ends d nodes v)

  levels-none :
      (f d : ℕ) (w : Walking) (level : List Text)
      → level ≡ []
      → Ends contexts (levels f limits contexts d level w)
  unfolding levels
  levels-none f d w level e = rw e (returns w refl)

  pub levels-Ends :
      (f d : ℕ) (level : List Text) (w : Walking)
      → 2 + limits.max_depth ≤ f + d
      → 1 ≤ f
      → Ends contexts (levels f limits contexts d level w)
  unfolding levels
  levels-Ends f d [] w enough fuelled = returns w refl
  levels-Ends zero d (n ∷ ns) w enough fuelled = absurd (omega (arith, fuelled))
  levels-Ends (suc f) d (n ∷ ns) w enough fuelled =
      Ends-bind (sorted_utf8 (n ∷ ns)) _ (sorted_utf8-Ends (n ∷ ns)) (λ nodes.
        Ends-bind_run (visit_nodes limits contexts d nodes (new_level w)) _
          (visit_nodes-Ends d nodes (new_level w))
          (λ visited went. elim (Bool-cases (leb limits.max_depth d)) [
            | inl deep ↦ levels-none f (suc d) visited visited.next_level (
                visit_nodes-next d nodes (new_level w) visited (leb→le limits.max_depth d deep) went
                ∙ unfold new_level in refl)
            | inr shallow ↦
                let room : d < limits.max_depth = ground (arith, shallow) in
                levels-Ends f (suc d) visited.next_level visited (omega (arith, room))
                  (omega (arith, room))
          ]))
