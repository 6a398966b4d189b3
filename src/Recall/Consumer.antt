-- ===== src/Recall/Consumer.antt =====
-- recall.py: `RecallConsumer` as a state that its methods pass on. A set is the list of its members,
-- and `reverified` is the list of the calls made to `reverify`.
use acdp_verifier_py.Prelude.{
  ℕ, List, [], ◌∷◌, ◌++◌, Bool, true, false, not, ◌&&◌, ◌||◌, Option, none, some, Text, text,
  bytes_eq, ◌==◌, leb, if◌then◌else◌, ℤ, pos, negsuc,
}
use acdp_verifier_py.Errors.{Result, ok, raise, out_of_fuel, ◌>>=◌, type_error, key_error}
use acdp_verifier_py.Json.{Json, str, arr, obj}

-- The members of an entry that the consumer reads; the others are its `details`. `seq` is what
-- `int(entry["seq"])` does, which may raise; the three identifiers are what `entry.get` gives.
pub record Change (Details : Type 0) : Type 0 where
  pub seq : Result ℤ
  pub ctx_id : Json
  pub lineage_id : Json
  pub agent_id : Json
  pub details : Details

pub record ChangeResult : Type 0 where
  pub accepted : Bool
  pub reason : Option Text
  pub retraction : Option Text
  pub affected : List Text
  pub reverify : List Text

pub record WatchSet : Type 0 where
  pub ctx_ids : List Text
  pub lineage_ids : List Text
  pub agent_ids : List Text

abbrev pub Key : Type 0
Key = Text × ℤ

pub record RecallConsumer : Type 0 where
  pub registry_authority : Text
  pub watched : List Text
  pub cursor : Option Text
  pub processed : List Key
  pub results : List ChangeResult
  pub at_head : Bool
  pub exact : Option WatchSet
  pub reverified : List (List Text)

-- A page. `next_cursor` is the text that `str` makes of it, where the page has one; `has_more` is
-- `some` only of a Boolean.
pub record Page (Details : Type 0) : Type 0 where
  pub changes : List (Change Details)
  pub next_cursor : Option Text
  pub has_more : Option Bool

unfoldable pub int_eq : ℤ → ℤ → Bool
int_eq (pos a) (pos b) = a == b
int_eq (pos a) (negsuc b) = false
int_eq (negsuc a) (pos b) = false
int_eq (negsuc a) (negsuc b) = a == b

-- `key in self.processed`
unfoldable pub is_processed : Key → List Key → Bool
unfolding bytes_eq int_eq
is_processed key [] = false
is_processed key (k ∷ ks) = (bytes_eq key.0 k.0 && int_eq key.1 k.1) || is_processed key ks

-- `value in values`
unfoldable pub in_values : Text → List Text → Bool
unfolding bytes_eq
in_values value [] = false
in_values value (v ∷ values) = bytes_eq value v || in_values value values

-- `value in values` for a set of texts: a list and a dictionary cannot be hashed.
unfoldable pub is_watched : Json → List Text → Result Bool
unfolding in_values
is_watched (str s) values = ok (in_values s values)
is_watched (arr xs) values = raise type_error
is_watched (obj members) values = raise type_error
is_watched _ values = ok false

-- `a or b`, where `b` is evaluated only when `a` is false.
unfoldable pub or_else : Result Bool → Result Bool → Result Bool
or_else a b = a >>= λ found. if found then ok true else b

unfoldable pub local_match : {Details : Type 0} → Change Details → WatchSet → Result Bool
unfolding is_watched or_else
local_match change watch = or_else (is_watched change.ctx_id watch.ctx_ids) (
    or_else (is_watched change.lineage_id watch.lineage_ids)
      (is_watched change.agent_id watch.agent_ids))

-- The change concerns nothing that this consumer relies on.
unfoldable pub is_neighbour : {Details : Type 0} → Option WatchSet → Change Details → Result Bool
unfolding local_match
is_neighbour none change = ok false
is_neighbour (some watch) change = local_match change watch >>= λ found. ok (not found)

unfoldable pub is_empty : List Text → Bool
is_empty [] = true
is_empty (x ∷ xs) = false

-- What the loop of `on_page` changes: the keys, the results of the page, the calls of `reverify`.
pub record Progress : Type 0 where
  pub processed : List Key
  pub page : List ChangeResult
  pub reverified : List (List Text)

unfoldable pub skip : Key → Progress → Progress
skip key p = record { processed = key ∷ p.processed; page = p.page; reverified = p.reverified }

unfoldable pub take_result : Key → ChangeResult → Progress → Progress
unfolding is_empty
take_result key result p = record {
  processed = key ∷ p.processed;
  page = p.page ++ result ∷ [];
  reverified =
      if not result.accepted && not (is_empty result.reverify)
      then p.reverified ++ result.reverify ∷ []
      else p.reverified;
}

-- `verify` is `verify_change` on what `evidence_for` retrieves, either of which may raise.
module _ {Details : Type 0} (verify : Change Details → Result ChangeResult) where
  -- One round of the loop of `on_page`. A round that raises has changed nothing.
  unfoldable pub round : Text → Option WatchSet → Change Details → Progress → Result Progress
  unfolding is_processed is_neighbour skip take_result
  round authority exact c p = do
    seq ← c.seq
    let key : Key = (authority, seq)
    if is_processed key p.processed then ok p else (do
      neighbour ← is_neighbour exact c
      if neighbour then ok (skip key p) else (do result ← verify c; ok (take_result key result p)))

  -- The loop of `on_page`. What it changed before an exception stays.
  unfoldable pub process :
      Text → Option WatchSet → List (Change Details) → Progress → Progress × Result (Unit {0})
  unfolding round
  process authority exact [] p = (p, ok tt)
  process authority exact (c ∷ cs) p = elim (round authority exact c p) [
    | ok q ↦ process authority exact cs q
    | raise e ↦ (p, raise e)
    | out_of_fuel ↦ (p, out_of_fuel)
  ]

  -- `response.get("has_more") is False`
  unfoldable pub says_no_more : Page Details → Bool
  says_no_more response = elim response.has_more [ none ↦ false | some more ↦ not more ]

  -- The state after the loop, with what is the cursor, the results and `at_head` by then.
  abbrev pub after_loop :
      RecallConsumer → Progress → Option Text → List ChangeResult → Bool → RecallConsumer
  after_loop s p cursor results at_head = record {
    registry_authority = s.registry_authority;
    watched = s.watched;
    cursor = cursor;
    processed = p.processed;
    results = results;
    at_head = at_head;
    exact = s.exact;
    reverified = p.reverified;
  }

  -- What follows the loop: the results are added before `response["next_cursor"]` is read.
  unfoldable pub finish :
      RecallConsumer
      → Page Details
      → Progress × Result (Unit {0})
      → RecallConsumer × Result (List ChangeResult)
  unfolding says_no_more
  finish s response (p, ok done) = elim response.next_cursor [
    | some cursor ↦
        (after_loop s p (some cursor) (s.results ++ p.page) (says_no_more response), ok p.page)
    | none ↦ (after_loop s p s.cursor (s.results ++ p.page) s.at_head, raise key_error)
  ]
  finish s response (p, raise e) = (after_loop s p s.cursor s.results s.at_head, raise e)
  finish s response (p, out_of_fuel) = (s, out_of_fuel)

  unfoldable pub on_page :
      RecallConsumer → Page Details → RecallConsumer × Result (List ChangeResult)
  unfolding process finish
  on_page s response = finish s response (
      process s.registry_authority s.exact response.changes
        (record { processed = s.processed; page = []; reverified = s.reverified }))

-- `{k for k in self.processed if k[0] != self.registry_authority}`
unfoldable pub drop_authority : Text → List Key → List Key
unfolding bytes_eq
drop_authority authority [] = []
drop_authority authority (k ∷ ks) =
    let rest = drop_authority authority ks in if bytes_eq k.0 authority then rest else k ∷ rest

-- `self.cursor is not None and self.cursor != "head"`
unfoldable pub is_persisted : Option Text → Bool
unfolding bytes_eq
is_persisted none = false
is_persisted (some cursor) = not (bytes_eq cursor (text "head"))

unfoldable pub on_error : RecallConsumer → Text → RecallConsumer × Bool
unfolding bytes_eq is_persisted drop_authority
on_error s code =
    if bytes_eq code (text "cursor_expired")
      || (bytes_eq code (text "invalid_cursor") && is_persisted s.cursor)
    then (
      record {
        registry_authority = s.registry_authority;
        watched = s.watched;
        cursor = some (text "head");
        processed = drop_authority s.registry_authority s.processed;
        results = s.results;
        at_head = false;
        exact = s.exact;
        reverified = s.reverified ++ s.watched ∷ [];
      },
      true,
    )
    else (s, false)

abbrev pub max_page_bytes : ℕ
max_page_bytes = 1048576

unfoldable pub accepts_page : ℕ → Bool
accepts_page body_bytes = leb body_bytes max_page_bytes
