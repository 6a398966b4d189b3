-- ===== src/Recall/Tests.antt =====
-- Runs of the consumer, and the properties at concrete inputs.
use acdp_verifier_py.Prelude.{
  ℕ, ◌≡◌, ◌≢◌, refl, [], ◌∷◌, ◌++◌, true, false, none, some, text, ℤ, pos, ◌==◌, if◌then◌else◌,
}
use acdp_verifier_py.Errors.{Result, ok, raise, key_resolution_unreachable, type_error}
use acdp_verifier_py.Json.{null, str, arr, nil}
use acdp_verifier_py.Recall.Consumer.{
  Change, ChangeResult, Key, RecallConsumer, Page, is_processed, on_page, on_error,
}
use acdp_verifier_py.Recall.Delivery.{Stopped, on_page_redelivered, on_page_failed, on_error_resync}

abbrev change : ℕ → Change ℕ
change n = record {
  seq = ok (pos n);
  ctx_id = str (text "c");
  lineage_id = null;
  agent_id = null;
  details = n;
}

abbrev outcome_of : ℕ → ChangeResult
outcome_of n = record {
  accepted = n == 1;
  reason = none;
  retraction = none;
  affected = text "c" ∷ [];
  reverify = text "c" ∷ [];
}

-- Every retrieval succeeds; or only that of the first change does.
abbrev reachable : Change ℕ → Result ChangeResult
reachable c = ok (outcome_of c.details)

abbrev first_only : Change ℕ → Result ChangeResult
first_only c = if c.details == 1 then ok (outcome_of 1) else raise key_resolution_unreachable

abbrev fresh : RecallConsumer
fresh = record {
  registry_authority = text "r.example";
  watched = text "c" ∷ [];
  cursor = none;
  processed = [];
  results = [];
  at_head = false;
  exact = some (record { ctx_ids = text "c" ∷ []; lineage_ids = []; agent_ids = [] });
  reverified = [];
}

abbrev page : Page ℕ
page = record {
  changes = change 1 ∷ change 2 ∷ change 1 ∷ [];
  next_cursor = some (text "k2");
  has_more = some false;
}

abbrev after : RecallConsumer
after = record {
  registry_authority = text "r.example";
  watched = text "c" ∷ [];
  cursor = some (text "k2");
  processed = (text "r.example", pos 2) ∷ (text "r.example", pos 1) ∷ [];
  results = outcome_of 1 ∷ outcome_of 2 ∷ [];
  at_head = true;
  exact = some (record { ctx_ids = text "c" ∷ []; lineage_ids = []; agent_ids = [] });
  reverified = (text "c" ∷ []) ∷ [];
}

page_run : on_page reachable fresh page ≡ (after, ok (outcome_of 1 ∷ outcome_of 2 ∷ []))
unfolding on_page
page_run = refl

on_page_redelivered_example : on_page reachable after page ≡ (after, ok [])
on_page_redelivered_example =
    on_page_redelivered reachable fresh after page (outcome_of 1 ∷ outcome_of 2 ∷ []) page_run

-- The second retrieval fails: the first change is marked as processed, its result is in no list.
abbrev interrupted : RecallConsumer
interrupted = record {
  registry_authority = text "r.example";
  watched = text "c" ∷ [];
  cursor = none;
  processed = (text "r.example", pos 1) ∷ [];
  results = [];
  at_head = false;
  exact = some (record { ctx_ids = text "c" ∷ []; lineage_ids = []; agent_ids = [] });
  reverified = [];
}

failed_run : on_page first_only fresh page ≡ (interrupted, raise key_resolution_unreachable)
unfolding on_page
failed_run = refl

on_page_failed_example : Stopped first_only fresh interrupted page key_resolution_unreachable
on_page_failed_example =
    on_page_failed first_only fresh interrupted page key_resolution_unreachable failed_run

-- A page without `next_cursor`: the results are added before the KeyError.
no_cursor_run :
    (on_page reachable fresh
      (record { changes = change 1 ∷ []; next_cursor = none; has_more = none })).0.results
    ≡ outcome_of 1 ∷ []
unfolding on_page
no_cursor_run = refl

-- An identifier that is a list cannot be looked up in a set.
unhashable_run :
    (on_page reachable fresh (record {
      changes =
          record {
            seq = ok (pos 1);
            ctx_id = arr nil;
            lineage_id = null;
            agent_id = null;
            details = 1;
          }
          ∷ [];
      next_cursor = some (text "k2");
      has_more = none;
    })).1
    ≡ raise type_error
unfolding on_page
unhashable_run = refl

-- The page is asked for again: the result of the first change does not come back.
retry_without_first : (on_page reachable interrupted page).1 ≡ ok (outcome_of 2 ∷ [])
unfolding on_page
retry_without_first = refl

abbrev restarted : RecallConsumer
restarted = record {
  registry_authority = text "r.example";
  watched = text "c" ∷ [];
  cursor = some (text "head");
  processed = [];
  results = outcome_of 1 ∷ outcome_of 2 ∷ [];
  at_head = false;
  exact = some (record { ctx_ids = text "c" ∷ []; lineage_ids = []; agent_ids = [] });
  reverified = (text "c" ∷ []) ∷ (text "c" ∷ []) ∷ [];
}

resync_run : on_error after (text "invalid_cursor") ≡ (restarted, true)
unfolding on_error
resync_run = refl

on_error_resync_example :
    (restarted.cursor ≡ some (text "head"))
    × (restarted.reverified ≡ after.reverified ++ after.watched ∷ [])
    × ((seq : ℤ) → is_processed (text "r.example", seq) restarted.processed ≡ false)
    × ((key : Key)
        → key.0 ≢ text "r.example"
        → is_processed key restarted.processed ≡ is_processed key after.processed)
on_error_resync_example = on_error_resync after restarted (text "invalid_cursor") resync_run
