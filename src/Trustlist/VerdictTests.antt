-- ===== src/Trustlist/VerdictTests.antt =====
-- Runs of `evaluate_body`, and its properties at concrete inputs. The texts are in lower case.
use acdp_verifier_py.Prelude.{◌≤◌, ◌≡◌, refl, List, [], ◌∷◌, false, Option, none, some, Text, text}
use mathlib.Core.List.{Memᴰ}
use acdp_verifier_py.Errors.{ok}
use acdp_verifier_py.Trustlist.Series.{ListVersion, PinState, Status, Outcome}
use acdp_verifier_py.Trustlist.Entry.{Entry, Body, entry_outcome}
use acdp_verifier_py.Trustlist.Evaluate.{
  NodeOutcome, rank, remove_scheme, before_slash, evaluate_body,
}
use acdp_verifier_py.Trustlist.Verdict.{Endorsed, evaluate_body_trusted}
use acdp_verifier_py.Trustlist.Best.{evaluate_body_best}

abbrev unchanged : Text → Text
unchanged chars = chars

abbrev body : Body
body = record {
  ctx_id = text "acdp://r.example/7";
  origin_registry = text "r.example";
  agent_id = text "did:web:a.example:x";
  kind = text "dataset";
}

abbrev entry_for : Option (List Text) → Entry
entry_for methods = record {
  origin = text "r.example";
  registry_did = text "did:web:r.example";
  receipt_key_fingerprints = none;
  required_profiles = none;
  scope =
      some (record {
        agent_ids = none;
        agent_id_prefixes = none;
        did_methods = methods;
        types = none;
      });
  valid_from = none;
  valid_until = some (text "2027");
}

abbrev only_keys : Entry
only_keys = entry_for (some (text "did:key" ∷ []))

abbrev web_too : Entry
web_too = entry_for (some (text "did:key" ∷ text "did:web" ∷ []))

abbrev version : ListVersion Entry
version = record {
  serial = 1;
  issued_at = text "2026";
  valid_from = text "2026";
  valid_until = text "2027";
  content_hash = text "h";
  entries = only_keys ∷ web_too ∷ [];
  ctx_id = none;
  retracted = false;
}

abbrev state : PinState Entry
state = record {
  pin = record {
    issuer = text "did:web:i.example";
    list_id = text "l";
    issuer_key_fingerprints = none;
  };
  status = Status.used;
  version = some version;
  reason = none;
}

abbrev gone : PinState Entry
gone = record {
  pin = record {
    issuer = text "did:web:z.example";
    list_id = text "l";
    issuer_key_fingerprints = none;
  };
  status = Status.expired;
  version = none;
  reason = some (text "list_window");
}

abbrev verdict : NodeOutcome
verdict = record {
  ctx_id = text "acdp://r.example/7";
  outcome = Outcome.trusted;
  reason = none;
  profiles_checked = false;
  issuer = some (text "did:web:i.example");
  list_id = some (text "l");
  entry_index = some 1;
}

trusted_run :
    evaluate_body unchanged body (gone ∷ state ∷ []) (text "2026-06") none none ≡ ok verdict
unfolding evaluate_body
trusted_run = refl

first_out_of_scope :
    entry_outcome only_keys body (text "r.example") none none (text "2026-06")
    ≡ some (Outcome.out_of_scope, some (text "scope_did_method"))
unfolding entry_outcome
first_out_of_scope = refl

second_trusted :
    entry_outcome web_too body (text "r.example") none none (text "2026-06")
    ≡ some (Outcome.trusted, none)
unfolding entry_outcome
second_trusted = refl

one_authority :
    unchanged (before_slash (remove_scheme body.ctx_id)) ≡ unchanged body.origin_registry
unfolding before_slash remove_scheme
one_authority = refl

evaluate_body_trusted_example :
    (unchanged (before_slash (remove_scheme body.ctx_id)) ≡ unchanged body.origin_registry)
    × Endorsed body none none (text "2026-06") (text "r.example") (gone ∷ state ∷ []) verdict
evaluate_body_trusted_example =
    evaluate_body_trusted unchanged body (gone ∷ state ∷ []) (text "2026-06") none none verdict
      trusted_run refl

evaluate_body_best_example : rank Outcome.trusted ≤ rank Outcome.trusted
evaluate_body_best_example =
    evaluate_body_best unchanged body (gone ∷ state ∷ []) (text "2026-06") none none verdict state
      version 1 web_too Outcome.trusted none trusted_run one_authority (Memᴰ.tail (Memᴰ.head refl))
      refl refl refl second_trusted
