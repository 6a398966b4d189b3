-- ===== src/Lib.antt =====
-- acdp-verifier (Python): a verifier for the Agent Context Distribution Protocol. This library
-- models its pure decision code and states what that code guarantees.
--
-- The program's parts and their models:
--   * `acdp_verifier/errors.py`: the exception classes. `Errors` has one constructor per class,
--     the wire code of each, and `Result`, the outcome of a call that may raise. The text of a
--     message and the class hierarchy are left out; `JcsError` and `ChainOptionsError` are
--     `value_error`.
--   * `acdp_verifier/translog.py`, lines 90 to 239: the Merkle tree of the transparency log.
--     `Translog.Tree` has `node_hash`, `merkle_tree_hash`, `_largest_power_of_two_less_than`,
--     `compute_inclusion_path`, `compute_consistency_path` and `_subproof`; `Translog.Verify` has
--     `verify_inclusion` and `verify_consistency`, with one definition for each loop. The modules
--     below `Translog` other than these two are proofs: `Hashed` on what is hashed, `Index` and
--     `Power` on the numbers of the loops, `Split`, `Root` and `Binding` on the tree, `Ascent`,
--     `Inclusion`, `Pair` and `Sound` on inclusion proofs, `Subproof`, `Linked`,
--     `Consistency` and `AppendOnly` on consistency proofs.
--   * `acdp_verifier/base58.py`: `Base58.Codec`. `Base58.Numeral` and `Base58.Parse` describe
--     numerals in a base by their value and the zeros in front of it, `Base58.Alphabet` the
--     alphabet, `Base58.ToBytes` the length that `int.to_bytes` is called with.
--   * `acdp_verifier/didkey.py`: `DidKey.Resolve`, which calls `Base58.Codec` as the source does.
--   * `acdp_verifier/trustlist.py`, lines 102 to 163 and 345 to 475: pinned trust lists.
--     `Trustlist.Series` has the records of pins and versions and the tests on them,
--     `Trustlist.Select` has `advance_floor` and `select_version`, `Trustlist.Entry` has
--     `_entry_outcome`, with one definition for each condition, and `Trustlist.Evaluate` has
--     `evaluate_body`, with one definition for each loop. `Bounds`, `Used`, `Sorting`, `Verdict`
--     and `Best` below `Trustlist` are proofs.
--   * `acdp_verifier/recall.py`, lines 85 to 99, 410 to 430 and 507 to 613: the consumer of a
--     change feed. `Recall.Consumer` has the state of `RecallConsumer`, `local_match`, `on_page`,
--     `on_error` and `accepts_page`; `Redelivery` and `Delivery` below `Recall` are proofs. What
--     `evidence_for` retrieves and `verify_change` makes of it is one function of a change, which
--     may raise; so may the `int` of its `seq`; the calls of `reverify`, which is taken to return,
--     are kept in a list.
--   * `acdp_verifier/jcs.py`: the canonical text of JSON. `Json` has the values, `Jcs.Numbers`
--     `format_number` and `_shortest_digits`, `Jcs.Strings` `_format_string`, `Jcs.Serialize`
--     `_serialize`, `dumps` and `canonicalize`, with one definition for each loop;
--     `Unicode.Encode` has Python's `str.encode` for UTF-8 and UTF-16. The reading of JSON text in
--     `loads` is not modelled. `Jcs.Alike` says when two values mean the same. `Canon`, an
--     intermediate form for the proofs, `Refinement`, `Lexemes`, `Chars`, `Kinds`, `Printed`,
--     `Sorting`, `Texts`, `Binding`, `Reordered`, `Ascending` and `Determined` below `Jcs` and
--     `Unicode.Binding` are proofs.
--   * `acdp_verifier/hashing.py`: `Hashing.Content`, which hashes the text of `Jcs.Serialize`;
--     `Hashing.Binding` has the proofs.
--   * `acdp_verifier/timeutil.py`: `Times.Parse`.
--   * `acdp_verifier/revocation.py`: `Revocation.Statement`, which reads its boundaries with
--     `Times.Parse`; `Revocation.Boundary` has the proofs.
--   * `acdp_verifier/keyless.py`, lines 149 to 227, 458 to 528, 974 to 1054 and 1062 to 1096:
--     keyless contexts. `Keyless.Decision` has the facts, `decide` and `_key_revocation_class`,
--     `Keyless.Conclusion` the end of `verify_keyless`, which sorts the classified candidates and
--     calls both, `Keyless.Signers` the listed identities and `supersession`. `Decided`,
--     `Agreement` and `Lineage` below `Keyless` are proofs.
--   * `acdp_verifier/chain.py`, lines 158 to 178, 314 to 399, 1331 to 1378 and 1520 to 1524:
--     chains of derived contexts. `Chain.References` has `_distinct` and the references of an
--     entry, `Chain.Walk` `_walk`, with one definition for each loop,
--     `Chain.Limits` `_normalize_limits`, `Chain.Verdict` `_verdict` and `_chain`.
--     The walk reads its contexts as JSON, with what a missing or ill-formed `body` and
--     `derived_from` raise. `Reach`, `Bounds`, `Walked` and `Worst` below `Chain` are proofs.
--   * `acdp_verifier/seamdecision.py`: sealed records. `Seam.Frame` has the frames, the slots of
--     `preimage_v4` with the encodings that fill them, and the digests; `Seam.Disclosure` has the
--     parsing of a disclosed record and `verify_anchor`, with `validate_anchor` of
--     `acdp_verifier/validation.py`. `Anchored`, `Slots`, `Binding` and `Participants` below
--     `Seam` are proofs.
--
-- The shared modules: `Prelude` passes on the library's names and adds lists, byte strings, texts,
-- integers and tests over the native numbers; `Crypto` is SHA-256 as a parameter.
--
-- State and values. A byte string is a list of numbers, a text the list of its code points, an
-- exception a value of `Result`. The one object that is changed is a `RecallConsumer`: its methods
-- take it and give it back, also when they raise. The floor of a pin, which the caller of
-- `advance_floor` keeps, is an argument and a result.
--
-- Parameters. SHA-256 (`hashlib`) is an instance argument: a function on byte strings whose
-- results have 32 bytes. Collision resistance is not assumed. Where a theorem needs it, its
-- conclusion has as the alternative two different byte strings with one digest, each of which the
-- code hashes in one of the two runs that are compared. `Translog.Hashed` says which strings these
-- are for a tree and for the loops of the verifications; for a body they are its canonical bytes.
-- `str.lower` is an argument of `evaluate_body`. Python's doubles are an instance argument of the
-- canonical text: their bits, `repr`, whose characters are those of numbers, the sign and the
-- conversion of an integer. A clock is an instance argument of the times: which characters are
-- decimal digits, `int` on digits, and `strptime`.
--
-- Fuel. `hash_tree`, `inclusion_path` and `subproof` recurse on the number of leaves, which halves
-- or at least falls at each call; `doubling` doubles at most as often as its argument;
-- `skip_zeros` and `skip_ones` shift a number as often as the number itself; `encode_digits`,
-- `decimal_onto` and `bit_length` divide a number by their base as often as the number itself. In
-- each case the number reaches zero before the fuel does. `levels` runs once for each depth up to
-- `max_depth` and once more for the empty level. The theorems on these functions are about their
-- results and assume no fuel.
--
-- Not modelled. Signatures, HTTP, DNS and the clock are libraries' work. The parsing of JSON texts
-- is Python's `json`, and what `jcs.loads` adds to it, the refusal of repeated names and of NaN,
-- is left out. Checkpoints and cosignatures, receipts, the stages of a node in a chain and the
-- nodes on a cycle, the facts of a keyless context and the classification of its revocations, the
-- parsing of lists and the verification of a change are not modelled. The conformance runners
-- (`run_conformance.py` and the like) read fixtures and print reports.
pub mod Prelude
pub mod Errors
pub mod Chain
pub mod Crypto
pub mod Base58
pub mod DidKey
pub mod Hashing
pub mod Jcs
pub mod Json
pub mod Keyless
pub mod Recall
pub mod Revocation
pub mod Seam
pub mod Times
pub mod Translog
pub mod Trustlist
pub mod Unicode
