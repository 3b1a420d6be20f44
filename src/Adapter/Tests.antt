-- ===== src/Adapter/Tests.antt =====
-- The theorems on nns_adapter/src/lib.rs at a ledger of one transfer, and runs of the definitions.
use native.Mathlib.Decide.{ℕ_discrete}
use mathlib.Core.Option
use shielded_ledger_hivemind.Common.{
  length, ℕ, zero, suc, ◌*◌, ◌%◌, ◌^◌, ◌≡◌, refl, subst, arith, none, some, List, [], ◌∷◌, ok, err,
  ok-injective, get_elem?,
}
use shielded_ledger_hivemind.Adapter.Legacy.Messages.{Bytes, Bytes-discrete, Block-discrete}
use shielded_ledger_hivemind.Adapter.Legacy.Accounts.{canonical_account, account_identifier}
use shielded_ledger_hivemind.Adapter.Legacy.Operations.{decode_operation, encode_operation}
use shielded_ledger_hivemind.Adapter.Legacy.Blocks.{protobuf_of, decode_protobuf}
use shielded_ledger_hivemind.Adapter.Values.{Value, hash_value}
use shielded_ledger_hivemind.Adapter.State.{
  Account, Account-discrete, TransactionHint, SourceBlock, State, AdapterError, Adapted,
  expect_account, find,
}
use shielded_ledger_hivemind.Adapter.Hints.{kind_of, memos-discrete, verify_hint}
use shielded_ledger_hivemind.Adapter.Hints.Stable.{Extends}
use shielded_ledger_hivemind.Adapter.Translation.{
  translate_source, rebuild_from, certification_tree,
}
use shielded_ledger_hivemind.Adapter.Translation.Chain.{Rebuilt, rebuild_from-Rebuilt}
use shielded_ledger_hivemind.Adapter.Fetch.{Canisters, fetch_source}
use shielded_ledger_hivemind.Adapter.Fetch.Exact.{AllExact, Linked, fetch_source-Linked}
use shielded_ledger_hivemind.Adapter.Calls.{
  GetBlocksArgs, register_transaction_hint, sync_finish, configure_begin, configure_finish,
  nat_to_usize, blocks_of,
}
use shielded_ledger_hivemind.Adapter.Calls.Invariant.{WellFormed}
use shielded_ledger_hivemind.Adapter.Calls.Reachable.{
  default_state, Reachable, Reachable-WellFormed, Reachable-Rebuilt,
}
use shielded_ledger_hivemind.Adapter.Calls.Sync.{SyncOutcome, sync_finish_outcome}
use shielded_ledger_hivemind.Adapter.Calls.Seals.{register_transaction_hint_sealed}
use shielded_ledger_hivemind.Adapter.Calls.Answers.{
  register_transaction_hint-hints, configure_overlap, certified_tree, nat_to_usize_wraps, with_id,
  blocks_of-get_elem?,
}
use shielded_ledger_hivemind.Adapter.Toy.{
  xfer_block, toy_crates, toy_trees, xfer_hint, xfer_source, synced, hinted, xfer_exact,
  synced-WellFormed,
}

abbrev longer : State
longer = record hinted { source = xfer_source ∷ xfer_source ∷ [] }

longer-Extends : Extends hinted longer
longer-Extends = record { accounts = λ id a h. h; source = more }
  where
    more :
        (i : ℕ) (b : SourceBlock)
        → get_elem? hinted.source i ≡ some b
        → get_elem? longer.source i ≡ some b
    more zero b h = h
    more (suc i) b h = cc

rebuild_run :
    rebuild_from toy_crates hinted 1 0 none ≡ ok (translate_source xfer_source xfer_hint none ∷ [])
unfolding rebuild_from verify_hint expect_account account_identifier Bytes-discrete Account-discrete
    memos-discrete kind_of find ℕ_discrete
rebuild_run = refl

rebuild_from-Rebuilt_example :
    Rebuilt toy_crates hinted 1 0 none (translate_source xfer_source xfer_hint none ∷ [])
rebuild_from-Rebuilt_example =
    rebuild_from-Rebuilt toy_crates hinted 1 0 none
      (translate_source xfer_source xfer_hint none ∷ []) rebuild_run

abbrev other_account : Account
other_account = record { owner = 6 ∷ []; subaccount = none }

abbrev fetched_answer : Adapted (List SourceBlock × ℕ)
fetched_answer = ok (xfer_source ∷ [], 0)

sync_finish_outcome_example :
    SyncOutcome toy_crates toy_trees synced fetched_answer
      (sync_finish toy_crates toy_trees synced fetched_answer)
sync_finish_outcome_example =
    sync_finish_outcome toy_crates toy_trees synced fetched_answer synced-WellFormed (λ source n e.
      subst (λ (r : List SourceBlock × ℕ). AllExact toy_crates r.0) (ok-injective e) xfer_exact)

abbrev canisters : Canisters
canisters = record {
  query_blocks = λ ledger args. ok (record {
    chain_length = 1;
    first_block_index = 0;
    blocks = xfer_block ∷ [];
    archived_blocks = [];
  });
  query_encoded_blocks = λ ledger args. ok (record {
    chain_length = 1;
    first_block_index = 0;
    blocks = (1 ∷ []) ∷ [];
    archived_blocks = [];
  });
  archived = λ callback args. err (AdapterError.text "no archive");
  archived_encoded = λ callback args. err (AdapterError.text "no archive");
}

fetch_run : fetch_source toy_crates canisters (8 ∷ []) ≡ fetched_answer
unfolding fetch_source decode_protobuf protobuf_of decode_operation encode_operation
    canonical_account Block-discrete Bytes-discrete ℕ_discrete
fetch_run = refl

fetch_source-Linked_example :
    AllExact toy_crates (xfer_source ∷ []) × Linked toy_crates none (xfer_source ∷ [])
fetch_source-Linked_example =
    fetch_source-Linked toy_crates canisters (8 ∷ []) (xfer_source ∷ []) 0 fetch_run

sealed_there : find ℕ_discrete 0 hinted.hints ≡ some xfer_hint
unfolding find ℕ_discrete
sealed_there = refl

abbrev other_hint : TransactionHint
other_hint = record xfer_hint { amount = 6 }

register_transaction_hint-hints_example :
    find ℕ_discrete 0
      (register_transaction_hint toy_crates toy_trees hinted (9 ∷ []) other_hint).0.hints
    ≡ some xfer_hint
register_transaction_hint-hints_example =
    register_transaction_hint-hints toy_crates toy_trees hinted (9 ∷ []) other_hint 0 xfer_hint
      sealed_there

xfer_accepted : verify_hint toy_crates synced xfer_hint ≡ ok tt
unfolding verify_hint expect_account account_identifier Bytes-discrete Account-discrete
    memos-discrete kind_of find ℕ_discrete
xfer_accepted = refl

xfer_fresh : find ℕ_discrete 0 synced.hints ≡ none
unfolding find
xfer_fresh = refl

register_transaction_hint_sealed_example :
    (t : State) × (register_transaction_hint toy_crates toy_trees synced (9 ∷ []) xfer_hint
      ≡ (t, ok 0))
    × (find ℕ_discrete 0 t.hints ≡ some xfer_hint)
    × (register_transaction_hint toy_crates toy_trees t (9 ∷ []) xfer_hint ≡ (t, ok 0))
register_transaction_hint_sealed_example =
    register_transaction_hint_sealed toy_crates toy_trees synced (9 ∷ []) xfer_hint
      synced-WellFormed refl xfer_fresh xfer_accepted

abbrev unconfigured : State
unconfigured = record synced { ledger = none; registrar = none }

configure_overlap_example :
    let r1 = configure_finish toy_crates toy_trees unconfigured (1 ∷ []) (2 ∷ []) (ok 1) (ok 8) in
    let r2 = configure_finish toy_crates toy_trees r1.0 (3 ∷ []) (4 ∷ []) (ok 1) (ok 8) in
    (configure_begin unconfigured ≡ ok tt)
    × (r1.1 ≡ ok (1, 8))
    × (r2.1 ≡ ok (1, 8))
    × (r1.0.registrar ≡ some (2 ∷ []))
    × (r2.0.registrar ≡ some (4 ∷ []))
    × (r2.0.ledger ≡ some (3 ∷ []))
configure_overlap_example =
    configure_overlap toy_crates toy_trees unconfigured (1 ∷ []) (2 ∷ []) (3 ∷ []) (4 ∷ []) 1 1 refl

abbrev translated_once : State
translated_once = record hinted { translated = Value.nat 3 ∷ [] }

abbrev toy_tree : Bytes
toy_tree = certified_tree toy_crates toy_trees (3 ∷ []) 0 (8 ∷ []) (1 ∷ [])

certification_run : certification_tree toy_crates toy_trees translated_once ≡ some toy_tree
unfolding certification_tree hash_value
certification_run = refl

nat_to_usize_wraps_example : nat_to_usize (3 * 2 ^ 64) ≡ nat_to_usize (3 * 2 ^ 64 % 2 ^ 64)
nat_to_usize_wraps_example = nat_to_usize_wraps (3 * 2 ^ 64)

abbrev two_blocks : List Value
two_blocks = Value.nat 3 ∷ Value.nat 4 ∷ []

abbrev second : GetBlocksArgs
second = record { start = 1; length = 1 }

blocks_of-get_elem?_example :
    get_elem? (blocks_of two_blocks second) 0 ≡ Option.map (with_id 1) (get_elem? two_blocks 1)
blocks_of-get_elem?_example =
    blocks_of-get_elem? two_blocks second 0 (omega arith) (omega arith) (omega arith)

-- Configured, then synced with the ledger of one block.
abbrev configured_state : State
configured_state =
    (configure_finish toy_crates toy_trees default_state (8 ∷ []) (9 ∷ []) (ok 1) (ok 8)).0

abbrev synced_state : State
synced_state =
    (sync_finish toy_crates toy_trees configured_state
      (fetch_source toy_crates canisters (8 ∷ []))).0

synced_state-Reachable : Reachable toy_crates toy_trees synced_state
synced_state-Reachable =
    Reachable.synced configured_state canisters (8 ∷ [])
      (Reachable.configured default_state (8 ∷ []) (9 ∷ []) (ok 1) (ok 8) Reachable.start)

Reachable-WellFormed_example : WellFormed toy_crates synced_state
Reachable-WellFormed_example =
    Reachable-WellFormed toy_crates toy_trees synced_state synced_state-Reachable

Reachable-Rebuilt_example :
    (vs : List Value) × (rebuild_from toy_crates synced_state (length synced_state.source) 0 none
      ≡ ok vs)
    × Rebuilt toy_crates synced_state (length synced_state.source) 0 none vs
Reachable-Rebuilt_example =
    Reachable-Rebuilt toy_crates toy_trees synced_state synced_state-Reachable
