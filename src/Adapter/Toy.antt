-- ===== src/Adapter/Toy.antt =====
-- A legacy ledger of one transfer, fetched and configured in the adapter of nns_adapter/src/lib.rs.
use native.Mathlib.Decide.{ℕ_discrete}
use shielded_ledger_hivemind.Common.{
  ◌≡◌, refl, true, false, none, some, [], ◌∷◌, ◌++◌, ok, replicate,
}
use shielded_ledger_hivemind.Adapter.Legacy.Messages.{
  Bytes, Bytes-discrete, Operation, Block, Crates,
}
use shielded_ledger_hivemind.Adapter.Legacy.Accounts.{canonical_account, account_identifier}
use shielded_ledger_hivemind.Adapter.Legacy.Operations.{decode_operation, encode_operation}
use shielded_ledger_hivemind.Adapter.Legacy.Blocks.{protobuf_of, decode_protobuf, decode_exact}
use shielded_ledger_hivemind.Adapter.State.{
  Account, Account-discrete, TransactionHint, SourceBlock, State, expect_account, find,
}
use shielded_ledger_hivemind.Adapter.Hints.{one_xfer, kind_of, memos-discrete, verify_hint}
use shielded_ledger_hivemind.Adapter.Translation.{HashTrees}
use shielded_ledger_hivemind.Adapter.Fetch.Exact.{AllExact}
use shielded_ledger_hivemind.Adapter.Calls.Invariant.{WellFormed}

-- A transfer of 5 with fee 1 between accounts of one owner, at time 44.
abbrev identifier : Bytes
identifier = replicate 32 0

abbrev pub xfer_block : Block
xfer_block = record {
  parent_hash = none;
  transaction = record {
    memo = 0;
    icrc1_memo = none;
    operation =
        some
          (Operation.transfer identifier identifier (record { e8s = 5 }) (record { e8s = 1 }) none);
    created_at_time = record { timestamp_nanos = 44 };
  };
  timestamp = record { timestamp_nanos = 44 };
}

abbrev pub toy_crates : Crates
toy_crates = record {
  crc32 = λ b. replicate 4 0;
  sha224 = λ b. replicate 28 0;
  sha256 = λ b. b;
  pb_decode = λ b. some (protobuf_of xfer_block true);
  pb_encode = λ m. 1 ∷ [];
}

abbrev pub toy_trees : HashTrees Bytes
toy_trees = record { fork = λ s t. s ++ t; labeled = λ l t. l ++ t; leaf = λ b. b; digest = λ t. t }

abbrev owner : Account
owner = record { owner = 7 ∷ []; subaccount = none }

abbrev pub xfer_hint : TransactionHint
xfer_hint = record {
  block_index = 0;
  btype = one_xfer;
  from = owner;
  to = some owner;
  spender = none;
  amount = 5;
  effective_fee = 1;
  fee_was_supplied = false;
  memo = none;
  created_at_time = some 44;
  expected_allowance = none;
  expires_at = none;
}

abbrev pub xfer_source : SourceBlock
xfer_source = record {
  candid = xfer_block;
  encoded = 1 ∷ [];
  encoded_hash = 1 ∷ [];
  created_at_time_present = true;
}

-- Configured and synced, without hints.
abbrev pub synced : State
synced = record {
  ledger = some (8 ∷ []);
  registrar = some (9 ∷ []);
  fee = some 1;
  decimals = some 8;
  accounts = (identifier, owner) ∷ [];
  hints = [];
  sealed_conflicts = [];
  source = xfer_source ∷ [];
  translated = [];
  archive_ranges = 0;
  encoded_roundtrips = 1;
  candid_semantic_matches = 1;
  certified_data = replicate 32 0;
}

abbrev pub hinted : State
hinted = record synced { hints = (0, xfer_hint) ∷ [] }

pub xfer_exact : AllExact toy_crates (xfer_source ∷ [])
unfolding decode_exact decode_protobuf protobuf_of decode_operation encode_operation
    canonical_account Bytes-discrete ℕ_discrete
xfer_exact = (refl, tt)

pub synced-WellFormed : WellFormed toy_crates synced
unfolding find
synced-WellFormed = record { exact = xfer_exact; sealed = λ i hint there. cc }

verify_hint_run : verify_hint toy_crates hinted xfer_hint ≡ ok tt
unfolding verify_hint expect_account account_identifier Bytes-discrete Account-discrete
    memos-discrete kind_of find ℕ_discrete
verify_hint_run = refl
