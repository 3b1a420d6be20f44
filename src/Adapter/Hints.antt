-- ===== src/Adapter/Hints.antt =====
-- `verify_hint` of nns_adapter/src/lib.rs: the hint of a block against the block itself.
pub mod Stable
use native.Mathlib.Decide.{ℕ_discrete}
use mathlib.Core.Logic.{ite}
use shielded_ledger_hivemind.Common.{
  ℕ, ◌%◌, ◌^◌, ℤ, pos, Bool, true, false, not, ◌||◌, Option, none, some, [], ◌∷◌, err, ok_or,
  fail_if, ◌>>=◌, ◌>>◌, ◌==◌, get_elem?,
}
use mathlib.Core.Option
use shielded_ledger_hivemind.Adapter.Legacy.Messages.{
  Bytes, Bytes-discrete, Operation, Tokens, TimeStamp, Crates,
}
use shielded_ledger_hivemind.Adapter.Legacy.Blocks.{is_some}
use shielded_ledger_hivemind.Adapter.State.{
  TransactionHint, SourceBlock, State, AdapterError, Adapted, require, expect_account,
}

-- The block types "1xfer", "2xfer" and "2approve".
abbrev pub one_xfer : Bytes
one_xfer = b'1' ∷ b'x' ∷ b'f' ∷ b'e' ∷ b'r' ∷ []

abbrev pub two_xfer : Bytes
two_xfer = b'2' ∷ b'x' ∷ b'f' ∷ b'e' ∷ b'r' ∷ []

abbrev pub two_approve : Bytes
two_approve = b'2' ∷ b'a' ∷ b'p' ∷ b'p' ∷ b'r' ∷ b'o' ∷ b'v' ∷ b'e' ∷ []

-- What the string patterns of the match tell apart.
pub data Kind : Type 0 where
  transfer transfer_from approve other : Kind

unfoldable pub kind_of : Bytes → Kind
kind_of btype = ite (Bytes-discrete btype one_xfer) Kind.transfer (
    ite (Bytes-discrete btype two_xfer) Kind.transfer_from
      (ite (Bytes-discrete btype two_approve) Kind.approve Kind.other))

unfoldable pub ℤ-discrete : Discrete ℤ
ℤ-discrete = hlevel ℕ_discrete

unfoldable pub numbers-discrete : Discrete (Option ℕ)
numbers-discrete = hlevel ℕ_discrete

unfoldable pub memos-discrete : Discrete (Option Bytes)
memos-discrete = hlevel ℕ_discrete

abbrev pub same : Bool → Bool → Bool
same true b = b
same false b = not b

abbrev pub usize : ℕ → ℕ
usize n = n % 2 ^ 32

module _ (hint : TransactionHint) where
  -- The construction time, given or substituted.
  abbrev pub verify_time : SourceBlock → Option ℕ → Adapted (Unit {0})
  verify_time source (some created_at_time) =
      fail_if (not (source.candid.transaction.created_at_time.timestamp_nanos == created_at_time))
        (AdapterError.text "created_at_time differs from legacy block")
  verify_time source none =
      fail_if
        (not (
          source.candid.transaction.created_at_time.timestamp_nanos
          == source.candid.timestamp.timestamp_nanos))
        (AdapterError.text "absent construction time was not substituted by block time")

  -- The checks of the presence bit, the memos and the time, and the operation.
  unfoldable pub verify_request : SourceBlock → Adapted Operation
  verify_request source = do
    fail_if (not (same source.created_at_time_present (is_some hint.created_at_time)))
        (AdapterError.text "created_at_time presence bit differs from encoded protobuf")
    require (memos-discrete source.candid.transaction.icrc1_memo hint.memo)
        (AdapterError.text "memo presence/value differs from legacy block")
    fail_if (not (source.candid.transaction.memo == 0))
        (AdapterError.text "numeric legacy memo is not an ICRC request hint")
    verify_time source hint.created_at_time
    ok_or source.candid.transaction.operation (AdapterError.text "legacy operation is absent")

module _ (C : Crates) (state : State) (hint : TransactionHint) where
  -- The match on the block type and the operation.
  unfoldable pub verify_operation : Kind → Operation → Adapted (Unit {0})
  verify_operation Kind.transfer (Operation.transfer from to amount fee none) = do
    expect_account C state hint.from from "from"
    to_hint ← ok_or hint.to (AdapterError.text "1xfer hint is missing to")
    expect_account C state to_hint to "to"
    fail_if (is_some hint.spender) (AdapterError.text "1xfer hint unexpectedly has spender")
    fail_if (is_some hint.expected_allowance || is_some hint.expires_at)
        (AdapterError.text "1xfer hint contains approve-only fields")
    fail_if (not (amount.e8s == hint.amount) || not (fee.e8s == hint.effective_fee))
        (AdapterError.text "1xfer amount/effective fee differs")
  verify_operation Kind.transfer_from (Operation.transfer from to amount fee (some observed)) = do
    expect_account C state hint.from from "from"
    to_hint ← ok_or hint.to (AdapterError.text "2xfer hint is missing to")
    expect_account C state to_hint to "to"
    spender ← ok_or hint.spender (AdapterError.text "2xfer hint is missing spender")
    expect_account C state spender observed "spender"
    fail_if (not (amount.e8s == hint.amount) || not (fee.e8s == hint.effective_fee))
        (AdapterError.text "2xfer amount/effective fee differs")
    fail_if (is_some hint.expected_allowance || is_some hint.expires_at)
        (AdapterError.text "2xfer hint contains approve-only fields")
  verify_operation Kind.approve
        (Operation.approve from spender allowance_e8s allowance fee expires_at expected) =
      do
        expect_account C state hint.from from "from"
        spender_hint ← ok_or hint.spender (AdapterError.text "2approve hint is missing spender")
        expect_account C state spender_hint spender "spender"
        fail_if (is_some hint.to) (AdapterError.text "2approve hint unexpectedly has to")
        fail_if (not (allowance.e8s == hint.amount) || not (fee.e8s == hint.effective_fee))
            (AdapterError.text "2approve allowance/effective fee differs")
        require (ℤ-discrete allowance_e8s (pos allowance.e8s))
            (AdapterError.text "2approve deprecated allowance_e8s differs from allowance")
        require
            (numbers-discrete (Option.map (λ (t : TimeStamp). t.timestamp_nanos) expires_at)
              hint.expires_at)
            (AdapterError.text "2approve optional fields differ")
        require
            (numbers-discrete (Option.map (λ (t : Tokens). t.e8s) expected) hint.expected_allowance)
            (AdapterError.text "2approve optional fields differ")
  verify_operation kind operation =
      err (AdapterError.text "hint operation kind differs from legacy operation")

  -- `verify_hint` after the source block has been looked up.
  unfoldable pub verify_source : SourceBlock → Adapted (Unit {0})
  unfolding verify_request verify_operation
  verify_source source = do
    operation ← verify_request hint source
    verify_operation (kind_of hint.btype) operation

  unfoldable pub verify_hint : Adapted (Unit {0})
  unfolding verify_source
  verify_hint = do
    source ←
        ok_or (get_elem? state.source (usize hint.block_index))
          (AdapterError.text "source block has not been synced")
    verify_source source
