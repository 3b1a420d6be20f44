-- ===== src/Adapter/State.antt =====
-- The state of nns_adapter/src/lib.rs and its account lookups. A `BTreeMap` is an association list, of
-- which the first pair with a key counts; a principal and a text are their bytes.
use Prim.Native.String.{String}
use native.Mathlib.Decide.{ℕ_discrete}
use mathlib.Core.Logic.{ite}
use shielded_ledger_hivemind.Common.{
  ℕ, Bool, Option, none, some, List, [], ◌∷◌, Result, ok, err, ◌>>=◌,
}
use shielded_ledger_hivemind.Adapter.Legacy.Messages.{
  Bytes, Bytes-discrete, Block, LegacyError, Crates, Decoded,
}
use shielded_ledger_hivemind.Adapter.Legacy.Accounts.{account_identifier}
use shielded_ledger_hivemind.Adapter.Values.{Value, Values}

pub record Account : Type 0 where
  pub owner : Bytes
  pub subaccount : Option Bytes

pub record TransactionHint : Type 0 where
  pub block_index : ℕ
  pub btype : Bytes
  pub from : Account
  pub to : Option Account
  pub spender : Option Account
  pub amount : ℕ
  pub effective_fee : ℕ
  pub fee_was_supplied : Bool
  pub memo : Option Bytes
  pub created_at_time : Option ℕ
  pub expected_allowance : Option ℕ
  pub expires_at : Option ℕ

pub record SourceBlock : Type 0 where
  pub candid : Block
  pub encoded : Bytes
  pub encoded_hash : Bytes
  pub created_at_time_present : Bool

-- `certified_data` is what `set_certified_data` was last given.
pub record State : Type 0 where
  pub ledger : Option Bytes
  pub registrar : Option Bytes
  pub fee : Option ℕ
  pub decimals : Option ℕ
  pub accounts : List (Bytes × Account)
  pub hints : List (ℕ × TransactionHint)
  pub sealed_conflicts : List ℕ
  pub source : List SourceBlock
  pub translated : List Value
  pub archive_ranges : ℕ
  pub encoded_roundtrips : ℕ
  pub candid_semantic_matches : ℕ
  pub certified_data : Bytes

-- The error texts of the source; a number is what is formatted into the text.
pub data AdapterError : Type 0 where
  legacy : LegacyError → AdapterError
  text : String → AdapterError
  text_at : String → ℕ → AdapterError
  nested : String → AdapterError → AdapterError

abbrev pub Adapted : Type 0 → Type 0
Adapted = Result AdapterError

-- `?` on a string error of legacy.rs.
abbrev pub of_decoded : {A : Type 0} → Decoded A → Adapted A
of_decoded (ok a) = ok a
of_decoded (err e) = err (AdapterError.legacy e)

unfoldable pub Account-discrete : Discrete Account
Account-discrete = hlevel ℕ_discrete

unfoldable pub TransactionHint-discrete : Discrete TransactionHint
TransactionHint-discrete = hlevel ℕ_discrete

-- `BTreeMap::get`
unfoldable pub find : {K V : Type 0} → Discrete K → K → List (K × V) → Option V
find d key [] = none
find d key ((k, v) ∷ rest) = ite (d k key) (some v) (find d key rest)

-- `if !condition { return Err(e) }`
abbrev pub require : {P : Type 0} → Dec P → AdapterError → Adapted (Unit {0})
require d e = ite d (ok tt) (err e)

-- `registered_account` at a known identifier.
unfoldable pub registered_as : State → Account → Bytes → Adapted Bytes
unfolding find
registered_as state account id = elim (find Bytes-discrete id state.accounts) [
  | some registered ↦
      ite (Account-discrete registered account) (ok id)
        (err (AdapterError.text "account identifier collision with different preimage"))
  | none ↦ err (AdapterError.text "account preimage is not registered")
]

module _ (C : Crates) where
  unfoldable pub account_id : Account → Adapted Bytes
  account_id account = of_decoded (account_identifier C account.owner account.subaccount)

  unfoldable pub registered_account : State → Account → Adapted Bytes
  unfolding account_id registered_as
  registered_account state account = do id ← account_id account; registered_as state account id

  unfoldable pub expect_account : State → Account → Bytes → String → Adapted (Unit {0})
  unfolding registered_account
  expect_account state account observed field = do
    id ← registered_account state account
    require (Bytes-discrete observed id) (
        AdapterError.nested field
          (AdapterError.text "account preimage does not match legacy identifier"))

unfoldable pub account_value : Account → Value
account_value account = elim account.subaccount [
  | none ↦ Value.array (Values.cons (Value.blob account.owner) Values.nil)
  | some subaccount ↦
      Value.array
        (Values.cons (Value.blob account.owner) (Values.cons (Value.blob subaccount) Values.nil))
]
