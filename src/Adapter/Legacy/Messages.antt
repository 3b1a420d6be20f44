-- ===== src/Adapter/Legacy/Messages.antt =====
-- The data types of nns_adapter/src/legacy.rs: the Candid forms and the protobuf messages. A byte
-- string, `ByteBuf` or `Vec<u8>`, is a list of numbers, and a `u64` is a number.
use Prim.Native.String.{String}
use native.Mathlib.Decide.{ℕ_discrete}
use shielded_ledger_hivemind.Common.{ℕ, ℤ, Bool, Option, List, Result}

abbrev pub Bytes : Type 0
Bytes = List ℕ

pub record Tokens : Type 0 where
  pub e8s : ℕ

pub record TimeStamp : Type 0 where
  pub timestamp_nanos : ℕ

-- `mint to amount`, `burn from spender amount`, `transfer from to amount fee spender`,
-- `approve from spender allowance_e8s allowance fee expires_at expected_allowance`.
pub data Operation : Type 0 where
  mint : Bytes → Tokens → Operation
  burn : Bytes → Option Bytes → Tokens → Operation
  transfer : Bytes → Bytes → Tokens → Tokens → Option Bytes → Operation
  approve : Bytes → Bytes → ℤ → Tokens → Tokens → Option TimeStamp → Option Tokens → Operation

pub record Transaction : Type 0 where
  pub memo : ℕ
  pub icrc1_memo : Option Bytes
  pub operation : Option Operation
  pub created_at_time : TimeStamp

pub record Block : Type 0 where
  pub parent_hash : Option Bytes
  pub transaction : Transaction
  pub timestamp : TimeStamp

-- `PbHash`, `PbTimeStamp`, `PbAccountIdentifier`, `PbTokens`, `PbMemo`, `PbIcrc1Memo`, `PbBlockIndex`.
pub record PbHash : Type 0 where
  pub hash : Bytes

pub record PbTimeStamp : Type 0 where
  pub timestamp_nanos : ℕ

pub record PbAccountIdentifier : Type 0 where
  pub hash : Bytes

pub record PbTokens : Type 0 where
  pub e8s : ℕ

pub record PbMemo : Type 0 where
  pub memo : ℕ

pub record PbIcrc1Memo : Type 0 where
  pub memo : Bytes

pub record PbBlockIndex : Type 0 where
  pub height : ℕ

pub record PbTransferFrom : Type 0 where
  pub spender : Option PbAccountIdentifier

pub record PbApprove : Type 0 where
  pub allowance : Option PbTokens
  pub expires_at : Option PbTimeStamp
  pub expected_allowance : Option PbTokens

-- `pb_send::Extension`
pub data Extension : Type 0 where
  approve : PbApprove → Extension
  transfer_from : PbTransferFrom → Extension

pub record PbSend : Type 0 where
  pub from : Option PbAccountIdentifier
  pub to : Option PbAccountIdentifier
  pub amount : Option PbTokens
  pub max_fee : Option PbTokens
  pub extension : Option Extension

pub record PbMint : Type 0 where
  pub to : Option PbAccountIdentifier
  pub amount : Option PbTokens

pub record PbBurn : Type 0 where
  pub from : Option PbAccountIdentifier
  pub amount : Option PbTokens
  pub spender : Option PbAccountIdentifier

-- `pb_transaction::Transfer`
pub data Transfer : Type 0 where
  burn : PbBurn → Transfer
  mint : PbMint → Transfer
  send : PbSend → Transfer

pub record PbTransaction : Type 0 where
  pub memo : Option PbMemo
  pub icrc1_memo : Option PbIcrc1Memo
  pub created_at : Option PbBlockIndex
  pub created_at_time : Option PbTimeStamp
  pub transfer : Option Transfer

pub record PbBlock : Type 0 where
  pub parent_hash : Option PbHash
  pub timestamp : Option PbTimeStamp
  pub transaction : Option PbTransaction

pub record DecodedBlock : Type 0 where
  pub block : Block
  pub created_at_time_present : Bool
  pub encoded_hash : Bytes

-- The error texts of the source.
pub data LegacyError : Type 0 where
  missing_field : String → LegacyError
  checksum_mismatch : LegacyError
  invalid_account_length : ℕ → LegacyError
  undecodable : LegacyError
  reencoding_differs : LegacyError
  parent_hash_length : LegacyError
  obsolete_created_at : LegacyError
  subaccount_length : ℕ → LegacyError

abbrev pub Decoded : Type 0 → Type 0
Decoded = Result LegacyError

unfoldable pub Bytes-discrete : Discrete Bytes
Bytes-discrete = hlevel ℕ_discrete

unfoldable pub Block-discrete : Discrete Block
Block-discrete = hlevel ℕ_discrete

-- The crates that the adapter calls: `crc32fast` with big-endian bytes, `sha2`, and the protobuf
-- codec that `prost` derives for `PbBlock`.
pub record Crates : Type 0 where
  pub crc32 : Bytes → Bytes
  pub sha224 : Bytes → Bytes
  pub sha256 : Bytes → Bytes
  pub pb_decode : Bytes → Option PbBlock
  pub pb_encode : PbBlock → Bytes
