-- ===== src/Adapter/Legacy/Blocks.antt =====
-- `decode_exact`, `encode_from_candid` and `hash_encoded` of nns_adapter/src/legacy.rs.
pub mod RoundTrip
use mathlib.Core.Logic.{ite}
use mathlib.Core.Option
use shielded_ledger_hivemind.Common.{
  ℕ, ◌≡◌, Bool, true, false, Option, none, some, ok, err, fail_if, ok_or, ◌>>=◌, ◌>>◌, ◌==◌, length,
  if◌then◌else◌,
}
use shielded_ledger_hivemind.Adapter.Legacy.Messages.{
  Bytes, Bytes-discrete, Operation, Block, PbHash, PbTimeStamp, PbMemo, PbIcrc1Memo, PbBlock,
  DecodedBlock, undecodable, reencoding_differs, parent_hash_length, obsolete_created_at, Decoded,
  Crates,
}
use shielded_ledger_hivemind.Adapter.Legacy.Accounts.{required}
use shielded_ledger_hivemind.Adapter.Legacy.Operations.{
  transpose, decode_operation, encode_operation, IsWellFormed,
}

-- `protobuf.parent_hash.map(...)`
unfoldable pub decode_parent_hash : PbHash → Decoded Bytes
decode_parent_hash value = if length value.hash == 32 then ok value.hash else err parent_hash_length

abbrev pub is_some {ℓ} : {A : Type ℓ} → Option A → Bool
is_some none = false
is_some (some a) = true

abbrev pub nanos_of : Option PbTimeStamp → ℕ → ℕ
nanos_of none timestamp = timestamp
nanos_of (some t) timestamp = t.timestamp_nanos

abbrev pub memo_of : Option PbMemo → ℕ
memo_of none = 0
memo_of (some m) = m.memo

abbrev pub then_some {ℓ} : {A : Type ℓ} → Bool → A → Option A
then_some true a = some a
then_some false a = none

abbrev pub IsHash? : Option Bytes → Type 0
IsHash? none = Unit
IsHash? (some h) = length h ≡ 32

-- The message that `encode_from_candid` builds.
unfoldable pub protobuf_of : Block → Bool → PbBlock
protobuf_of block created_at_time_present =
    let transaction = block.transaction in
    record {
      parent_hash = Option.map (λ (h : Bytes). record { hash = h }) block.parent_hash;
      timestamp = some (record { timestamp_nanos = block.timestamp.timestamp_nanos });
      transaction = some (record {
        memo = some (record { memo = transaction.memo });
        icrc1_memo = Option.map (λ (m : Bytes). record { memo = m }) transaction.icrc1_memo;
        created_at = none;
        created_at_time =
            then_some created_at_time_present
              (record { timestamp_nanos = transaction.created_at_time.timestamp_nanos });
        transfer = Option.map encode_operation transaction.operation;
      });
    }

module _ (C : Crates) where
  -- `decode_exact` after the bytes have been decoded and encoded again.
  unfoldable pub decode_protobuf : PbBlock → Bytes → Decoded DecodedBlock
  unfolding decode_parent_hash required
  decode_protobuf protobuf encoded = do
    parent_hash ← transpose (Option.map decode_parent_hash protobuf.parent_hash)
    stamp ← required protobuf.timestamp "block.timestamp"
    transaction ← required protobuf.transaction "block.transaction"
    fail_if (is_some transaction.created_at) obsolete_created_at
    operation ← transpose (Option.map (decode_operation C) transaction.transfer)
    ok (record {
      block = record {
        parent_hash = parent_hash;
        transaction = record {
          memo = memo_of transaction.memo;
          icrc1_memo = Option.map (λ (m : PbIcrc1Memo). m.memo) transaction.icrc1_memo;
          operation = operation;
          created_at_time = record {
            timestamp_nanos = nanos_of transaction.created_at_time stamp.timestamp_nanos;
          };
        };
        timestamp = record { timestamp_nanos = stamp.timestamp_nanos };
      };
      created_at_time_present = is_some transaction.created_at_time;
      encoded_hash = C.sha256 encoded;
    })

  unfoldable pub decode_exact : Bytes → Decoded DecodedBlock
  decode_exact encoded = do
    protobuf ← ok_or (C.pb_decode encoded) undecodable
    ite (Bytes-discrete (C.pb_encode protobuf) encoded) (ok tt) (err reencoding_differs)
    decode_protobuf protobuf encoded

  unfoldable pub hash_encoded : Bytes → Bytes
  hash_encoded encoded = C.sha256 encoded

  unfoldable pub encode_from_candid : Block → Bool → Bytes
  unfolding protobuf_of
  encode_from_candid block created_at_time_present =
      C.pb_encode (protobuf_of block created_at_time_present)

  abbrev pub IsWellFormed? : Option Operation → Type 0
  IsWellFormed? none = Unit
  IsWellFormed? (some op) = IsWellFormed C op

  -- A block as the Candid interface gives it: a parent hash is 32 bytes wide, the operation is well
  -- formed, and a construction time that was absent is the block's time.
  pub record IsBlock (b : Block) (present : Bool) : Type 0 where
    pub parent : IsHash? b.parent_hash
    pub operation : IsWellFormed? b.transaction.operation
    pub substituted :
        present ≡ false
        → b.transaction.created_at_time.timestamp_nanos ≡ b.timestamp.timestamp_nanos

-- The codec that `prost` derives decodes what it encodes, on the two messages of a block.
abbrev pub Decodes : Crates → Block → Type 0
Decodes C b =
    (present : Bool)
    → C.pb_decode (C.pb_encode (protobuf_of b present)) ≡ some (protobuf_of b present)
