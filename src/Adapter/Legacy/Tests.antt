-- ===== src/Adapter/Legacy/Tests.antt =====
-- The theorems on nns_adapter/src/legacy.rs at checksums of constant bytes and a codec of one block.
use shielded_ledger_hivemind.Common.{
  zero, suc, ◌≡◌, ◌≢◌, refl, Bool, true, false, Option, none, some, [], ◌∷◌, ok, replicate,
}
use shielded_ledger_hivemind.Adapter.Legacy.Messages.{
  Bytes, Operation, Block, PbBlock, PbAccountIdentifier, DecodedBlock, Crates,
}
use shielded_ledger_hivemind.Adapter.Legacy.Accounts.{
  HasWidths, IsIdentifier, canonical_account, account_identifier,
}
use shielded_ledger_hivemind.Adapter.Legacy.Operations.{
  decode_operation, encode_operation, decode_operation-encode_operation,
}
use shielded_ledger_hivemind.Adapter.Legacy.Blocks.{
  protobuf_of, decode_exact, hash_encoded, encode_from_candid, IsBlock, Decodes, is_some,
}
use shielded_ledger_hivemind.Adapter.Legacy.Blocks.RoundTrip.{
  decoded_as, decode_exact-encode_from_candid, presence_bit_lost, decode_exact-IsBlock,
}

-- A mint of 5 tokens, in a block whose construction time is the block's time.
abbrev identifier : Bytes
identifier = replicate 32 0

abbrev mint5 : Operation
mint5 = Operation.mint identifier (record { e8s = 5 })

abbrev mint_block : Block
mint_block = record {
  parent_hash = some (replicate 32 1);
  transaction = record {
    memo = 0;
    icrc1_memo = none;
    operation = some mint5;
    created_at_time = record { timestamp_nanos = 44 };
  };
  timestamp = record { timestamp_nanos = 44 };
}

has_time : PbBlock → Bool
has_time m = elim m.transaction [ none ↦ false | some t ↦ is_some t.created_at_time ]

mark : Bool → Bytes
mark true = 1 ∷ []
mark false = 0 ∷ []

unmark : Bytes → Option PbBlock
unmark (suc zero ∷ []) = some (protobuf_of mint_block true)
unmark (zero ∷ []) = some (protobuf_of mint_block false)
unmark (suc (suc n) ∷ []) = none
unmark (a ∷ b ∷ r) = none
unmark [] = none

abbrev toy_crates : Crates
toy_crates = record {
  crc32 = λ b. replicate 4 0;
  sha224 = λ b. replicate 28 0;
  sha256 = λ b. b;
  pb_decode = unmark;
  pb_encode = λ m. mark (has_time m);
}

toy-HasWidths : HasWidths toy_crates
toy-HasWidths = record { crc32_width = λ b. refl; sha224_width = λ b. refl }

toy-Decodes : Decodes toy_crates mint_block
unfolding protobuf_of has_time mark unmark
toy-Decodes true = refl
toy-Decodes false = refl

identifier-IsIdentifier : IsIdentifier toy_crates identifier
identifier-IsIdentifier = (refl, refl)

mint_block-IsBlock : IsBlock toy_crates mint_block false
mint_block-IsBlock = record {
  parent = refl;
  operation = identifier-IsIdentifier;
  substituted = λ e. refl;
}

abbrev short_account : PbAccountIdentifier
short_account = record { hash = replicate 28 0 }

short_account_run : canonical_account toy_crates short_account ≡ ok identifier
unfolding canonical_account
short_account_run = refl

owner_run : account_identifier toy_crates (7 ∷ []) none ≡ ok identifier
unfolding account_identifier
owner_run = refl

decode_operation-encode_operation_example :
    decode_operation toy_crates (encode_operation mint5) ≡ ok mint5
decode_operation-encode_operation_example =
    decode_operation-encode_operation toy_crates toy-HasWidths mint5 identifier-IsIdentifier

decode_exact-encode_from_candid_example :
    decode_exact toy_crates (encode_from_candid toy_crates mint_block false)
    ≡ ok (decoded_as toy_crates mint_block false (encode_from_candid toy_crates mint_block false))
decode_exact-encode_from_candid_example =
    decode_exact-encode_from_candid toy_crates toy-HasWidths mint_block false toy-Decodes
      mint_block-IsBlock

presence_bit_lost_example :
    let with_time = encode_from_candid toy_crates mint_block true in
    let without_time = encode_from_candid toy_crates mint_block false in
    (with_time ≢ without_time)
    × (decode_exact toy_crates with_time ≡ ok (decoded_as toy_crates mint_block true with_time))
    × (decode_exact toy_crates without_time
        ≡ ok (decoded_as toy_crates mint_block false without_time))
presence_bit_lost_example =
    presence_bit_lost toy_crates toy-HasWidths mint_block toy-Decodes mint_block-IsBlock

abbrev encoded_mint : Bytes
encoded_mint = encode_from_candid toy_crates mint_block false

abbrev decoded_mint : DecodedBlock
decoded_mint = decoded_as toy_crates mint_block false encoded_mint

decode_exact-IsBlock_example :
    ((m : PbBlock) × (toy_crates.pb_decode encoded_mint ≡ some m)
      × (toy_crates.pb_encode m ≡ encoded_mint))
    × (decoded_mint.encoded_hash ≡ hash_encoded toy_crates encoded_mint)
    × IsBlock toy_crates mint_block false
decode_exact-IsBlock_example =
    decode_exact-IsBlock toy_crates toy-HasWidths encoded_mint decoded_mint
      decode_exact-encode_from_candid_example
