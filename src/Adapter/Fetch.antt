-- ===== src/Adapter/Fetch.antt =====
-- Fetching the source in nns_adapter/src/lib.rs: `place`, the archives, `fetch_source`. What the
-- canisters answer is a parameter; an answer stands for the awaited call.
pub mod Exact
use Prim.Native.String.{String}
use shielded_ledger_hivemind.Common.{
  ℕ, ◌+◌, ◌-◌, ◌^◌, not, ◌||◌, Option, none, some, List, [], ◌∷◌, ok, err, ok_or, fail_if, ◌>>=◌,
  ◌>>◌, ◌==◌, length, get_elem?, set, replicate,
}
use shielded_ledger_hivemind.Adapter.Legacy.Messages.{
  Bytes, Bytes-discrete, Block, Block-discrete, Crates,
}
use shielded_ledger_hivemind.Adapter.Legacy.Blocks.{decode_exact, hash_encoded, is_some}
use shielded_ledger_hivemind.Adapter.State.{SourceBlock, AdapterError, Adapted, of_decoded, require}
use shielded_ledger_hivemind.Adapter.Hints.{usize, memos-discrete}

pub record LegacyGetBlocksArgs : Type 0 where
  pub start : ℕ
  pub length : ℕ

pub record Callback : Type 0 where
  pub principal : Bytes
  pub method : Bytes

pub record ArchivedRange : Type 0 where
  pub start : ℕ
  pub length : ℕ
  pub callback : Callback

-- The answer of `query_blocks` with Candid blocks, and that of `query_encoded_blocks` with bytes.
pub record QueryResponse (A : Type 0) : Type 0 where
  pub chain_length : ℕ
  pub first_block_index : ℕ
  pub blocks : List A
  pub archived_blocks : List ArchivedRange

-- The answers of the ledger and of the archives; an archive can also answer with an error of its own.
pub record Canisters : Type 0 where
  pub query_blocks : Bytes → LegacyGetBlocksArgs → Adapted (QueryResponse Block)
  pub query_encoded_blocks : Bytes → LegacyGetBlocksArgs → Adapted (QueryResponse Bytes)
  pub archived : Callback → LegacyGetBlocksArgs → Adapted (Adapted (List Block))
  pub archived_encoded : Callback → LegacyGetBlocksArgs → Adapted (Adapted (List Bytes))

-- "get_blocks" and "get_encoded_blocks"
abbrev pub get_blocks : Bytes
get_blocks = b'g' ∷ b'e' ∷ b't' ∷ b'_' ∷ b'b' ∷ b'l' ∷ b'o' ∷ b'c' ∷ b'k' ∷ b's' ∷ []

abbrev pub get_encoded_blocks : Bytes
get_encoded_blocks =
    b'g' ∷ b'e' ∷ b't' ∷ b'_' ∷ b'e' ∷ b'n' ∷ b'c' ∷ b'o' ∷ b'd' ∷ b'e' ∷ b'd' ∷ b'_' ∷ b'b' ∷ b'l'
    ∷ b'o' ∷ b'c' ∷ b'k' ∷ b's' ∷ []

-- The loop of `place` from an offset on.
unfoldable pub place_from :
    {A : Type 0} → List (Option A) → ℕ → ℕ → List A → String → Adapted (List (Option A))
place_from slots start offset [] label = ok slots
place_from slots start offset (value ∷ values) label =
    let index = usize (usize start + offset) in
    elim (get_elem? slots index) [
      | none ↦
          err (AdapterError.nested label (AdapterError.text_at "block index exceeds chain" index))
      | some (some old) ↦
          err (AdapterError.nested label (AdapterError.text_at "duplicate block index" index))
      | some none ↦ place_from (set slots index (some value)) start (offset + 1) values label
    ]

unfoldable pub place :
    {A : Type 0} → List (Option A) → ℕ → List A → String → Adapted (List (Option A))
unfolding place_from
place slots start values label = place_from slots start 0 values label

-- `resolve_candid_archives` and `resolve_encoded_archives`: the method, the texts and the callee
-- differ.
unfoldable pub resolve_archives :
    {A : Type 0}
    → Bytes
    → String
    → (Callback → LegacyGetBlocksArgs → Adapted (Adapted (List A)))
    → List (Option A)
    → List ArchivedRange
    → Adapted (List (Option A))
unfolding place
resolve_archives method label archive slots [] = ok slots
resolve_archives method label archive slots (range ∷ ranges) = do
  require (Bytes-discrete range.callback.method method)
      (AdapterError.text "unexpected archive method")
  answer ← archive range.callback (record { start = range.start; length = range.length })
  blocks ← answer
  fail_if (not (length blocks == usize range.length))
      (AdapterError.nested label (AdapterError.text "archive returned a partial declared range"))
  placed ← place slots range.start blocks label
  resolve_archives method label archive placed ranges

unfoldable pub pair_ranges : List ArchivedRange → List ArchivedRange → Adapted (Unit {0})
pair_ranges [] encoded = ok tt
pair_ranges (left ∷ candid) [] = ok tt
pair_ranges (left ∷ candid) (right ∷ encoded) = do
  fail_if (not (left.start == right.start) || not (left.length == right.length))
      (AdapterError.text "Candid/encoded archive callback identity or interval differs")
  require (Bytes-discrete left.callback.principal right.callback.principal)
      (AdapterError.text "Candid/encoded archive callback identity or interval differs")
  pair_ranges candid encoded

unfoldable pub validate_archive_pairing :
    List ArchivedRange → List ArchivedRange → Adapted (Unit {0})
unfolding pair_ranges
validate_archive_pairing candid encoded = do
  fail_if (not (length candid == length encoded))
      (AdapterError.text "Candid/encoded archive range counts differ")
  pair_ranges candid encoded

module _ (C : Crates) where
  -- The parent hash of a block, with the encoding of the block before it (none before the first).
  unfoldable pub check_parent : Option Bytes → ℕ → Block → Adapted (Unit {0})
  check_parent none index candid =
      fail_if (is_some candid.parent_hash)
        (AdapterError.text "genesis block unexpectedly has parent hash")
  check_parent (some previous) index candid =
      require (memos-discrete candid.parent_hash (some (hash_encoded C previous)))
        (AdapterError.text_at "legacy parent hash mismatch" index)

  -- The last loop of `fetch_source`, over the two vectors of slots.
  unfoldable pub assemble :
      ℕ → Option Bytes → List (Option Block) → List (Option Bytes) → Adapted (List SourceBlock)
  unfolding check_parent decode_exact
  assemble index previous [] encoded_slots = ok []
  assemble index previous (c ∷ candid_slots) [] =
      err (AdapterError.text_at "missing encoded block" index)
  assemble index previous (c ∷ candid_slots) (e ∷ encoded_slots) = do
    candid ← ok_or c (AdapterError.text_at "missing Candid block" index)
    encoded ← ok_or e (AdapterError.text_at "missing encoded block" index)
    decoded ← of_decoded (decode_exact C encoded)
    require (Block-discrete decoded.block candid)
        (AdapterError.text_at "encoded protobuf and query_blocks semantics differ" index)
    check_parent previous index candid
    rest ← assemble (index + 1) (some encoded) candid_slots encoded_slots
    ok (
        record {
          candid = candid;
          encoded = encoded;
          encoded_hash = decoded.encoded_hash;
          created_at_time_present = decoded.created_at_time_present;
        }
        ∷ rest)

  unfoldable pub fetch_source : Canisters → Bytes → Adapted (List SourceBlock × ℕ)
  unfolding assemble validate_archive_pairing resolve_archives place
  fetch_source canisters ledger = do
    let request : LegacyGetBlocksArgs = record { start = 0; length = 2 ^ 32 - 1 }
    candid ← canisters.query_blocks ledger request
    encoded ← canisters.query_encoded_blocks ledger request
    fail_if (not (candid.chain_length == encoded.chain_length))
        (AdapterError.text "Candid/encoded chain lengths differ")
    validate_archive_pairing candid.archived_blocks encoded.archived_blocks
    let count = usize candid.chain_length
    local_candid ←
        place (replicate count none) candid.first_block_index candid.blocks "ledger Candid"
    local_encoded ←
        place (replicate count none) encoded.first_block_index encoded.blocks "ledger encoded"
    candid_slots ←
        resolve_archives get_blocks "legacy archive" canisters.archived local_candid
          candid.archived_blocks
    encoded_slots ←
        resolve_archives get_encoded_blocks "encoded archive" canisters.archived_encoded
          local_encoded encoded.archived_blocks
    source ← assemble 0 none candid_slots encoded_slots
    ok (source, length candid.archived_blocks)
