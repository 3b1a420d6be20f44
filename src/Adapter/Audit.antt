-- ===== src/Adapter/Audit.antt =====
-- `verify_source` of nns_adapter/src/main.rs, the audit of a fetched legacy chain against its certificate.
-- The certificate crates are a parameter, and the time is an argument. A panic is an error with a text.
pub mod Sound
pub mod Certified
pub mod Tests
use Prim.Native.Nat.{bit_xor}
use shielded_ledger_hivemind.Common.{
  ℕ, ◌+◌, ◌-◌, ◌%◌, ◌^◌, Bool, true, false, not, ◌&&◌, ◌||◌, Option, none, some, List, [], ◌∷◌, ok,
  err, ok_or, fail_if, ◌>>=◌, ◌>>◌, leb, ◌==◌, length, get_elem?, if◌then◌else◌,
}
use shielded_ledger_hivemind.Adapter.Legacy.Messages.{
  Bytes, Bytes-discrete, Block, Block-discrete, Crates,
}
use shielded_ledger_hivemind.Adapter.Legacy.Blocks.{
  decode_exact, hash_encoded, encode_from_candid, is_some,
}
use shielded_ledger_hivemind.Adapter.State.{AdapterError, Adapted, of_decoded, require}
use shielded_ledger_hivemind.Adapter.Hints.{memos-discrete}
use shielded_ledger_hivemind.Adapter.Fetch.{ArchivedRange}

-- The certificates of the crates ic-certification and ic-certificate-verification. `verify` takes the
-- canister, the root key and the time, with the maximal offset that the source gives.
pub record Certificates (K : Type 0) : Type 0 where
  pub from_cbor : Bytes → Option K
  pub verify : K → Bytes → Bytes → ℕ → Bool
  pub lookup_path : K → List Bytes → Option Bytes
  pub signature : K → Bytes
  pub with_signature : K → Bytes → K
  pub anonymous : Bytes

pub record FetchedSource : Type 0 where
  pub certificate : Option Bytes
  pub archived_blocks : List ArchivedRange
  pub candid : List Block
  pub encoded : List Bytes

-- The flags of `SourceReport` that the source does not set to `true` outright.
pub record SourceReport : Type 0 where
  pub encoded_roundtrips : ℕ
  pub candid_semantic_matches : ℕ
  pub archive_ranges : ℕ
  pub archive_boundary_verified : Bool
  pub lossy_created_at_case_observed : Bool
  pub lossy_reconstruction_rejected : Bool
  pub bad_signature_rejected : Bool
  pub wrong_root_key_rejected : Bool
  pub wrong_canister_rejected : Bool
  pub stale_certificate_rejected : Bool
  pub tampered_tip_rejected : Bool
  pub tampered_block_rejected : Bool
  pub archive_boundary_tamper_rejected : Bool
  pub source_tip_hash : Bytes

abbrev pub out_of_bounds : AdapterError
out_of_bounds = AdapterError.text "panic: index out of bounds"

abbrev pub canister_label : Bytes
canister_label = b'c' ∷ b'a' ∷ b'n' ∷ b'i' ∷ b's' ∷ b't' ∷ b'e' ∷ b'r' ∷ []

abbrev pub certified_data_label : Bytes
certified_data_label =
    b'c' ∷ b'e' ∷ b'r' ∷ b't' ∷ b'i' ∷ b'f' ∷ b'i' ∷ b'e' ∷ b'd' ∷ b'_' ∷ b'd' ∷ b'a' ∷ b't' ∷ b'a'
    ∷ []

abbrev pub is_yes : {P : Type 0} → Dec P → Bool
is_yes (yes p) = true
is_yes (no np) = false

-- `bytes[0] ^= 1`
unfoldable pub flip_first : Bytes → Adapted Bytes
flip_first [] = err out_of_bounds
flip_first (b ∷ bytes) = ok (bit_xor b 1 ∷ bytes)

-- `bytes[last] ^= 1`
unfoldable pub flip_last : Bytes → Adapted Bytes
flip_last [] = err out_of_bounds
flip_last (b ∷ []) = ok (bit_xor b 1 ∷ [])
flip_last (b ∷ c ∷ bytes) = do rest ← flip_last (c ∷ bytes); ok (b ∷ rest)

abbrev pub tip_of : Bytes → List Bytes → Bytes
tip_of e [] = e
tip_of e (d ∷ rest) = tip_of d rest

-- Whether reconstruction without the presence bit was seen, and rejected where it was.
pub record Lossy : Type 0 where
  pub observed : Bool
  pub rejected : Bool

-- The sum is of `u64`, which the release build wraps.
abbrev pub boundary_of : ArchivedRange → ℕ
boundary_of range = (range.start + range.length) % 2 ^ 64

module _ (C : Crates) where
  abbrev pub hash_is : Option Bytes → Bytes → Bool
  hash_is parent bytes = is_yes (memos-discrete parent (some (hash_encoded C bytes)))

  -- The parent hash of a block, with the encoding of the block before it.
  unfoldable pub audit_parent : Option Bytes → ℕ → Block → Adapted (Unit {0})
  audit_parent none index candid =
      fail_if (is_some candid.parent_hash) (AdapterError.text "genesis parent is not absent")
  audit_parent (some previous) index candid =
      fail_if (not (hash_is candid.parent_hash previous))
        (AdapterError.text_at "parent chain mismatch at block" index)

  unfoldable pub lossy_step : Block → Bytes → Bool → Lossy → Lossy
  lossy_step candid encoded present seen = if present then seen else (record {
    observed = true;
    rejected =
        seen.rejected
        || (not (is_yes (Bytes-discrete (encode_from_candid C candid true) encoded))
            && is_yes (Bytes-discrete (encode_from_candid C candid false) encoded));
  })

  -- The loop over the pairs of blocks, and the number of rounds.
  unfoldable pub audit_blocks :
      ℕ → Option Bytes → List Block → List Bytes → Lossy → Adapted (ℕ × Lossy)
  unfolding audit_parent lossy_step
  audit_blocks index previous [] encoded seen = ok (index, seen)
  audit_blocks index previous (c ∷ candid) [] seen = ok (index, seen)
  audit_blocks index previous (c ∷ candid) (e ∷ encoded) seen = do
    decoded ← of_decoded (decode_exact C e)
    require (Block-discrete decoded.block c)
        (AdapterError.text_at "Candid semantics differ at block" index)
    audit_parent previous index c
    audit_blocks (index + 1) (some e) candid encoded
        (lossy_step c e decoded.created_at_time_present seen)

  -- `fetched.candid[boundary].parent_hash`
  abbrev pub parent_at : List Block → ℕ → Adapted (Option Bytes)
  parent_at candid i = do c ← ok_or (get_elem? candid i) out_of_bounds; ok c.parent_hash

  -- The closure of `archive_boundary_verified` for one range.
  unfoldable pub boundary_holds : FetchedSource → ArchivedRange → Adapted Bool
  boundary_holds f range =
      let boundary = boundary_of range in
      if boundary == length f.encoded then ok true else if boundary == 0 then ok false else (do
        parent ← parent_at f.candid boundary
        before ← ok_or (get_elem? f.encoded (boundary - 1)) out_of_bounds
        ok (hash_is parent before))

  -- `all`, which stops at the first range that fails.
  unfoldable pub boundaries_hold : FetchedSource → List ArchivedRange → Adapted Bool
  unfolding boundary_holds
  boundaries_hold f [] = ok true
  boundaries_hold f (range ∷ ranges) =
      let rest = boundaries_hold f ranges in
      boundary_holds f range >>= (λ holds. if holds then rest else ok false)

  unfoldable pub tampered_block : FetchedSource → Adapted Bool
  unfolding flip_first
  tampered_block f = do
    let i = length f.encoded - 2
    block ← ok_or (get_elem? f.encoded i) out_of_bounds
    flipped ← flip_first block
    elim (get_elem? f.candid (i + 1)) [
      | none ↦ ok false
      | some c ↦ ok (not (hash_is c.parent_hash flipped))
    ]

  unfoldable pub tampered_boundary : FetchedSource → List ArchivedRange → Adapted Bool
  unfolding flip_first
  tampered_boundary f [] = ok false
  tampered_boundary f (range ∷ ranges) =
      let boundary = boundary_of range in
      if (boundary == 0) || leb (length f.candid) boundary then ok false else (do
        before ← ok_or (get_elem? f.encoded (boundary - 1)) out_of_bounds
        flipped ← flip_first before
        parent ← parent_at f.candid boundary
        ok (not (hash_is parent flipped)))

  module _ {K : Type 0} (certs : Certificates K) where
    unfoldable pub certified_data : K → Bytes → Adapted Bytes
    certified_data k canister =
        ok_or (certs.lookup_path k (canister_label ∷ canister ∷ certified_data_label ∷ []))
          (AdapterError.text "certified_data path lookup")

    -- The checks of the certificate: it, and the tip's hash, which it certifies.
    unfoldable pub audit_certificate :
        FetchedSource → Bytes → Bytes → ℕ → Adapted (K × (Bytes × Bytes))
    unfolding certified_data
    audit_certificate f ledger root_key now = elim f.encoded [
      | [] ↦ err (AdapterError.text "source chain is empty")
      | e ∷ encoded ↦ (do
        bytes ← ok_or f.certificate (AdapterError.text "query_blocks certificate is absent")
        k ← ok_or (certs.from_cbor bytes) (AdapterError.text "certificate encoding")
        fail_if (not (certs.verify k ledger root_key now)) (AdapterError.text "source certificate")
        certified ← certified_data k ledger
        require (Bytes-discrete certified (hash_encoded C (tip_of e encoded)))
            (AdapterError.text "certified_data differs from encoded legacy tip hash")
        ok (k, (tip_of e encoded, certified)))
    ]

    unfoldable pub verify_source : FetchedSource → Bytes → Bytes → ℕ → Adapted SourceReport
    unfolding audit_certificate audit_blocks boundaries_hold flip_first flip_last tampered_block
        tampered_boundary
    verify_source f ledger root_key now = do
      checked ← audit_certificate f ledger root_key now
      blocks ←
          audit_blocks 0 none f.candid f.encoded (record { observed = false; rejected = false })
      boundaries ← boundaries_hold f f.archived_blocks
      bad_signature ← flip_first (certs.signature checked.0)
      wrong_key ← flip_last root_key
      tip ← flip_first checked.1.0
      block ← tampered_block f
      boundary ← tampered_boundary f f.archived_blocks
      ok (record {
        encoded_roundtrips = blocks.0;
        candid_semantic_matches = blocks.0;
        archive_ranges = length f.archived_blocks;
        archive_boundary_verified = boundaries;
        lossy_created_at_case_observed = blocks.1.observed;
        lossy_reconstruction_rejected = blocks.1.rejected;
        bad_signature_rejected =
            not (certs.verify (certs.with_signature checked.0 bad_signature) ledger root_key now);
        wrong_root_key_rejected = not (certs.verify checked.0 ledger wrong_key now);
        wrong_canister_rejected = elim (certified_data checked.0 certs.anonymous) [
          | ok data_of ↦ false
          | err e ↦ true
        ];
        stale_certificate_rejected =
            not (certs.verify checked.0 ledger root_key (now + 3600000000000));
        tampered_tip_rejected = not (is_yes (Bytes-discrete (hash_encoded C tip) checked.1.1));
        tampered_block_rejected = block;
        archive_boundary_tamper_rejected = boundary;
        source_tip_hash = hash_encoded C checked.1.0;
      })
