-- ===== src/Adapter/Audit/Tests.antt =====
-- The audit of nns_adapter/src/main.rs at a certified ledger of one transfer.
use native.Mathlib.Decide.{ℕ_discrete}
use shielded_ledger_hivemind.Common.{
  ℕ, ◌≡◌, ◌≢◌, ◌⊎◌, ◌↔◌, refl, arith, true, false, none, some, [], ◌∷◌, ok, ltb, length, min,
}
use shielded_ledger_hivemind.Adapter.Legacy.Messages.{Bytes, Bytes-discrete, Block-discrete}
use shielded_ledger_hivemind.Adapter.Legacy.Accounts.{canonical_account}
use shielded_ledger_hivemind.Adapter.Legacy.Operations.{decode_operation, encode_operation}
use shielded_ledger_hivemind.Adapter.Legacy.Blocks.{
  protobuf_of, decode_protobuf, decode_exact, hash_encoded,
}
use shielded_ledger_hivemind.Adapter.Toy.{toy_crates, xfer_block}
use shielded_ledger_hivemind.Adapter.Audit.{
  Certificates, FetchedSource, SourceReport, Lossy, audit_blocks, verify_source,
}
use shielded_ledger_hivemind.Adapter.Audit.Sound.{Chain, audit_blocks-exact}
use shielded_ledger_hivemind.Adapter.Audit.Certified.{IsCertified, verify_source-IsCertified}

-- A certificate is its bytes, valid up to the time 100 under the key 2, for the hash of the encoding 1.
abbrev toy_certificates : Certificates Bytes
toy_certificates = record {
  from_cbor = λ b. some b;
  verify = λ k canister root_key now. ltb now 100;
  lookup_path = λ k path. some (1 ∷ []);
  signature = λ k. k;
  with_signature = λ k s. s;
  anonymous = 4 ∷ [];
}

abbrev toy_fetched : FetchedSource
toy_fetched = record {
  certificate = some (5 ∷ []);
  archived_blocks = [];
  candid = xfer_block ∷ [];
  encoded = (1 ∷ []) ∷ [];
}

abbrev unseen : Lossy
unseen = record { observed = false; rejected = false }

audit_blocks-exact_example :
    ((r : ℕ × Lossy) × (audit_blocks toy_crates 0 none (xfer_block ∷ []) ((1 ∷ []) ∷ []) unseen
        ≡ ok r))
    ↔ Chain toy_crates none (xfer_block ∷ []) ((1 ∷ []) ∷ [])
audit_blocks-exact_example = audit_blocks-exact toy_crates (xfer_block ∷ []) ((1 ∷ []) ∷ []) unseen

abbrev toy_report : SourceReport
toy_report = record {
  encoded_roundtrips = 1;
  candid_semantic_matches = 1;
  archive_ranges = 0;
  archive_boundary_verified = true;
  lossy_created_at_case_observed = false;
  lossy_reconstruction_rejected = false;
  bad_signature_rejected = false;
  wrong_root_key_rejected = false;
  wrong_canister_rejected = false;
  stale_certificate_rejected = true;
  tampered_tip_rejected = true;
  tampered_block_rejected = false;
  archive_boundary_tamper_rejected = false;
  source_tip_hash = 1 ∷ [];
}

verify_source_run :
    verify_source toy_crates toy_certificates toy_fetched (8 ∷ []) (2 ∷ []) 7 ≡ ok toy_report
unfolding verify_source decode_exact decode_protobuf protobuf_of decode_operation encode_operation
    canonical_account Bytes-discrete Block-discrete ℕ_discrete hash_encoded
verify_source_run = refl

verify_source-IsCertified_example :
    (k : Bytes) × (tip : Bytes) × IsCertified toy_crates toy_certificates toy_fetched
      (8 ∷ [])
      (2 ∷ [])
      7
      k
      tip
    × Chain toy_crates none toy_fetched.candid toy_fetched.encoded
    × (toy_report.encoded_roundtrips ≡ min (length toy_fetched.candid) (length toy_fetched.encoded))
    × (toy_report.source_tip_hash ≡ hash_encoded toy_crates tip)
    × ((toy_report.tampered_tip_rejected ≡ true)
        ⊎ ((x : Bytes) × (x ≢ tip) × (hash_encoded toy_crates x ≡ hash_encoded toy_crates tip)))
verify_source-IsCertified_example =
    verify_source-IsCertified toy_crates toy_certificates toy_fetched (8 ∷ []) (2 ∷ []) 7 toy_report
      ((omega arith, tt), tt) verify_source_run
