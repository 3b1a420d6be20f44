-- ===== src/Adapter/Audit/Certified.antt =====
-- The certificate and the tampered tip in `verify_source` of nns_adapter/src/main.rs.
use Prim.Native.Nat.{bit_xor}
use native.Mathlib.Decide.{ℕ_discrete}
use shielded_ledger_hivemind.Common.{
  ℕ, zero, suc, ◌≤◌, ◌<◌, ◌≡◌, ◌≢◌, ◌⊎◌, inl, inr, refl, sym, ap, subst, ◌∙◌, arith, Bool, true,
  false, not, none, some, List, [], ◌∷◌, ok, ok_or, fail_if, >>=-eq-ok, >>-eq-ok, ok-injective,
  length, ◌==◌, ==_iff, if◌then◌else◌, min, All, ok_or-eq-ok, Bool-cases,
}
use shielded_ledger_hivemind.Adapter.Legacy.Messages.{Bytes, Bytes-discrete, Crates}
use shielded_ledger_hivemind.Adapter.Legacy.Blocks.{hash_encoded}
use shielded_ledger_hivemind.Adapter.State.{AdapterError, require}
use shielded_ledger_hivemind.Adapter.Fetch.Exact.{require-yes}
use shielded_ledger_hivemind.Adapter.Audit.{
  Certificates, FetchedSource, SourceReport, flip_first, flip_last, tip_of, is_yes, audit_blocks,
  boundaries_hold, tampered_block, tampered_boundary, certified_data, audit_certificate,
  verify_source, canister_label, certified_data_label,
}
use shielded_ledger_hivemind.Adapter.Audit.Sound.{Chain, audit_blocks-Chain, not_passed}

tip_of-All :
    (e : Bytes) (es : List Bytes)
    → All (λ b. b < 256) e
    → All (All (λ b. b < 256)) es
    → All (λ b. b < 256) (tip_of e es)
tip_of-All e [] he hes = he
tip_of-All e (d ∷ es) he hes = tip_of-All d es hes.0 hes.1

-- Flipping the lowest bit changes every byte up to `x`.
flips : ℕ → Bool
flips zero = not (bit_xor 0 1 == 0)
flips (suc x) = if bit_xor (suc x) 1 == suc x then false else flips x

flips-suc : (x : ℕ) → flips (suc x) ≡ true → (bit_xor (suc x) 1 ≢ suc x) × (flips x ≡ true)
unfolding flips
flips-suc x h = elim (Bool-cases (bit_xor (suc x) 1 == suc x)) [
  | inl same ↦ cc (rw same at h)
  | inr other ↦ (λ e. cc ((==_iff (bit_xor (suc x) 1) (suc x)).1 e, other), rw other at h)
]

flips-below : (n x : ℕ) → flips n ≡ true → x ≤ n → bit_xor x 1 ≢ x
unfolding flips
flips-below zero zero h le e = cc
flips-below zero (suc x) h le e = omega (arith, le)
flips-below (suc n) x h le e = elim (ℕ_discrete x (suc n)) [
  | yes top ↦ (flips-suc n h).0 (subst (λ y. bit_xor y 1 ≡ y) top e)
  | no below ↦ flips-below n x (flips-suc n h).1 (omega (arith, le, below)) e
]

every_flip : flips 255 ≡ true
unfolding flips
every_flip = refl

flip_first-ne :
    (tip flipped : Bytes) → All (λ b. b < 256) tip → flip_first tip ≡ ok flipped → flipped ≢ tip
unfolding flip_first
flip_first-ne [] flipped bytes h e = cc
flip_first-ne (b ∷ tip) flipped bytes h e =
    flips-below 255 b every_flip (omega (arith, bytes.0)) (cc (ok-injective h, e))

no_or_held : {P : Type 0} (d : Dec P) → (not (is_yes d) ≡ true) ⊎ P
no_or_held (yes p) = inr p
no_or_held (no np) = inl refl

module _ (C : Crates) {K : Type 0} (certs : Certificates K) (f : FetchedSource)
    (ledger root_key : Bytes) (now : ℕ) where
  -- The ledger's valid certificate has the hash of the chain's last block as its certified data.
  pub record IsCertified (k : K) (tip : Bytes) : Type 0 where
    pub bytes : Bytes
    pub first : Bytes
    pub rest : List Bytes
    pub chain : f.encoded ≡ first ∷ rest
    pub is_tip : tip ≡ tip_of first rest
    pub given : f.certificate ≡ some bytes
    pub read : certs.from_cbor bytes ≡ some k
    pub verified : certs.verify k ledger root_key now ≡ true
    pub certified :
        certs.lookup_path k (canister_label ∷ ledger ∷ certified_data_label ∷ [])
        ≡ some (hash_encoded C tip)

  audit_certificate-IsCertified :
      (k : K) (tip certified : Bytes)
      → audit_certificate C certs f ledger root_key now ≡ ok (k, (tip, certified))
      → IsCertified k tip × (certified ≡ hash_encoded C tip)
  unfolding audit_certificate certified_data
  audit_certificate-IsCertified k tip certified h = by_chain f.encoded refl
    where
      by_chain :
          (es : List Bytes) → f.encoded ≡ es → IsCertified k tip × (certified ≡ hash_encoded C tip)
      by_chain [] e = cc (rw e at h)
      by_chain (first ∷ rest) e =
          let h0 = rw e at h in
          let (bytes, given, h1) =
            >>=-eq-ok (ok_or f.certificate (AdapterError.text "query_blocks certificate is absent"))
              _ h0 in
          let (key, read, h2) =
            >>=-eq-ok (ok_or (certs.from_cbor bytes) (AdapterError.text "certificate encoding")) _
              h1 in
          let (verified, h3) =
            >>-eq-ok
              (fail_if (not (certs.verify key ledger root_key now))
                (AdapterError.text "source certificate"))
              _ h2 in
          let (held, found, h4) =
            >>=-eq-ok
              (ok_or (certs.lookup_path key (canister_label ∷ ledger ∷ certified_data_label ∷ []))
                (AdapterError.text "certified_data path lookup"))
              _ h3 in
          let (same, h5) =
            >>-eq-ok
              (require (Bytes-discrete held (hash_encoded C (tip_of first rest)))
                (AdapterError.text "certified_data differs from encoded legacy tip hash"))
              _ h4 in
          let same_hash =
            require-yes (Bytes-discrete held (hash_encoded C (tip_of first rest))) _ same in
          let out = ok-injective h5 in
          let key_is = ap (λ (x : K × (Bytes × Bytes)). x.0) out in
          let tip_is = ap (λ (x : K × (Bytes × Bytes)). x.1.0) out in
          let held_is = ap (λ (x : K × (Bytes × Bytes)). x.1.1) out in
          (
            record {
              bytes = bytes;
              first = first;
              rest = rest;
              chain = e;
              is_tip = sym tip_is;
              given = ok_or-eq-ok f.certificate _ given;
              read = ok_or-eq-ok (certs.from_cbor bytes) _ read ∙ ap some key_is;
              verified =
                  subst (λ x. certs.verify x ledger root_key now ≡ true) key_is
                    (not_passed _ _ verified);
              certified =
                  ap
                    (λ x. certs.lookup_path x (canister_label ∷ ledger ∷ certified_data_label ∷ []))
                    (sym key_is)
                  ∙ ok_or-eq-ok _ _ found
                  ∙ ap some (same_hash ∙ ap (hash_encoded C) tip_is);
            },
            sym held_is ∙ same_hash ∙ ap (hash_encoded C) tip_is,
          )

  tip_rejected :
      (tip certified flipped : Bytes)
      → certified ≡ hash_encoded C tip
      → flipped ≢ tip
      → (not (is_yes (Bytes-discrete (hash_encoded C flipped) certified)) ≡ true)
        ⊎ ((x : Bytes) × (x ≢ tip) × (hash_encoded C x ≡ hash_encoded C tip))
  tip_rejected tip certified flipped is_hash other =
      elim (no_or_held (Bytes-discrete (hash_encoded C flipped) certified)) [
        | inl differs ↦ inl differs
        | inr same ↦ inr (flipped, other, same ∙ is_hash)
      ]

  -- If the encoded blocks consist of bytes and the audit ends with a report, then a certificate that
  -- verifies for the ledger under the root key has the hash of the last block as its certified data, the
  -- pairs of blocks are decoded and linked and counted, the report has that hash, and the tampered tip
  -- was rejected, or another text has the hash of the tip.
  pub verify_source-IsCertified :
      (r : SourceReport)
      → All (All (λ b. b < 256)) f.encoded
      → verify_source C certs f ledger root_key now ≡ ok r
      → (k : K) × (tip : Bytes) × IsCertified k tip
        × Chain C none f.candid f.encoded
        × (r.encoded_roundtrips ≡ min (length f.candid) (length f.encoded))
        × (r.source_tip_hash ≡ hash_encoded C tip)
        × ((r.tampered_tip_rejected ≡ true)
            ⊎ ((x : Bytes) × (x ≢ tip) × (hash_encoded C x ≡ hash_encoded C tip)))
  unfolding verify_source
  verify_source-IsCertified r bytes h =
      let ((k, (tip, certified)), audited, h1) =
        >>=-eq-ok (audit_certificate C certs f ledger root_key now) _ h in
      let (sound, is_hash) = audit_certificate-IsCertified k tip certified audited in
      let (blocks, looped, h2) =
        >>=-eq-ok
          (audit_blocks C 0 none f.candid f.encoded (record { observed = false; rejected = false }))
          _ h1 in
      let (chain, count) = audit_blocks-Chain C 0 none f.candid f.encoded _ blocks looped in
      let (boundaries, _, h3) = >>=-eq-ok (boundaries_hold C f f.archived_blocks) _ h2 in
      let (signature, _, h4) = >>=-eq-ok (flip_first (certs.signature k)) _ h3 in
      let (wrong_key, _, h5) = >>=-eq-ok (flip_last root_key) _ h4 in
      let (flipped, flip, h6) = >>=-eq-ok (flip_first tip) _ h5 in
      let (block, _, h7) = >>=-eq-ok (tampered_block C f) _ h6 in
      let (boundary, _, h8) = >>=-eq-ok (tampered_boundary C f f.archived_blocks) _ h7 in
      let report = sym (ok-injective h8) in
      let tip_bytes = subst (All (λ b. b < 256)) (sym sound.is_tip) (
        tip_of-All sound.first sound.rest (subst (All (All (λ b. b < 256))) sound.chain bytes).0
          (subst (All (All (λ b. b < 256))) sound.chain bytes).1) in
      (
        k,
        tip,
        sound,
        chain,
        ap SourceReport.encoded_roundtrips report ∙ count ∙ omega arith,
        ap SourceReport.source_tip_hash report,
        subst
            (λ (x : Bool).
              (x ≡ true) ⊎ ((y : Bytes) × (y ≢ tip) × (hash_encoded C y ≡ hash_encoded C tip)))
            (sym (ap SourceReport.tampered_tip_rejected report))
            (tip_rejected tip certified flipped is_hash (flip_first-ne tip flipped tip_bytes flip)),
      )
