-- ===== src/Adapter/Legacy/Blocks/RoundTrip.antt =====
-- `decode_exact` of nns_adapter/src/legacy.rs against `encode_from_candid`.
use mathlib.Core.Logic.{ite, if_pos, if_neg}
use mathlib.Core.Option
use shielded_ledger_hivemind.Common.{
  ℕ, ◌≡◌, ◌≢◌, refl, sym, ap, ◌∙◌, subst, Bool, true, false, Option, none, some, arith, ok, err,
  fail_if, ok_or, >>=-eq-ok, >>-eq-ok, ok-injective, ok_or-eq-ok, Bool-cases, inl, inr, ◌==◌,
  ==_iff, length,
}
use shielded_ledger_hivemind.Adapter.Legacy.Messages.{
  Bytes, Bytes-discrete, Operation, Block, PbHash, PbTimeStamp, PbIcrc1Memo, PbBlock, Transfer,
  obsolete_created_at, DecodedBlock, undecodable, reencoding_differs, Decoded, Crates,
}
use shielded_ledger_hivemind.Adapter.Legacy.Accounts.{required, HasWidths}
use shielded_ledger_hivemind.Adapter.Legacy.Operations.{
  transpose, decode_operation, encode_operation, decode_operation-encode_operation,
  decode_operation-IsWellFormed,
}
use shielded_ledger_hivemind.Adapter.Legacy.Blocks.{
  decode_parent_hash, decode_protobuf, decode_exact, protobuf_of, encode_from_candid, IsHash?,
  IsWellFormed?, IsBlock, Decodes, is_some, nanos_of, hash_encoded,
}

parent_hash_back :
    (o : Option Bytes)
    → IsHash? o
    → transpose (Option.map decode_parent_hash (Option.map (λ h. record { hash = h }) o)) ≡ ok o
unfolding decode_parent_hash
parent_hash_back none h = refl
parent_hash_back (some b) h = rw (equal-test (length b) 32 h) refl
  where
    equal-test : (m n : ℕ) → m ≡ n → (m == n) ≡ true
    equal-test m n e = ground arith

memo_back :
    (o : Option Bytes)
    → Option.map {A = PbIcrc1Memo} {B = Bytes}
        (λ m. m.memo)
        (Option.map (λ m. record { memo = m }) o)
      ≡ o
memo_back none = refl
memo_back (some m) = refl

has_created_at_time : Option PbBlock → Bool
has_created_at_time none = false
has_created_at_time (some m) = elim m.transaction [
  | none ↦ false
  | some t ↦ is_some t.created_at_time
]

module _ (C : Crates) where
  -- The decoding of a block with its presence bit.
  abbrev pub decoded_as : Block → Bool → Bytes → DecodedBlock
  decoded_as b present encoded = record {
    block = b;
    created_at_time_present = present;
    encoded_hash = C.sha256 encoded;
  }

module _ (C : Crates) (widths : HasWidths C) where
  operation_back :
      (o : Option Operation)
      → IsWellFormed? C o
      → transpose (Option.map (decode_operation C) (Option.map encode_operation o)) ≡ ok o
  operation_back none h = refl
  operation_back (some op) h = rw (decode_operation-encode_operation C widths op h) refl

  decode_protobuf-protobuf_of :
      (b : Block) (present : Bool) (encoded : Bytes)
      → IsBlock C b present
      → decode_protobuf C (protobuf_of b present) encoded ≡ ok (decoded_as C b present encoded)
  unfolding decode_protobuf protobuf_of
  decode_protobuf-protobuf_of b true encoded h =
      rw
        (
          parent_hash_back b.parent_hash h.parent,
          operation_back b.transaction.operation h.operation,
          memo_back b.transaction.icrc1_memo,
        )
        refl
  decode_protobuf-protobuf_of b false encoded h =
      rw
        (
          parent_hash_back b.parent_hash h.parent,
          operation_back b.transaction.operation h.operation,
          memo_back b.transaction.icrc1_memo,
          ← h.substituted refl,
        )
        refl

  -- With checksums of their documented widths and a codec that decodes the messages of the block:
  -- decoding the bytes that are built from a well-formed Candid block and its presence bit gives back
  -- both, with the hash of those bytes.
  pub decode_exact-encode_from_candid :
      (b : Block) (present : Bool)
      → Decodes C b
      → IsBlock C b present
      → decode_exact C (encode_from_candid C b present)
        ≡ ok (decoded_as C b present (encode_from_candid C b present))
  unfolding decode_exact encode_from_candid
  decode_exact-encode_from_candid b present decodes h =
      rw (decodes present, if_pos (Bytes-discrete _ _) refl)
        (decode_protobuf-protobuf_of b present (encode_from_candid C b present) h)

  encode_from_candid-presence :
      (b : Block) → Decodes C b → encode_from_candid C b true ≢ encode_from_candid C b false
  unfolding encode_from_candid protobuf_of has_created_at_time
  encode_from_candid-presence b decodes e =
      let same = sym (decodes true) ∙ ap C.pb_decode e ∙ decodes false in
      cc (ap has_created_at_time same)

  -- With checksums of their documented widths and a codec that decodes the messages of the block: the
  -- Candid form loses the presence bit of the construction time. Where that time is the block's time,
  -- the two bits give different encodings, and both decode, to the same block with the one bit or the
  -- other.
  pub presence_bit_lost :
      (b : Block)
      → Decodes C b
      → IsBlock C b false
      → let with_time = encode_from_candid C b true in
        let without_time = encode_from_candid C b false in
        (with_time ≢ without_time)
        × (decode_exact C with_time ≡ ok (decoded_as C b true with_time))
        × (decode_exact C without_time ≡ ok (decoded_as C b false without_time))
  presence_bit_lost b decodes h = (
    encode_from_candid-presence b decodes,
    decode_exact-encode_from_candid b true decodes
        (record { parent = h.parent; operation = h.operation; substituted = λ e. cc }),
    decode_exact-encode_from_candid b false decodes h,
  )

  transpose-IsHash :
      (o : Option PbHash) (r : Option Bytes)
      → transpose (Option.map decode_parent_hash o) ≡ ok r
      → IsHash? r
  unfolding decode_parent_hash
  transpose-IsHash none r h = subst IsHash? (ok-injective h) tt
  transpose-IsHash (some v) r h = elim (Bool-cases (length v.hash == 32)) [
    | inl fits ↦ subst IsHash? (ok-injective (rw fits at h)) ((==_iff (length v.hash) 32).0 fits)
    | inr wide ↦ cc (rw wide at h)
  ]

  transpose-IsWellFormed :
      (o : Option Transfer) (r : Option Operation)
      → transpose (Option.map (decode_operation C) o) ≡ ok r
      → IsWellFormed? C r
  transpose-IsWellFormed none r h = subst (IsWellFormed? C) (ok-injective h) tt
  transpose-IsWellFormed (some t) r h =
      let (op, e, h1) = >>=-eq-ok (decode_operation C t) _ h in
      subst (IsWellFormed? C) (ok-injective h1) (decode_operation-IsWellFormed C widths t op e)

  nanos_of_absent : (o : Option PbTimeStamp) (t : ℕ) → is_some o ≡ false → nanos_of o t ≡ t
  nanos_of_absent none t h = refl
  nanos_of_absent (some s) t h = cc

  decode_protobuf-IsBlock :
      (m : PbBlock) (encoded : Bytes) (d : DecodedBlock)
      → decode_protobuf C m encoded ≡ ok d
      → (d.encoded_hash ≡ C.sha256 encoded) × IsBlock C d.block d.created_at_time_present
  unfolding decode_protobuf
  decode_protobuf-IsBlock m encoded d h =
      let (parent, ep, h1) =
        >>=-eq-ok (transpose (Option.map decode_parent_hash m.parent_hash)) _ h in
      let (stamp, _, h2) = >>=-eq-ok (required m.timestamp "block.timestamp") _ h1 in
      let (t, _, h3) = >>=-eq-ok (required m.transaction "block.transaction") _ h2 in
      let (_, h4) = >>-eq-ok (fail_if (is_some t.created_at) obsolete_created_at) _ h3 in
      let (op, eo, h5) = >>=-eq-ok (transpose (Option.map (decode_operation C) t.transfer)) _ h4 in
      subst (λ x. (x.encoded_hash ≡ C.sha256 encoded) × IsBlock C x.block x.created_at_time_present)
        (ok-injective h5)
        (
          refl,
          record {
            parent = transpose-IsHash m.parent_hash parent ep;
            operation = transpose-IsWellFormed t.transfer op eo;
            substituted = nanos_of_absent t.created_at_time stamp.timestamp_nanos;
          },
        )

  abbrev exact_bytes : PbBlock → Bytes → Decoded (Unit {0})
  exact_bytes m encoded =
      ite (Bytes-discrete (C.pb_encode m) encoded) (ok tt) (err reencoding_differs)

  exact_bytes-eq :
      (m : PbBlock) (encoded : Bytes) → exact_bytes m encoded ≡ ok tt → C.pb_encode m ≡ encoded
  exact_bytes-eq m encoded h = elim (Bytes-discrete (C.pb_encode m) encoded) [
    | yes e ↦ e
    | no ne ↦ cc (rw (if_neg (Bytes-discrete (C.pb_encode m) encoded) ne) at h)
  ]

  -- With checksums of their documented widths, what `decode_exact` accepts is the encoding of the message that it decodes to, byte for byte; the
  -- hash is that of the given bytes, and the block is one that the Candid interface can give.
  pub decode_exact-IsBlock :
      (encoded : Bytes) (d : DecodedBlock)
      → decode_exact C encoded ≡ ok d
      → ((m : PbBlock) × (C.pb_decode encoded ≡ some m) × (C.pb_encode m ≡ encoded))
        × (d.encoded_hash ≡ hash_encoded C encoded)
        × IsBlock C d.block d.created_at_time_present
  unfolding decode_exact hash_encoded
  decode_exact-IsBlock encoded d h =
      let (m, em, h1) = >>=-eq-ok (ok_or (C.pb_decode encoded) undecodable) _ h in
      let (same, h2) = >>-eq-ok (exact_bytes m encoded) _ h1 in
      let (hash, block) = decode_protobuf-IsBlock m encoded d h2 in
      (
        (m, ok_or-eq-ok (C.pb_decode encoded) undecodable em, exact_bytes-eq m encoded same),
        hash,
        block,
      )
