-- ===== src/Ceremony/Hashing.antt =====
-- The Fiat-Shamir hashing of ceremony/src/transcript.rs. A digest of several parts is the digest of the
-- parts one after the other; an identity point panics.
use shielded_ledger_hivemind.Common.{
  ℕ, ◌/◌, ◌%◌, ◌^◌, List, [], ◌∷◌, ◌++◌, ok, ◌>>=◌, ok_or, length, if◌then◌else◌,
}
use shielded_ledger_hivemind.Adapter.Legacy.Messages.{Bytes}
use shielded_ledger_hivemind.Ceremony.Curve.{Curve}
use shielded_ledger_hivemind.Ceremony.Transcript.{
  DeltaParams, FixedParams, Pok, Contribution, Failure, Outcome,
}

-- SHA-256, the reduction of bytes to a scalar, and the compressed serialization of arkworks.
pub record Hashes (Fr G1 G2 : Type 0) : Type 0 where
  pub sha256 : Bytes → Bytes
  pub from_le_bytes_mod_order : Bytes → Fr
  pub serialize_fixed : FixedParams G1 G2 → Bytes
  pub serialize_delta : DeltaParams G1 G2 → Bytes

-- `(n as u32).to_be_bytes()`
unfoldable pub u32_be : ℕ → Bytes
u32_be n = n / 2 ^ 24 % 256 ∷ n / 2 ^ 16 % 256 ∷ n / 2 ^ 8 % 256 ∷ n % 256 ∷ []

abbrev pub ceremony_tag : Bytes
ceremony_tag =
    b's' ∷ b'h' ∷ b'i' ∷ b'e' ∷ b'l' ∷ b'd' ∷ b'e' ∷ b'd' ∷ b'-' ∷ b'l' ∷ b'e' ∷ b'd' ∷ b'g' ∷ b'e'
    ∷ b'r' ∷ b'-' ∷ b'p' ∷ b'h' ∷ b'a' ∷ b's' ∷ b'e' ∷ b'2' ∷ b'-' ∷ b'c' ∷ b'e' ∷ b'r' ∷ b'e'
    ∷ b'm' ∷ b'o' ∷ b'n' ∷ b'y' ∷ b'-' ∷ b'v' ∷ b'1' ∷ []

module _ {Fr G1 G2 Gt : Type 0} (C : Curve Fr G1 G2 Gt) (H : Hashes Fr G1 G2) where
  unfoldable pub hash_to_fr : Bytes → Fr
  hash_to_fr input = H.from_le_bytes_mod_order (H.sha256 (0 ∷ input) ++ H.sha256 (1 ∷ input))

  unfoldable pub g1_be : G1 → Outcome Bytes
  g1_be p = do xy ← ok_or (C.xy1 p) (Failure.panic "identity G1 in hashing"); ok (xy.0 ++ xy.1)

  unfoldable pub g2_be : G2 → Outcome Bytes
  g2_be p = do
    xy ← ok_or (C.xy2 p) (Failure.panic "identity G2 in hashing")
    ok ((xy.0.0 ++ xy.0.1) ++ (xy.1.0 ++ xy.1.1))

  unfoldable pub pok_bytes : Pok G1 G2 → Outcome Bytes
  unfolding g1_be g2_be
  pok_bytes pok = do
    s ← g1_be pok.s_g1
    s_delta ← g1_be pok.s_delta_g1
    r_delta ← g2_be pok.r_delta_g2
    ok (s ++ (s_delta ++ r_delta))

  -- The points of a query, one after the other.
  unfoldable pub query_bytes : List G1 → Outcome Bytes
  unfolding g1_be
  query_bytes [] = ok []
  query_bytes (p ∷ ps) = do first ← g1_be p; rest ← query_bytes ps; ok (first ++ rest)

  unfoldable pub delta_to_wire : DeltaParams G1 G2 → Outcome Bytes
  unfolding g1_be g2_be query_bytes u32_be
  delta_to_wire d = do
    a ← g1_be d.delta_g1
    b ← g2_be d.delta_g2
    h ← query_bytes d.h_query
    l ← query_bytes d.l_query
    ok (a ++ (b ++ (u32_be (length d.h_query) ++ (h ++ (u32_be (length d.l_query) ++ l)))))

  -- The same bytes are fed to the digest.
  unfoldable pub delta_params_hash : DeltaParams G1 G2 → Outcome Bytes
  unfolding delta_to_wire
  delta_params_hash d = do bytes ← delta_to_wire d; ok (H.sha256 bytes)

  unfoldable pub fixed_params_hash : FixedParams G1 G2 → Bytes
  fixed_params_hash f = H.sha256 (H.serialize_fixed f)

  unfoldable pub pok_challenge : Bytes → G1 → G1 → G1 → Outcome Fr
  unfolding g1_be hash_to_fr
  pok_challenge prev_challenge s_g1 s_delta_g1 delta_after_g1 = do
    s ← g1_be s_g1
    s_delta ← g1_be s_delta_g1
    after ← g1_be delta_after_g1
    ok (hash_to_fr (prev_challenge ++ (s ++ (s_delta ++ after))))

  unfoldable pub advance_challenge : Bytes → Contribution G1 G2 → Outcome Bytes
  unfolding delta_params_hash pok_bytes u32_be
  advance_challenge prev_challenge c = do
    th ← delta_params_hash c.transfer.delta
    dh ← delta_params_hash c.deposit.delta
    tp ← pok_bytes c.transfer.pok
    dp ← pok_bytes c.deposit.pok
    ok (
        H.sha256 (
          prev_challenge
          ++ ((if c.is_beacon then 1 else 0)
              ∷ (u32_be (length c.contributor)
                  ++ (c.contributor
                      ++ (tp ++ (dp ++ (th ++ (dh ++ (u32_be (length c.beacon) ++ c.beacon))))))))))

  unfoldable pub genesis_challenge :
      ℕ
      → Bytes
      → FixedParams G1 G2
      → FixedParams G1 G2
      → DeltaParams G1 G2
      → DeltaParams G1 G2
      → Outcome Bytes
  unfolding delta_params_hash fixed_params_hash u32_be
  genesis_challenge power srs_sha256 transfer_fixed deposit_fixed transfer_initial deposit_initial =
      do
        ti ← delta_params_hash transfer_initial
        di ← delta_params_hash deposit_initial
        ok (
            H.sha256 (
              ceremony_tag
              ++ (u32_be power
                  ++ (srs_sha256
                      ++ (fixed_params_hash transfer_fixed
                          ++ (fixed_params_hash deposit_fixed ++ (ti ++ di)))))))
