-- ===== src/Ceremony/Session/Verifier.antt =====
-- `verify_full_transcript` of ceremony/src/session.rs.
use Prim.Native.String.{String}
use native.Mathlib.Decide.{ℕ_discrete}
use shielded_ledger_hivemind.Common.{
  ℕ, ◌+◌, Bool, true, false, not, ◌||◌, List, [], ◌∷◌, ok, err, ◌>>=◌, ◌>>◌, fail_if, length, ◌==◌,
  if◌then◌else◌,
}
use shielded_ledger_hivemind.Adapter.Legacy.Messages.{Bytes, Bytes-discrete}
use shielded_ledger_hivemind.Ceremony.Curve.{Curve}
use shielded_ledger_hivemind.Ceremony.Transcript.{
  DeltaParams, FixedParams, Contribution, Transcript, Failure, Outcome,
}
use shielded_ledger_hivemind.Ceremony.Hashing.{Hashes, advance_challenge}
use shielded_ledger_hivemind.Ceremony.Verify.{
  demand, validate_delta_shape, verify_pok, verify_division, verify_beacon_step,
}
use shielded_ledger_hivemind.Ceremony.Params.{join_pk}
use shielded_ledger_hivemind.Ceremony.Session.{
  from_srs, init_challenge, Phase1Srs, CeremonyInit, FinalKeys,
}

-- `VerifyReport` without the hexadecimal digests of the two keys.
pub record VerifyReport : Type 0 where
  pub honest_contributions : ℕ
  pub finalized : Bool

-- The mutable variables of the replay.
pub record Replaying (G1 G2 : Type 0) : Type 0 where
  pub challenge : Bytes
  pub t_cur : DeltaParams G1 G2
  pub d_cur : DeltaParams G1 G2
  pub beacon_seen : Bool
  pub honest : ℕ

abbrev pub same_flag : Bool → Bool → Bool
same_flag true b = b
same_flag false b = not b

-- `map_err` with the number of the contribution and the part that fails; a panic goes through.
abbrev pub named : {A : Type 0} → ℕ → String → Outcome A → Outcome A
named i part (ok a) = ok a
named i part (err (Failure.panic what)) = err (Failure.panic what)
named i part (err (Failure.refused what)) =
    err (Failure.in_contribution i part (Failure.refused what))
named i part (err (Failure.in_contribution j inner e)) =
    err (Failure.in_contribution i part (Failure.in_contribution j inner e))

module _ {Fr G1 G2 Gt : Type 0} (C : Curve Fr G1 G2 Gt) (H : Hashes Fr G1 G2) where
  -- The two arms of `if c.is_beacon`.
  unfoldable pub verify_step : ℕ → Contribution G1 G2 → Replaying G1 G2 → Outcome (Unit {0})
  unfolding verify_beacon_step verify_pok verify_division
  verify_step i c st =
      if c.is_beacon
      then (named i "transfer beacon"
            (verify_beacon_step C H st.challenge st.t_cur c.transfer.delta c.transfer.pok c.beacon)
          >> named i "deposit beacon"
              (verify_beacon_step C H st.challenge st.d_cur c.deposit.delta c.deposit.pok c.beacon))
      else (named i "transfer PoK"
            (verify_pok C H st.challenge st.t_cur.delta_g1 c.transfer.delta c.transfer.pok)
          >> (named i "transfer division" (verify_division C H st.t_cur c.transfer.delta)
              >> (named i "deposit PoK"
                    (verify_pok C H st.challenge st.d_cur.delta_g1 c.deposit.delta c.deposit.pok)
                  >> named i "deposit division" (verify_division C H st.d_cur c.deposit.delta))))

  -- The round of the loop for contribution `i`; the lengths are those of the initial queries.
  unfoldable pub replay_step :
      CeremonyInit G1 G2 → ℕ → Contribution G1 G2 → Replaying G1 G2 → Outcome (Replaying G1 G2)
  unfolding verify_step validate_delta_shape advance_challenge
  replay_step init i c st = do
    fail_if st.beacon_seen
        (Failure.in_contribution i "follows the beacon finalize step" (Failure.refused ""))
    named i "transfer shape" (
        validate_delta_shape C H c.transfer.delta (length init.transfer_initial.h_query)
          (length init.transfer_initial.l_query))
    named i "deposit shape" (
        validate_delta_shape C H c.deposit.delta (length init.deposit_initial.h_query)
          (length init.deposit_initial.l_query))
    verify_step i c st
    challenge ← advance_challenge C H st.challenge c
    ok (record {
      challenge = challenge;
      t_cur = c.transfer.delta;
      d_cur = c.deposit.delta;
      beacon_seen = c.is_beacon;
      honest = if c.is_beacon then st.honest else st.honest + 1;
    })

  unfoldable pub replay_contributions :
      CeremonyInit G1 G2
      → ℕ
      → List (Contribution G1 G2)
      → Replaying G1 G2
      → Outcome (Replaying G1 G2)
  unfolding replay_step
  replay_contributions init i [] st = ok st
  replay_contributions init i (c ∷ cs) st = do
    next ← replay_step init i c st
    replay_contributions init (i + 1) cs next

  unfoldable pub delta-discrete : Discrete (DeltaParams G1 G2)
  delta-discrete = hlevel (C.g1-discrete, C.g2-discrete)

  unfoldable pub fixed-discrete : Discrete (FixedParams G1 G2)
  fixed-discrete = hlevel (C.g1-discrete, C.g2-discrete, ℕ_discrete)

  -- The initial parameters of the transcript are those that the reference string gives.
  unfoldable pub check_initial : CeremonyInit G1 G2 → Transcript G1 G2 → Outcome (Unit {0})
  unfolding delta-discrete fixed-discrete
  check_initial init t =
      let mismatch =
        Failure.refused "transcript initial parameters do not match the SRS-derived parameters" in
      do
        demand (fixed-discrete init.transfer_fixed t.transfer_fixed) mismatch
        demand (fixed-discrete init.deposit_fixed t.deposit_fixed) mismatch
        demand (delta-discrete init.transfer_initial t.transfer_initial) mismatch
        demand (delta-discrete init.deposit_initial t.deposit_initial) mismatch

  abbrev pub replay_init : CeremonyInit G1 G2 → Bytes → Replaying G1 G2
  replay_init init genesis = record {
    challenge = genesis;
    t_cur = init.transfer_initial;
    d_cur = init.deposit_initial;
    beacon_seen = false;
    honest = 0;
  }

  unfoldable pub verify_full_transcript :
      Phase1Srs G1 G2 → Transcript G1 G2 → Outcome (FinalKeys G1 G2 × VerifyReport)
  unfolding from_srs check_initial init_challenge replay_contributions join_pk
  verify_full_transcript srs transcript = do
    demand (Bytes-discrete srs.sha256 transcript.srs_sha256)
        (Failure.refused "transcript srs_sha256 does not match the provided SRS")
    init ← from_srs C H srs
    check_initial init transcript
    genesis ← init_challenge C H init
    st ← replay_contributions init 0 transcript.contributions (replay_init init genesis)
    fail_if (not (same_flag transcript.finalized st.beacon_seen))
        (Failure.refused "finalized flag disagrees with the presence of a beacon step")
    fail_if
        (not (
            length (join_pk init.transfer_fixed st.t_cur).gamma_abc_g1
            == init.transfer_fixed.num_instance)
          || not (
              length (join_pk init.deposit_fixed st.d_cur).gamma_abc_g1
              == init.deposit_fixed.num_instance))
        (Failure.refused "final vk gamma_abc length mismatch")
    ok (
      record {
        transfer_pk = join_pk init.transfer_fixed st.t_cur;
        deposit_pk = join_pk init.deposit_fixed st.d_cur;
      },
      record { honest_contributions = st.honest; finalized = transcript.finalized },
    )
