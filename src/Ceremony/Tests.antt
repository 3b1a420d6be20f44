-- ===== src/Ceremony/Tests.antt =====
-- The theorems on ceremony/src over the field of three elements.
use native.Mathlib.Decide.{ℕ_discrete}
use shielded_ledger_hivemind.Common.{◌≡◌, ◌≢◌, refl, false, [], ◌∷◌, ok, err}
use shielded_ledger_hivemind.Adapter.Legacy.Messages.{Bytes-discrete}
use shielded_ledger_hivemind.Ceremony.Curve.{ok_g1, ok_g2}
use shielded_ledger_hivemind.Ceremony.Transcript.{DeltaParams, Pok, Transcript, Outcome}
use shielded_ledger_hivemind.Ceremony.Hashing.{
  hash_to_fr, g1_be, g2_be, pok_bytes, query_bytes, delta_to_wire, delta_params_hash,
  fixed_params_hash, pok_challenge, advance_challenge, genesis_challenge, u32_be,
}
use shielded_ledger_hivemind.Ceremony.Contribute.{
  sample_secret, rerandomize, prove_knowledge, contribute,
}
use shielded_ledger_hivemind.Ceremony.Verify.{
  all_ok, validate_delta_shape, verify_pok, verify_division, division_ok, division_rho, combine,
  beacon_secret, check_first, verify_beacon_step,
}
use shielded_ledger_hivemind.Ceremony.Params.{ProvingKey, split_pk, join_pk}
use shielded_ledger_hivemind.Ceremony.Session.{
  Phase1Srs, CeremonyInit, FinalKeys, from_srs, init_challenge, empty_transcript, deltas_after,
  current_deltas, running_challenge, simulate_contribution, finalize_with_beacon,
}
use shielded_ledger_hivemind.Ceremony.Session.Verifier.{
  VerifyReport, verify_step, replay_step, replay_contributions, delta-discrete, fixed-discrete,
  check_initial, verify_full_transcript,
}
use shielded_ledger_hivemind.Ceremony.Sound.{Advances, verify_pok-Advances}
use shielded_ledger_hivemind.Ceremony.Honest.{WellFormed}
use shielded_ledger_hivemind.Ceremony.Accepts.{contribute-verify_pok}
use shielded_ledger_hivemind.Ceremony.Chain.{SoundDelta, Verified, verify_full_transcript-Verified}
use shielded_ledger_hivemind.Ceremony.Toy.{Three, Three-discrete, curve, hashes, nought, unit, two}
use shielded_ledger_hivemind.Ceremony.Toy.Laws.{field, groups}

-- Parameters of one H point and one L point.
abbrev delta0 : DeltaParams Three Three
delta0 = record { delta_g1 = two; delta_g2 = two; h_query = unit ∷ []; l_query = two ∷ [] }

delta0-WellFormed : WellFormed curve delta0
unfolding ok_g1 ok_g2 all_ok
delta0-WellFormed = record {
  delta1_ok = refl;
  delta2_ok = refl;
  h_ok = refl;
  l_ok = refl;
  consistent = refl;
}

abbrev delta1 : DeltaParams Three Three
delta1 = record { delta_g1 = unit; delta_g2 = unit; h_query = two ∷ []; l_query = unit ∷ [] }

abbrev pok1 : Pok Three Three
pok1 = record { s_g1 = unit; s_delta_g1 = two; r_delta_g2 = unit }

contribute1 :
    contribute curve hashes (6 ∷ []) delta0 two (nought ∷ unit ∷ []) ≡ ok ((delta1, pok1), [])
unfolding contribute sample_secret rerandomize prove_knowledge pok_challenge g1_be g2_be hash_to_fr
    u32_be pok_bytes query_bytes delta_to_wire delta_params_hash fixed_params_hash advance_challenge
    genesis_challenge ok_g1 ok_g2 all_ok validate_delta_shape verify_pok verify_division division_ok
    division_rho combine beacon_secret check_first verify_beacon_step split_pk join_pk from_srs
    init_challenge empty_transcript deltas_after current_deltas running_challenge
    simulate_contribution finalize_with_beacon verify_step replay_step replay_contributions
    delta-discrete fixed-discrete check_initial verify_full_transcript Bytes-discrete Three-discrete
    ℕ_discrete
contribute1 = refl

challenge1 : pok_challenge curve hashes (6 ∷ []) unit two unit ≢ ok nought
unfolding contribute sample_secret rerandomize prove_knowledge pok_challenge g1_be g2_be hash_to_fr
    u32_be pok_bytes query_bytes delta_to_wire delta_params_hash fixed_params_hash advance_challenge
    genesis_challenge ok_g1 ok_g2 all_ok validate_delta_shape verify_pok verify_division division_ok
    division_rho combine beacon_secret check_first verify_beacon_step split_pk join_pk from_srs
    init_challenge empty_transcript deltas_after current_deltas running_challenge
    simulate_contribution finalize_with_beacon verify_step replay_step replay_contributions
    delta-discrete fixed-discrete check_initial verify_full_transcript Bytes-discrete Three-discrete
    ℕ_discrete
challenge1 e = cc

two-ne-unit : two ≢ unit
two-ne-unit e = cc

contribute-verify_pok_example :
    (verify_pok curve hashes (6 ∷ []) two delta1 pok1 ≡ ok tt)
    × (verify_division curve hashes delta0 delta1 ≡ ok tt)
    × WellFormed curve delta1
contribute-verify_pok_example =
    contribute-verify_pok curve field groups hashes (6 ∷ []) delta0 delta1 two (nought ∷ unit ∷ [])
      [] pok1 delta0-WellFormed two-ne-unit challenge1 contribute1

verified1 : verify_pok curve hashes (6 ∷ []) two delta1 pok1 ≡ ok tt
unfolding contribute sample_secret rerandomize prove_knowledge pok_challenge g1_be g2_be hash_to_fr
    u32_be pok_bytes query_bytes delta_to_wire delta_params_hash fixed_params_hash advance_challenge
    genesis_challenge ok_g1 ok_g2 all_ok validate_delta_shape verify_pok verify_division division_ok
    division_rho combine beacon_secret check_first verify_beacon_step split_pk join_pk from_srs
    init_challenge empty_transcript deltas_after current_deltas running_challenge
    simulate_contribution finalize_with_beacon verify_step replay_step replay_contributions
    delta-discrete fixed-discrete check_initial verify_full_transcript Bytes-discrete Three-discrete
    ℕ_discrete
verified1 = refl

verify_pok-Advances_example : Advances curve field groups two two delta1 pok1
unfolding ok_g1 ok_g2 split_pk
verify_pok-Advances_example =
    verify_pok-Advances curve field groups hashes (6 ∷ []) two two delta1 pok1 refl refl refl
      verified1

abbrev proving_key : ProvingKey Three Three
proving_key = record {
  alpha_g1 = unit;
  vk_beta_g2 = two;
  gamma_g2 = unit;
  vk_delta_g2 = unit;
  gamma_abc_g1 = unit ∷ two ∷ [];
  beta_g1 = two;
  delta_g1 = unit;
  a_query = [];
  b_g1_query = [];
  b_g2_query = [];
  h_query = unit ∷ [];
  l_query = two ∷ [];
}

abbrev srs : Phase1Srs Three Three
srs = record {
  power = 3;
  sha256 = 1 ∷ 2 ∷ [];
  transfer_pk = ok proving_key;
  deposit_pk = ok proving_key;
}

abbrev init0 : CeremonyInit Three Three
init0 = record {
  power = 3;
  srs_sha256 = 1 ∷ 2 ∷ [];
  transfer_fixed = (split_pk proving_key).0;
  deposit_fixed = (split_pk proving_key).0;
  transfer_initial = (split_pk proving_key).1;
  deposit_initial = (split_pk proving_key).1;
}

abbrev transcript_of : Outcome (Transcript Three Three) → Transcript Three Three
transcript_of (ok t) = t
transcript_of (err e) = empty_transcript curve hashes init0

-- One contribution to both circuits, and the beacon.
abbrev transcript1 : Transcript Three Three
transcript1 = transcript_of (
    simulate_contribution curve hashes init0 (empty_transcript curve hashes init0) (7 ∷ []) 5
      (two ∷ two ∷ two ∷ two ∷ []))

abbrev transcript2 : Transcript Three Three
transcript2 =
    transcript_of (finalize_with_beacon curve hashes init0 transcript1 (3 ∷ []) (two ∷ two ∷ []))

abbrev keys_of :
    Outcome (FinalKeys Three Three × VerifyReport) → FinalKeys Three Three × VerifyReport
keys_of (ok r) = r
keys_of (err e) = (
  record { transfer_pk = proving_key; deposit_pk = proving_key },
  record { honest_contributions = 0; finalized = false },
)

abbrev outcome : FinalKeys Three Three × VerifyReport
outcome = keys_of (verify_full_transcript curve hashes srs transcript2)

accepted : verify_full_transcript curve hashes srs transcript2 ≡ ok outcome
unfolding contribute sample_secret rerandomize prove_knowledge pok_challenge g1_be g2_be hash_to_fr
    u32_be pok_bytes query_bytes delta_to_wire delta_params_hash fixed_params_hash advance_challenge
    genesis_challenge ok_g1 ok_g2 all_ok validate_delta_shape verify_pok verify_division division_ok
    division_rho combine beacon_secret check_first verify_beacon_step split_pk join_pk from_srs
    init_challenge empty_transcript deltas_after current_deltas running_challenge
    simulate_contribution finalize_with_beacon verify_step replay_step replay_contributions
    delta-discrete fixed-discrete check_initial verify_full_transcript Bytes-discrete Three-discrete
    ℕ_discrete
accepted = refl

proving_key-SoundDelta : SoundDelta curve field groups hashes (split_pk proving_key).1
unfolding ok_g1 ok_g2 split_pk
proving_key-SoundDelta = record { delta1_ok = refl; delta2_ok = refl; consistent = refl }

verify_full_transcript-Verified_example :
    Verified curve field groups hashes proving_key proving_key transcript2 outcome.0 outcome.1
verify_full_transcript-Verified_example =
    verify_full_transcript-Verified curve field groups hashes srs transcript2 proving_key
      proving_key outcome.0 outcome.1 refl refl proving_key-SoundDelta proving_key-SoundDelta
      accepted
