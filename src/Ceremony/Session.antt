-- ===== src/Ceremony/Session.antt =====
-- The contributions of ceremony/src/session.rs: its start, the running challenge and the beacon.
pub mod Verifier
pub mod Rounds
use shielded_ledger_hivemind.Common.{
  ℕ, ◌+◌, true, false, List, [], ◌∷◌, ◌++◌, ok, ◌>>=◌, ◌>>◌, fail_if,
}
use shielded_ledger_hivemind.Adapter.Legacy.Messages.{Bytes}
use shielded_ledger_hivemind.Ceremony.Curve.{Curve}
use shielded_ledger_hivemind.Ceremony.Transcript.{
  DeltaParams, FixedParams, Contribution, Transcript, Failure, Outcome,
}
use shielded_ledger_hivemind.Ceremony.Hashing.{Hashes, genesis_challenge, advance_challenge}
use shielded_ledger_hivemind.Ceremony.Contribute.{sample_secret, contribute}
use shielded_ledger_hivemind.Ceremony.Verify.{beacon_secret}
use shielded_ledger_hivemind.Ceremony.Params.{ProvingKey, split_pk}

-- A phase-1 reference string: its power and digest, and the initial proving keys of the two circuits,
-- which `derive_initial_params` computes from it.
pub record Phase1Srs (G1 G2 : Type 0) : Type 0 where
  pub power : ℕ
  pub sha256 : Bytes
  pub transfer_pk : Outcome (ProvingKey G1 G2)
  pub deposit_pk : Outcome (ProvingKey G1 G2)

pub record CeremonyInit (G1 G2 : Type 0) : Type 0 where
  pub power : ℕ
  pub srs_sha256 : Bytes
  pub transfer_fixed : FixedParams G1 G2
  pub deposit_fixed : FixedParams G1 G2
  pub transfer_initial : DeltaParams G1 G2
  pub deposit_initial : DeltaParams G1 G2

pub record FinalKeys (G1 G2 : Type 0) : Type 0 where
  pub transfer_pk : ProvingKey G1 G2
  pub deposit_pk : ProvingKey G1 G2

module _ {Fr G1 G2 Gt : Type 0} (C : Curve Fr G1 G2 Gt) (H : Hashes Fr G1 G2) where
  unfoldable pub from_srs : Phase1Srs G1 G2 → Outcome (CeremonyInit G1 G2)
  unfolding split_pk
  from_srs srs = do
    t_pk ← srs.transfer_pk
    d_pk ← srs.deposit_pk
    ok (record {
      power = srs.power;
      srs_sha256 = srs.sha256;
      transfer_fixed = (split_pk t_pk).0;
      deposit_fixed = (split_pk d_pk).0;
      transfer_initial = (split_pk t_pk).1;
      deposit_initial = (split_pk d_pk).1;
    })

  unfoldable pub init_challenge : CeremonyInit G1 G2 → Outcome Bytes
  unfolding genesis_challenge
  init_challenge init =
      genesis_challenge C H init.power init.srs_sha256 init.transfer_fixed init.deposit_fixed
        init.transfer_initial init.deposit_initial

  unfoldable pub empty_transcript : CeremonyInit G1 G2 → Transcript G1 G2
  empty_transcript init = record {
    power = init.power;
    srs_sha256 = init.srs_sha256;
    transfer_fixed = init.transfer_fixed;
    deposit_fixed = init.deposit_fixed;
    transfer_initial = init.transfer_initial;
    deposit_initial = init.deposit_initial;
    contributions = [];
    finalized = false;
  }

  -- `contributions.last()`, and the initial parameters where there is none.
  unfoldable pub deltas_after :
      DeltaParams G1 G2 × DeltaParams G1 G2
      → List (Contribution G1 G2)
      → DeltaParams G1 G2 × DeltaParams G1 G2
  deltas_after initial [] = initial
  deltas_after initial (c ∷ cs) = deltas_after (c.transfer.delta, c.deposit.delta) cs

  unfoldable pub current_deltas : Transcript G1 G2 → DeltaParams G1 G2 × DeltaParams G1 G2
  unfolding deltas_after
  current_deltas t = deltas_after (t.transfer_initial, t.deposit_initial) t.contributions

  unfoldable pub running_challenge : Bytes → List (Contribution G1 G2) → Outcome Bytes
  unfolding advance_challenge
  running_challenge ch [] = ok ch
  running_challenge ch (c ∷ cs) = do next ← advance_challenge C H ch c; running_challenge next cs

  unfoldable pub simulate_contribution :
      CeremonyInit G1 G2 → Transcript G1 G2 → Bytes → ℕ → List Fr → Outcome (Transcript G1 G2)
  unfolding init_challenge running_challenge current_deltas contribute sample_secret
  simulate_contribution init transcript contributor timestamp rng = do
    fail_if transcript.finalized (Failure.refused "ceremony already finalized")
    genesis ← init_challenge init
    challenge ← running_challenge genesis transcript.contributions
    dt ← sample_secret C H rng
    t ← contribute C H challenge (current_deltas transcript).0 dt.0 dt.1
    dd ← sample_secret C H t.1
    d ← contribute C H challenge (current_deltas transcript).1 dd.0 dd.1
    ok (record transcript {
      contributions =
          transcript.contributions
          ++ (record {
            contributor = contributor;
            timestamp = timestamp;
            transfer = record { delta = t.0.0; pok = t.0.1 };
            deposit = record { delta = d.0.0; pok = d.0.1 };
            is_beacon = false;
            beacon = [];
          }
              ∷ []);
    })

  unfoldable pub finalize_with_beacon :
      CeremonyInit G1 G2 → Transcript G1 G2 → Bytes → List Fr → Outcome (Transcript G1 G2)
  unfolding init_challenge running_challenge current_deltas contribute beacon_secret
  finalize_with_beacon init transcript beacon rng = do
    fail_if transcript.finalized (Failure.refused "already finalized")
    genesis ← init_challenge init
    challenge ← running_challenge genesis transcript.contributions
    t ← contribute C H challenge (current_deltas transcript).0 (beacon_secret C H beacon) rng
    d ← contribute C H challenge (current_deltas transcript).1 (beacon_secret C H beacon) t.1
    ok (record transcript {
      contributions =
          transcript.contributions
          ++ (record {
            contributor = [];
            timestamp = 0;
            transfer = record { delta = t.0.0; pok = t.0.1 };
            deposit = record { delta = d.0.0; pok = d.0.1 };
            is_beacon = true;
            beacon = beacon;
          }
              ∷ []);
      finalized = true;
    })
