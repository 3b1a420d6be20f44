-- ===== src/Ceremony/Contribute.antt =====
-- One contribution: ceremony/src/contribute.rs. The random generator is the list of the scalars that it
-- will give.
use mathlib.Core.Logic.{ite}
use shielded_ledger_hivemind.Common.{List, [], ◌∷◌, map, ok, err, ◌>>=◌, ok_or}
use shielded_ledger_hivemind.Adapter.Legacy.Messages.{Bytes}
use shielded_ledger_hivemind.Ceremony.Curve.{Curve}
use shielded_ledger_hivemind.Ceremony.Transcript.{DeltaParams, Pok, Failure, Outcome}
use shielded_ledger_hivemind.Ceremony.Hashing.{Hashes, pok_challenge}

module _ {Fr G1 G2 Gt : Type 0} (C : Curve Fr G1 G2 Gt) (H : Hashes Fr G1 G2) where
  -- `sample_secret`, and the loop for the nonce: the first scalar that is not zero, and what the
  -- generator gives later. The loop does not end on zeros only.
  unfoldable pub sample_secret : List Fr → Outcome (Fr × List Fr)
  sample_secret [] = err (Failure.panic "no nonzero scalar")
  sample_secret (d ∷ rng) =
      let later = sample_secret rng in ite (C.fr-discrete d C.zero) later (ok (d, rng))

  -- The parameters after the increment `d`, whose inverse is `d_inv`.
  unfoldable pub rerandomize : Fr → Fr → DeltaParams G1 G2 → DeltaParams G1 G2
  rerandomize d d_inv current = record {
    delta_g1 = C.scale1 d current.delta_g1;
    delta_g2 = C.scale2 d current.delta_g2;
    h_query = map (C.scale1 d_inv) current.h_query;
    l_query = map (C.scale1 d_inv) current.l_query;
  }

  -- The proof of knowledge of `d` with the nonce `s` and the challenge `c`.
  unfoldable pub prove_knowledge : Fr → Fr → Fr → Pok G1 G2
  prove_knowledge d s c = record {
    s_g1 = C.scale1 s C.g1;
    s_delta_g1 = C.scale1 (C.times s d) C.g1;
    r_delta_g2 = C.scale2 (C.times c d) C.g2;
  }

  unfoldable pub contribute :
      Bytes → DeltaParams G1 G2 → Fr → List Fr → Outcome ((DeltaParams G1 G2 × Pok G1 G2) × List Fr)
  unfolding sample_secret rerandomize prove_knowledge pok_challenge
  contribute prev_challenge current d rng =
      ite (C.fr-discrete d C.zero) (err (Failure.refused "delta increment must be nonzero")) (do
        d_inv ← ok_or (C.inverse d) (Failure.refused "delta not invertible")
        drawn ← sample_secret rng
        c ←
            pok_challenge C H prev_challenge (C.scale1 drawn.0 C.g1)
              (C.scale1 (C.times drawn.0 d) C.g1) (rerandomize d d_inv current).delta_g1
        ok ((rerandomize d d_inv current, prove_knowledge d drawn.0 c), drawn.1))
