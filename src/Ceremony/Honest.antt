-- ===== src/Ceremony/Honest.antt =====
-- Contributions made by ceremony/src/contribute.rs before the verifier of ceremony/src/verify.rs.
use mathlib.Core.Logic.{if_pos, if_neg}
use shielded_ledger_hivemind.Common.{
  ◌≡◌, ◌≢◌, sym, ap, ◌∙◌, true, some, List, [], ◌∷◌, ok, ok_or, >>=-eq-ok, ok-injective,
  ok_or-eq-ok,
}
use shielded_ledger_hivemind.Adapter.Legacy.Messages.{Bytes}
use shielded_ledger_hivemind.Ceremony.Curve.{Curve, ok_g1, ok_g2}
use shielded_ledger_hivemind.Ceremony.Transcript.{DeltaParams, Pok, Failure}
use shielded_ledger_hivemind.Ceremony.Hashing.{Hashes, pok_challenge}
use shielded_ledger_hivemind.Ceremony.Contribute.{
  sample_secret, rerandomize, prove_knowledge, contribute,
}
use shielded_ledger_hivemind.Ceremony.Verify.{all_ok}

module _ {Fr G1 G2 Gt : Type 0} (C : Curve Fr G1 G2 Gt) where
  -- Parameters that a contribution can start from.
  pub record WellFormed (d : DeltaParams G1 G2) : Type 0 where
    pub delta1_ok : ok_g1 C d.delta_g1 ≡ true
    pub delta2_ok : ok_g2 C d.delta_g2 ≡ true
    pub h_ok : all_ok (ok_g1 C) d.h_query ≡ true
    pub l_ok : all_ok (ok_g1 C) d.l_query ≡ true
    pub consistent : C.pairing d.delta_g1 C.g2 ≡ C.pairing C.g1 d.delta_g2

  -- A contribution by the book: what was drawn, and what came out.
  pub record Contributed (H : Hashes Fr G1 G2) (prev : Bytes) (current : DeltaParams G1 G2) (d : Fr)
      (new : DeltaParams G1 G2) (pok : Pok G1 G2) : Type 0 where
    pub nonzero : d ≢ C.zero
    pub d_inv : Fr
    pub inverted : C.inverse d ≡ some d_inv
    pub nonce : Fr
    pub nonce_nonzero : nonce ≢ C.zero
    pub challenge : Fr
    pub new_is : rerandomize C H d d_inv current ≡ new
    pub pok_is : prove_knowledge C H d nonce challenge ≡ pok
    pub drawn : pok_challenge C H prev pok.s_g1 pok.s_delta_g1 new.delta_g1 ≡ ok challenge

  sample_secret_nonzero :
      (H : Hashes Fr G1 G2) (rng : List Fr) (r : Fr × List Fr)
      → sample_secret C H rng ≡ ok r
      → r.0 ≢ C.zero
  unfolding sample_secret
  sample_secret_nonzero H [] r h = cc
  sample_secret_nonzero H (d ∷ rng) r h = elim (C.fr-discrete d C.zero) [
    | yes z ↦ sample_secret_nonzero H rng r (rw (if_pos (C.fr-discrete d C.zero) z) at h)
    | no nz ↦
        let e : (d, rng) ≡ r = ok-injective (rw (if_neg (C.fr-discrete d C.zero) nz) at h) in
        λ zero. nz (ap (λ (x : Fr × List Fr). x.0) e ∙ zero)
  ]

  pub contribute-Contributed :
      (H : Hashes Fr G1 G2) (prev : Bytes) (current : DeltaParams G1 G2) (d : Fr)
      (rng later : List Fr) (new : DeltaParams G1 G2) (pok : Pok G1 G2)
      → contribute C H prev current d rng ≡ ok ((new, pok), later)
      → Contributed H prev current d new pok
  unfolding contribute rerandomize prove_knowledge
  contribute-Contributed H prev current d rng later new pok h = elim (C.fr-discrete d C.zero) [
    | yes z ↦ cc (rw (if_pos (C.fr-discrete d C.zero) z) at h)
    | no nz ↦
        let k0 = rw (if_neg (C.fr-discrete d C.zero) nz) at h in
        let (d_inv, ei, k1) =
          >>=-eq-ok (ok_or (C.inverse d) (Failure.refused "delta not invertible")) _ k0 in
        let (s, es, k2) = >>=-eq-ok (sample_secret C H rng) _ k1 in
        let (c, ec, k3) =
          >>=-eq-ok
            (pok_challenge C H prev (C.scale1 s.0 C.g1) (C.scale1 (C.times s.0 d) C.g1)
              (C.scale1 d current.delta_g1))
            _ k2 in
        let same = ok-injective k3 in
        let new_same = ap (λ (r : (DeltaParams G1 G2 × Pok G1 G2) × List Fr). r.0.0) same in
        let pok_same = ap (λ (r : (DeltaParams G1 G2 × Pok G1 G2) × List Fr). r.0.1) same in
        record {
          nonzero = nz;
          d_inv = d_inv;
          inverted = ok_or-eq-ok _ (Failure.refused "delta not invertible") ei;
          nonce = s.0;
          nonce_nonzero = sample_secret_nonzero H rng s es;
          challenge = c;
          new_is = new_same;
          pok_is = pok_same;
          drawn =
              ap
                (λ (r : DeltaParams G1 G2 × Pok G1 G2).
                  pok_challenge C H prev r.1.s_g1 r.1.s_delta_g1 r.0.delta_g1)
                (ap (λ (r : (DeltaParams G1 G2 × Pok G1 G2) × List Fr). r.0) (sym same))
              ∙ ec;
        }
  ]
