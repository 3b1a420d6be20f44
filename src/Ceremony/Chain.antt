-- ===== src/Ceremony/Chain.antt =====
-- What the replay of a transcript in ceremony/src/session.rs establishes about the final keys.
use native.Mathlib.Nat.{zero-add}
use shielded_ledger_hivemind.Common.{
  ◌==◌, ℕ, suc, ◌+◌, ◌≡◌, ◌≢◌, refl, sym, ap, subst, ◌∙◌, arith, Bool, true, false, not, ◌||◌, List,
  [], ◌∷◌, ok, fail_if, length, All, if◌then◌else◌, >>=-eq-ok, >>-eq-ok, ok-injective,
  fail_if-eq-ok,
}
use shielded_ledger_hivemind.Adapter.Legacy.Messages.{Bytes, Bytes-discrete}
use shielded_ledger_hivemind.Ceremony.Curve.{Curve, ok_g1, ok_g2, FieldLaws, PairingLaws}
use shielded_ledger_hivemind.Ceremony.Transcript.{
  DeltaParams, Pok, Contribution, Transcript, Failure,
}
use shielded_ledger_hivemind.Ceremony.Hashing.{Hashes}
use shielded_ledger_hivemind.Ceremony.Verify.{demand, verify_pok}
use shielded_ledger_hivemind.Ceremony.Params.{ProvingKey, split_pk, join_pk}
use shielded_ledger_hivemind.Ceremony.Session.{
  Phase1Srs, CeremonyInit, FinalKeys, from_srs, init_challenge,
}
use shielded_ledger_hivemind.Ceremony.Session.Verifier.{
  VerifyReport, replay_init, Replaying, replay_step, replay_contributions, check_initial,
  verify_full_transcript, same_flag,
}
use shielded_ledger_hivemind.Ceremony.Session.Rounds.{
  verify_step-verify_pok, replay_step-Replayed, counted, Replayed-counted,
}
use shielded_ledger_hivemind.Ceremony.Sound.{
  IsConsistent, verify_pok-Advances, verify_pok-PokChecks,
}

module _ {Fr G1 G2 Gt : Type 0} (C : Curve Fr G1 G2 Gt) (F : FieldLaws C) (L : PairingLaws C)
    (H : Hashes Fr G1 G2) where
  -- The increments applied one after the other.
  abbrev pub product : List Fr → Fr
  product [] = C.one
  product (d ∷ ds) = C.times (product ds) d

  -- Both forms of delta are valid points and encode one scalar.
  pub record SoundDelta (d : DeltaParams G1 G2) : Type 0 where
    pub delta1_ok : ok_g1 C d.delta_g1 ≡ true
    pub delta2_ok : ok_g2 C d.delta_g2 ≡ true
    pub consistent : IsConsistent C F L d.delta_g1 d.delta_g2

  -- The later delta is the earlier one times increments, none of which is one.
  pub record Grown (old new : DeltaParams G1 G2) (steps : ℕ) : Type 0 where
    pub increments : List Fr
    pub count : length increments ≡ steps
    pub changes : All (λ d. d ≢ C.one) increments
    pub delta1 : new.delta_g1 ≡ C.scale1 (product increments) old.delta_g1
    pub delta2 : new.delta_g2 ≡ C.scale2 (product increments) old.delta_g2
    pub sound : SoundDelta new

  verified-SoundDelta :
      (prev : Bytes) (old new : DeltaParams G1 G2) (pok : Pok G1 G2)
      → verify_pok C H prev old.delta_g1 new pok ≡ ok tt
      → SoundDelta new
  verified-SoundDelta prev old new pok h =
      let k = verify_pok-PokChecks C F L H prev old.delta_g1 new pok h in
      record { delta1_ok = k.delta1_ok; delta2_ok = k.delta2_ok; consistent = k.consistent }

  one_step :
      (prev : Bytes) (old mid new : DeltaParams G1 G2) (pok : Pok G1 G2) (n : ℕ)
      → SoundDelta old
      → verify_pok C H prev old.delta_g1 mid pok ≡ ok tt
      → Grown mid new n
      → Grown old new (suc n)
  one_step prev old mid new pok n s h g =
      let a =
        verify_pok-Advances C F L H prev old.delta_g1 old.delta_g2 mid pok s.delta1_ok s.delta2_ok
          s.consistent h in
      record {
        increments = a.increment ∷ g.increments;
        count = ap suc g.count;
        changes = (a.changed, g.changes);
        delta1 =
            g.delta1
            ∙ ap (C.scale1 (product g.increments)) a.advanced1
            ∙ sym (L.scale1_times (product g.increments) a.increment old.delta_g1);
        delta2 =
            g.delta2
            ∙ ap (C.scale2 (product g.increments)) a.advanced2
            ∙ sym (L.scale2_times (product g.increments) a.increment old.delta_g2);
        sound = g.sound;
      }

  no_step : (d : DeltaParams G1 G2) → SoundDelta d → Grown d d 0
  no_step d s = record {
    increments = [];
    count = refl;
    changes = tt;
    delta1 = sym (L.scale1_one d.delta_g1);
    delta2 = sym (L.scale2_one d.delta_g2);
    sound = s;
  }

  pub replay_contributions-Grown :
      (init : CeremonyInit G1 G2) (i : ℕ) (cs : List (Contribution G1 G2))
      (st st' : Replaying G1 G2)
      → SoundDelta st.t_cur
      → SoundDelta st.d_cur
      → replay_contributions C H init i cs st ≡ ok st'
      → Grown st.t_cur st'.t_cur (length cs)
        × Grown st.d_cur st'.d_cur (length cs)
        × (counted st' ≡ counted st + length cs)
  unfolding replay_contributions
  replay_contributions-Grown init i [] st st' t d h =
      let e = ok-injective h in
      (
        subst (λ r. Grown st.t_cur r.t_cur 0) e (no_step st.t_cur t),
        subst (λ r. Grown st.d_cur r.d_cur 0) e (no_step st.d_cur d),
        omega (arith, ap counted (sym e)),
      )
  replay_contributions-Grown init i (c ∷ cs) st st' t d h =
      let (st1, e1, rest) = >>=-eq-ok (replay_step C H init i c st) _ h in
      let r = replay_step-Replayed C H init i c st st1 e1 in
      let (vt, vd) = verify_step-verify_pok C H i c st r.step in
      let t1 = verified-SoundDelta st.challenge st.t_cur c.transfer.delta c.transfer.pok vt in
      let d1 = verified-SoundDelta st.challenge st.d_cur c.deposit.delta c.deposit.pok vd in
      let (gt, gd, n) =
        replay_contributions-Grown init (i + 1) cs st1 st' (subst SoundDelta r.t_cur t1)
          (subst SoundDelta r.d_cur d1) rest in
      (
        one_step st.challenge st.t_cur c.transfer.delta st'.t_cur c.transfer.pok (length cs) t vt
            (subst (λ m. Grown m st'.t_cur (length cs)) (sym r.t_cur) gt),
        one_step st.challenge st.d_cur c.deposit.delta st'.d_cur c.deposit.pok (length cs) d vd
            (subst (λ m. Grown m st'.d_cur (length cs)) (sym r.d_cur) gd),
        omega (arith, n, Replayed-counted C H i c st st1 r),
      )

  -- What the replay of a transcript from a reference string shows of the final keys.
  pub record Verified (t_pk d_pk : ProvingKey G1 G2) (t : Transcript G1 G2) (keys : FinalKeys G1 G2)
      (report : VerifyReport) : Type 0 where
    pub transfer : Grown (split_pk t_pk).1 (split_pk keys.transfer_pk).1 (length t.contributions)
    pub deposit : Grown (split_pk d_pk).1 (split_pk keys.deposit_pk).1 (length t.contributions)
    pub transfer_fixed : (split_pk keys.transfer_pk).0 ≡ (split_pk t_pk).0
    pub deposit_fixed : (split_pk keys.deposit_pk).0 ≡ (split_pk d_pk).0
    pub honest :
        report.honest_contributions + (if t.finalized then 1 else 0) ≡ length t.contributions
    pub finalized : report.finalized ≡ t.finalized

  same_flag-eq : (a b : Bool) → not (same_flag a b) ≡ false → b ≡ a
  same_flag-eq true true h = refl
  same_flag-eq true false h = cc
  same_flag-eq false true h = cc
  same_flag-eq false false h = refl

  -- A verified transcript leads from the keys of the reference string to the final keys by one
  -- increment other than one per contribution, the same in both forms of delta, leaves the fixed
  -- part alone, and reports every contribution as honest but the beacon of a finalized transcript.
  pub verify_full_transcript-Verified :
      (srs : Phase1Srs G1 G2) (t : Transcript G1 G2) (t_pk d_pk : ProvingKey G1 G2)
      (keys : FinalKeys G1 G2) (report : VerifyReport)
      → srs.transfer_pk ≡ ok t_pk
      → srs.deposit_pk ≡ ok d_pk
      → SoundDelta (split_pk t_pk).1
      → SoundDelta (split_pk d_pk).1
      → verify_full_transcript C H srs t ≡ ok (keys, report)
      → Verified t_pk d_pk t keys report
  unfolding verify_full_transcript from_srs split_pk join_pk
  verify_full_transcript-Verified srs t t_pk d_pk keys report et ed st sd h =
      let (_, k1) =
        >>-eq-ok
          (demand (Bytes-discrete srs.sha256 t.srs_sha256)
            (Failure.refused "transcript srs_sha256 does not match the provided SRS"))
          _ h in
      let init : CeremonyInit G1 G2 = record {
        power = srs.power;
        srs_sha256 = srs.sha256;
        transfer_fixed = (split_pk t_pk).0;
        deposit_fixed = (split_pk d_pk).0;
        transfer_initial = (split_pk t_pk).1;
        deposit_initial = (split_pk d_pk).1;
      } in
      let k2 = rw (et, ed) at k1 in
      let (_, k3) = >>-eq-ok (check_initial C H init t) _ k2 in
      let (genesis, _, k4) = >>=-eq-ok (init_challenge C H init) _ k3 in
      let (r, er, k5) =
        >>=-eq-ok (replay_contributions C H init 0 t.contributions (replay_init C H init genesis)) _
          k4 in
      let (ef, k6) =
        >>-eq-ok
          (fail_if (not (same_flag t.finalized r.beacon_seen))
            (Failure.refused "finalized flag disagrees with the presence of a beacon step"))
          _ k5 in
      let (_, k7) =
        >>-eq-ok
          (fail_if
            (not (
                length (join_pk init.transfer_fixed r.t_cur).gamma_abc_g1
                == init.transfer_fixed.num_instance)
              || not (
                  length (join_pk init.deposit_fixed r.d_cur).gamma_abc_g1
                  == init.deposit_fixed.num_instance))
            (Failure.refused "final vk gamma_abc length mismatch"))
          _ k6 in
      let (gt, gd, n) =
        replay_contributions-Grown init 0 t.contributions (replay_init C H init genesis) r st sd
          er in
      let flag = same_flag-eq t.finalized r.beacon_seen (fail_if-eq-ok _ (Failure.refused _) ef) in
      subst (λ (x : FinalKeys G1 G2 × VerifyReport). Verified t_pk d_pk t x.0 x.1) (ok-injective k7)
        (record {
          transfer = gt;
          deposit = gd;
          transfer_fixed = refl;
          deposit_fixed = refl;
          honest = ap (λ (b : Bool). r.honest + (if b then 1 else 0)) (sym flag) ∙ n ∙ zero-add _;
          finalized = refl;
        })
