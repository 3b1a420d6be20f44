-- ===== src/Ceremony/Session/Rounds.antt =====
-- One round of the replay of a transcript in ceremony/src/session.rs.
use Prim.Native.String.{String}
use shielded_ledger_hivemind.Common.{
  ℕ, ◌+◌, ◌≡◌, sym, ap, arith, false, ok, err, fail_if, length, if◌then◌else◌, inl, inr, Bool-cases,
  >>=-eq-ok, >>-eq-ok, ok-injective, fail_if-eq-ok,
}
use shielded_ledger_hivemind.Adapter.Legacy.Messages.{Bytes}
use shielded_ledger_hivemind.Ceremony.Curve.{Curve}
use shielded_ledger_hivemind.Ceremony.Transcript.{DeltaParams, Pok, Contribution, Failure, Outcome}
use shielded_ledger_hivemind.Ceremony.Hashing.{Hashes, advance_challenge}
use shielded_ledger_hivemind.Ceremony.Verify.{
  validate_delta_shape, verify_pok, verify_division, verify_beacon_step,
}
use shielded_ledger_hivemind.Ceremony.Session.{CeremonyInit}
use shielded_ledger_hivemind.Ceremony.Session.Verifier.{Replaying, named, verify_step, replay_step}

named-eq-ok :
    {A : Type 0} (i : ℕ) (part : String) (o : Outcome A) {a : A} → named i part o ≡ ok a → o ≡ ok a
named-eq-ok i part (ok a) h = h
named-eq-ok i part (err (Failure.panic what)) h = cc
named-eq-ok i part (err (Failure.refused what)) h = cc
named-eq-ok i part (err (Failure.in_contribution j inner e)) h = cc

-- How many contributions the variables of the replay have counted, the beacon's included.
abbrev pub counted : {G1 G2 : Type 0} → Replaying G1 G2 → ℕ
counted st = st.honest + (if st.beacon_seen then 1 else 0)

module _ {Fr G1 G2 Gt : Type 0} (C : Curve Fr G1 G2 Gt) (H : Hashes Fr G1 G2) where
  beacon-verify_pok :
      (prev : Bytes) (old new : DeltaParams G1 G2) (pok : Pok G1 G2) (beacon : Bytes)
      → verify_beacon_step C H prev old new pok beacon ≡ ok tt
      → verify_pok C H prev old.delta_g1 new pok ≡ ok tt
  unfolding verify_beacon_step
  beacon-verify_pok prev old new pok beacon h =
      (>>-eq-ok (verify_pok C H prev old.delta_g1 new pok) _ h).0

  pub verify_step-verify_pok :
      (i : ℕ) (c : Contribution G1 G2) (st : Replaying G1 G2)
      → verify_step C H i c st ≡ ok tt
      → (verify_pok C H st.challenge st.t_cur.delta_g1 c.transfer.delta c.transfer.pok ≡ ok tt)
        × (verify_pok C H st.challenge st.d_cur.delta_g1 c.deposit.delta c.deposit.pok ≡ ok tt)
  unfolding verify_step
  verify_step-verify_pok i c st h = elim (Bool-cases c.is_beacon) [
    | inl beacon ↦
        let k0 = rw beacon at h in
        let (et, k1) =
          >>-eq-ok
            (named i "transfer beacon" (
              verify_beacon_step C H st.challenge st.t_cur c.transfer.delta c.transfer.pok
                c.beacon))
            _ k0 in
        (
          beacon-verify_pok st.challenge st.t_cur c.transfer.delta c.transfer.pok c.beacon
              (named-eq-ok i "transfer beacon" _ et),
          beacon-verify_pok st.challenge st.d_cur c.deposit.delta c.deposit.pok c.beacon
              (named-eq-ok i "deposit beacon" _ k1),
        )
    | inr honest ↦
        let k0 = rw honest at h in
        let (et, k1) =
          >>-eq-ok
            (named i "transfer PoK"
              (verify_pok C H st.challenge st.t_cur.delta_g1 c.transfer.delta c.transfer.pok))
            _ k0 in
        let (_, k2) =
          >>-eq-ok (named i "transfer division" (verify_division C H st.t_cur c.transfer.delta)) _
            k1 in
        let (ed, _) =
          >>-eq-ok
            (named i "deposit PoK"
              (verify_pok C H st.challenge st.d_cur.delta_g1 c.deposit.delta c.deposit.pok))
            _ k2 in
        (named-eq-ok i "transfer PoK" _ et, named-eq-ok i "deposit PoK" _ ed)
  ]

  -- One round of the replay.
  pub record Replayed (i : ℕ) (c : Contribution G1 G2) (st st1 : Replaying G1 G2) : Type 0 where
    pub no_beacon_yet : st.beacon_seen ≡ false
    pub step : verify_step C H i c st ≡ ok tt
    pub t_cur : c.transfer.delta ≡ st1.t_cur
    pub d_cur : c.deposit.delta ≡ st1.d_cur
    pub beacon_seen : c.is_beacon ≡ st1.beacon_seen
    pub honest : (if c.is_beacon then st.honest else st.honest + 1) ≡ st1.honest

  pub replay_step-Replayed :
      (init : CeremonyInit G1 G2) (i : ℕ) (c : Contribution G1 G2) (st st1 : Replaying G1 G2)
      → replay_step C H init i c st ≡ ok st1
      → Replayed i c st st1
  unfolding replay_step
  replay_step-Replayed init i c st st1 h =
      let follows =
        Failure.in_contribution i "follows the beacon finalize step" (Failure.refused "") in
      let (eb, k1) = >>-eq-ok (fail_if st.beacon_seen follows) _ h in
      let (_, k2) =
        >>-eq-ok
          (named i "transfer shape" (
            validate_delta_shape C H c.transfer.delta (length init.transfer_initial.h_query)
              (length init.transfer_initial.l_query)))
          _ k1 in
      let (_, k3) =
        >>-eq-ok
          (named i "deposit shape" (
            validate_delta_shape C H c.deposit.delta (length init.deposit_initial.h_query)
              (length init.deposit_initial.l_query)))
          _ k2 in
      let (es, k4) = >>-eq-ok (verify_step C H i c st) _ k3 in
      let (challenge, _, k5) = >>=-eq-ok (advance_challenge C H st.challenge c) _ k4 in
      let same = ok-injective k5 in
      record {
        no_beacon_yet = fail_if-eq-ok st.beacon_seen follows eb;
        step = es;
        t_cur = ap (λ (r : Replaying G1 G2). r.t_cur) same;
        d_cur = ap (λ (r : Replaying G1 G2). r.d_cur) same;
        beacon_seen = ap (λ (r : Replaying G1 G2). r.beacon_seen) same;
        honest = ap (λ (r : Replaying G1 G2). r.honest) same;
      }

  pub Replayed-counted :
      (i : ℕ) (c : Contribution G1 G2) (st st1 : Replaying G1 G2)
      → Replayed i c st st1
      → counted st1 ≡ counted st + 1
  Replayed-counted i c st st1 r = elim (Bool-cases c.is_beacon) [
    | inl beacon ↦ rw (sym r.honest, sym r.beacon_seen, r.no_beacon_yet, beacon) (omega arith)
    | inr honest ↦ rw (sym r.honest, sym r.beacon_seen, r.no_beacon_yet, honest) (omega arith)
  ]
