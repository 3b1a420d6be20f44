-- ===== src/Ceremony/Accepts.antt =====
-- A contribution by the book passes the checks of ceremony/src/verify.rs.
use mathlib.Core.Logic.{if_pos, if_neg}
use shielded_ledger_hivemind.Common.{
  suc, ◌≡◌, ◌≢◌, refl, sym, ap, ap₂, subst, ◌∙◌, true, some, List, [], ◌∷◌, map, ok, length, ==_iff,
  &&-eq-true,
}
use shielded_ledger_hivemind.Adapter.Legacy.Messages.{Bytes}
use shielded_ledger_hivemind.Ceremony.Curve.{Curve, ok_g1, ok_g2, FieldLaws, PairingLaws}
use shielded_ledger_hivemind.Ceremony.Transcript.{DeltaParams, Pok, Failure}
use shielded_ledger_hivemind.Ceremony.Hashing.{Hashes, pok_challenge}
use shielded_ledger_hivemind.Ceremony.Contribute.{rerandomize, prove_knowledge, contribute}
use shielded_ledger_hivemind.Ceremony.Verify.{
  all_ok, verify_pok, combine, division_ok, division_rho, verify_division, h_query_tag, l_query_tag,
}
use shielded_ledger_hivemind.Ceremony.Sound.{
  demand_yes, times_nonzero, pairing-scales, same_log, PokChecks,
}
use shielded_ledger_hivemind.Ceremony.Honest.{WellFormed, Contributed, contribute-Contributed}

module _ {Fr G1 G2 Gt : Type 0} (C : Curve Fr G1 G2 Gt) (F : FieldLaws C) (L : PairingLaws C) where
  -- Scaling by two scalars, in either order.
  swap_scales : (a b : Fr) (p : G1) → C.scale1 a (C.scale1 b p) ≡ C.scale1 b (C.scale1 a p)
  swap_scales a b p =
      sym (L.scale1_times a b p) ∙ ap (λ x. C.scale1 x p) (F.times_comm a b) ∙ L.scale1_times b a p

  undo_scale : (d i : Fr) (p : G1) → C.inverse d ≡ some i → C.scale1 d (C.scale1 i p) ≡ p
  undo_scale d i p e =
      sym (L.scale1_times d i p) ∙ ap (λ x. C.scale1 x p) (F.times_inverse d i e) ∙ L.scale1_one p

  inverse_nonzero : (d i : Fr) → C.inverse d ≡ some i → i ≢ C.zero
  inverse_nonzero d i e z =
      F.one_nonzero (sym (F.times_inverse d i e) ∙ ap (C.times d) z ∙ F.times_zero d)

  combine-scale :
      (H : Hashes Fr G1 G2) (i rho : Fr) (qs : List G1) (acc : G1) (p : Fr)
      → combine C H rho (map (C.scale1 i) qs) (C.scale1 i acc) p
        ≡ C.scale1 i (combine C H rho qs acc p)
  unfolding combine
  combine-scale H i rho [] acc p = refl
  combine-scale H i rho (q ∷ qs) acc p =
      ap (λ a. combine C H rho (map (C.scale1 i) qs) a (C.times p rho))
        (ap (C.add1 (C.scale1 i acc)) (swap_scales p i q) ∙ sym (L.scale1_add i acc (C.scale1 p q)))
      ∙ combine-scale H i rho qs (C.add1 acc (C.scale1 p q)) (C.times p rho)

  length-map : (f : G1 → G1) (qs : List G1) → length (map f qs) ≡ length qs
  length-map f [] = refl
  length-map f (q ∷ qs) = ap suc (length-map f qs)

  -- Dividing a query by what delta is multiplied with keeps the division check satisfied.
  division_accepts :
      (H : Hashes Fr G1 G2) (d i rho : Fr) (qs : List G1) (delta : G2)
      → C.inverse d ≡ some i
      → division_ok C H qs (map (C.scale1 i) qs) delta (C.scale2 d delta) rho ≡ true
  unfolding division_ok
  division_accepts H d i rho qs delta e =
      let balanced : C.pairing (combine C H rho (map (C.scale1 i) qs) C.identity1 C.one)
            (C.scale2 d delta)
          ≡ C.pairing (combine C H rho qs C.identity1 C.one) delta =
        sym (L.bilinear d (combine C H rho (map (C.scale1 i) qs) C.identity1 C.one) delta)
        ∙ ap (λ x. C.pairing (C.scale1 d x) delta)
            (ap (λ a. combine C H rho (map (C.scale1 i) qs) a C.one) (sym (L.scale1_identity i))
              ∙ combine-scale H i rho qs C.identity1 C.one)
        ∙ ap (λ x. C.pairing x delta) (undo_scale d i (combine C H rho qs C.identity1 C.one) e) in
      rw
        (
          (==_iff (length qs) (length (map (C.scale1 i) qs))).1 (sym (length-map (C.scale1 i) qs)),
          if_pos
              (C.gt-discrete
                (C.pairing (combine C H rho (map (C.scale1 i) qs) C.identity1 C.one)
                  (C.scale2 d delta))
                (C.pairing (combine C H rho qs C.identity1 C.one) delta))
              balanced,
        )
        refl

  pub rerandomize-verify_division :
      (H : Hashes Fr G1 G2) (current : DeltaParams G1 G2) (d i : Fr)
      → C.inverse d ≡ some i
      → verify_division C H current (rerandomize C H d i current) ≡ ok tt
  unfolding verify_division rerandomize
  rerandomize-verify_division H current d i e =
      let new = rerandomize C H d i current in
      rw
        (
          division_accepts H d i (division_rho C H current new h_query_tag) current.h_query
              current.delta_g2 e,
          division_accepts H d i (division_rho C H current new l_query_tag) current.l_query
              current.delta_g2 e,
          (==_iff (length current.h_query) (length (map (C.scale1 i) current.h_query))).1
              (sym (length-map (C.scale1 i) current.h_query)),
          (==_iff (length current.l_query) (length (map (C.scale1 i) current.l_query))).1
              (sym (length-map (C.scale1 i) current.l_query)),
        )
        refl

  all_ok-scale :
      (i : Fr) (qs : List G1)
      → i ≢ C.zero
      → all_ok (ok_g1 C) qs ≡ true
      → all_ok (ok_g1 C) (map (C.scale1 i) qs) ≡ true
  unfolding all_ok
  all_ok-scale i [] nz h = refl
  all_ok-scale i (q ∷ qs) nz h =
      let (first, rest) = &&-eq-true (ok_g1 C q) (all_ok (ok_g1 C) qs) h in
      rw (L.scale1_ok i q nz first, all_ok-scale i qs nz rest) refl

  -- Both forms of delta advance by the same increment.
  scaled_consistent :
      (d : Fr) (p : G1) (q : G2)
      → ok_g1 C p ≡ true
      → ok_g2 C q ≡ true
      → C.pairing p C.g2 ≡ C.pairing C.g1 q
      → C.pairing (C.scale1 d p) C.g2 ≡ C.pairing C.g1 (C.scale2 d q)
  scaled_consistent d p q okp okq e =
      let (a, ep, _) = L.log1 p okp in
      let (b, eq, _) = L.log2 q okq in
      let same : a ≡ b = same_log C F L p q a b ep eq e in
      ap (λ x. C.pairing (C.scale1 d x) C.g2) ep
      ∙ ap (λ x. C.pairing x C.g2) (sym (L.scale1_times d a C.g1))
      ∙ L.bilinear (C.times d a) C.g1 C.g2
      ∙ ap (C.pairing C.g1) (
          L.scale2_times d a C.g2
          ∙ ap (λ x. C.scale2 d (C.scale2 x C.g2)) same
          ∙ ap (C.scale2 d) (sym eq))

  pub rerandomize-WellFormed :
      (H : Hashes Fr G1 G2) (current : DeltaParams G1 G2) (d i : Fr)
      → WellFormed C current
      → d ≢ C.zero
      → C.inverse d ≡ some i
      → WellFormed C (rerandomize C H d i current)
  unfolding rerandomize
  rerandomize-WellFormed H current d i w nz e = record {
    delta1_ok = L.scale1_ok d current.delta_g1 nz w.delta1_ok;
    delta2_ok = L.scale2_ok d current.delta_g2 nz w.delta2_ok;
    h_ok = all_ok-scale i current.h_query (inverse_nonzero d i e) w.h_ok;
    l_ok = all_ok-scale i current.l_query (inverse_nonzero d i e) w.l_ok;
    consistent =
        scaled_consistent d current.delta_g1 current.delta_g2 w.delta1_ok w.delta2_ok w.consistent;
  }

  -- The check of a proof whose equations hold.
  verify_pok_accepts :
      (H : Hashes Fr G1 G2) (prev : Bytes) (old : G1) (new : DeltaParams G1 G2) (pok : Pok G1 G2)
      → PokChecks C F L H prev old new pok
      → verify_pok C H prev old new pok ≡ ok tt
  unfolding verify_pok
  verify_pok_accepts H prev old new pok k =
      rw
        (
          k.s_ok,
          k.s_delta_ok,
          k.r_delta_ok,
          k.delta1_ok,
          k.delta2_ok,
          if_neg (C.g1-discrete new.delta_g1 old) k.changed,
          k.drawn,
          demand_yes
              (C.gt-discrete (C.pairing pok.s_g1 pok.r_delta_g2)
                (C.pairing pok.s_delta_g1 (C.scale2 k.challenge C.g2)))
              (Failure.refused "PoK same-ratio check (1) failed") k.same_ratio,
          demand_yes
              (C.gt-discrete (C.pairing new.delta_g1 (C.scale2 k.challenge C.g2))
                (C.pairing old pok.r_delta_g2))
              (Failure.refused "PoK delta-advance check (2) failed") k.advance,
        )
        (demand_yes (C.gt-discrete (C.pairing new.delta_g1 C.g2) (C.pairing C.g1 new.delta_g2))
          (Failure.refused "delta_g1/delta_g2 consistency check (3) failed") k.consistent)

  honest-PokChecks :
      (H : Hashes Fr G1 G2) (prev : Bytes) (current new : DeltaParams G1 G2) (d : Fr)
      (pok : Pok G1 G2) (k : Contributed C H prev current d new pok)
      → WellFormed C current
      → d ≢ C.one
      → k.challenge ≢ C.zero
      → PokChecks C F L H prev current.delta_g1
          (rerandomize C H d k.d_inv current)
          (prove_knowledge C H d k.nonce k.challenge)
  unfolding rerandomize prove_knowledge
  honest-PokChecks H prev current new d pok k w d1 cz =
      let s : Fr = k.nonce in
      let c : Fr = k.challenge in
      record {
        s_ok = L.scale1_ok s C.g1 k.nonce_nonzero L.generators.0;
        s_delta_ok =
            L.scale1_ok (C.times s d) C.g1 (times_nonzero C F s d k.nonce_nonzero k.nonzero)
              L.generators.0;
        r_delta_ok =
            L.scale2_ok (C.times c d) C.g2 (times_nonzero C F c d cz k.nonzero) L.generators.1;
        delta1_ok = L.scale1_ok d current.delta_g1 k.nonzero w.delta1_ok;
        delta2_ok = L.scale2_ok d current.delta_g2 k.nonzero w.delta2_ok;
        changed = λ e. d1 (
            L.cancel1 d C.one current.delta_g1 w.delta1_ok
              (e ∙ sym (L.scale1_one current.delta_g1)));
        challenge = c;
        drawn =
            ap₂
              (λ (p : Pok G1 G2) (n : DeltaParams G1 G2).
                pok_challenge C H prev p.s_g1 p.s_delta_g1 n.delta_g1)
              k.pok_is k.new_is
            ∙ k.drawn;
        same_ratio =
            pairing-scales C F L s (C.times c d)
            ∙ ap (λ x. C.pairing (C.scale1 x C.g1) C.g2)
                (F.times_assoc c d s ∙ ap (C.times c) (F.times_comm d s))
            ∙ sym (pairing-scales C F L (C.times s d) c);
        advance =
            L.bilinear d current.delta_g1 (C.scale2 c C.g2)
            ∙ ap (C.pairing current.delta_g1)
                (sym (L.scale2_times d c C.g2) ∙ ap (λ x. C.scale2 x C.g2) (F.times_comm d c));
        consistent =
            scaled_consistent d current.delta_g1 current.delta_g2 w.delta1_ok w.delta2_ok
              w.consistent;
      }

  -- What `contribute` returns for an increment other than one is accepted by both tiers of the
  -- verifier and can be contributed to again, if it started from well-formed parameters and its
  -- challenge is not zero.
  pub contribute-verify_pok :
      (H : Hashes Fr G1 G2) (prev : Bytes) (current new : DeltaParams G1 G2) (d : Fr)
      (rng later : List Fr) (pok : Pok G1 G2)
      → WellFormed C current
      → d ≢ C.one
      → pok_challenge C H prev pok.s_g1 pok.s_delta_g1 new.delta_g1 ≢ ok C.zero
      → contribute C H prev current d rng ≡ ok ((new, pok), later)
      → (verify_pok C H prev current.delta_g1 new pok ≡ ok tt)
        × (verify_division C H current new ≡ ok tt)
        × WellFormed C new
  contribute-verify_pok H prev current new d rng later pok w d1 cz h =
      let k = contribute-Contributed C H prev current d rng later new pok h in
      let checks = honest-PokChecks H prev current new d pok k w d1 (λ z. cz (k.drawn ∙ ap ok z)) in
      (
        ap₂ (verify_pok C H prev current.delta_g1) (sym k.new_is) (sym k.pok_is)
            ∙ verify_pok_accepts H prev current.delta_g1 _ _ checks,
        subst (λ n. verify_division C H current n ≡ ok tt) k.new_is
            (rerandomize-verify_division H current d k.d_inv k.inverted),
        subst (WellFormed C) k.new_is
            (rerandomize-WellFormed H current d k.d_inv w k.nonzero k.inverted),
      )
