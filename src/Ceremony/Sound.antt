-- ===== src/Ceremony/Sound.antt =====
-- What an accepted proof of knowledge of ceremony/src/verify.rs shows.
use mathlib.Core.Logic.{ite}
use shielded_ledger_hivemind.Common.{
  ◌≡◌, ◌≢◌, refl, sym, ap, ap₂, ◌∙◌, Bool, true, false, not, ◌||◌, some, ok, err, fail_if,
  >>=-eq-ok, >>-eq-ok, fail_if-eq-ok,
}
use shielded_ledger_hivemind.Adapter.Legacy.Messages.{Bytes}
use shielded_ledger_hivemind.Ceremony.Curve.{Curve, ok_g1, ok_g2, FieldLaws, PairingLaws}
use shielded_ledger_hivemind.Ceremony.Transcript.{DeltaParams, Pok, Failure, Outcome}
use shielded_ledger_hivemind.Ceremony.Hashing.{Hashes, pok_challenge}
use shielded_ledger_hivemind.Ceremony.Verify.{demand, verify_pok}

pub demand-eq-ok : {Q : Type 0} (d : Dec Q) (e : Failure) → demand d e ≡ ok tt → Q
demand-eq-ok (yes q) e h = q
demand-eq-ok (no nq) e h = cc

pub demand_yes : {Q : Type 0} (d : Dec Q) (e : Failure) → Q → demand d e ≡ ok tt
demand_yes (yes q) e h = refl
demand_yes (no nq) e h = absurd (nq h)

pub both_false : (a b : Bool) → (not a || not b) ≡ false → (a ≡ true) × (b ≡ true)
both_false true true h = (refl, refl)
both_false true false h = cc
both_false false b h = cc

or_false : (a b : Bool) → (not a || b) ≡ false → (a ≡ true) × (b ≡ false)
or_false true b h = (refl, h)
or_false false b h = cc

refused_equal :
    {A : Type 0} {x y : A} (d : Dec (x ≡ y)) (e : Failure)
    → ◌≡◌ {A = Outcome (Unit {0})} (ite d (err e) (ok tt)) (ok tt)
    → x ≢ y
refused_equal (yes q) e h = cc
refused_equal (no nq) e h = nq

module _ {Fr G1 G2 Gt : Type 0} (C : Curve Fr G1 G2 Gt) (F : FieldLaws C) where
  -- A product of nonzero scalars is not zero.
  pub times_nonzero : (a b : Fr) → a ≢ C.zero → b ≢ C.zero → C.times a b ≢ C.zero
  times_nonzero a b ha hb e =
      let (i, ei) = F.inverse_of b hb in
      ha (
        sym (F.times_one a)
        ∙ ap (C.times a) (sym (F.times_inverse b i ei))
        ∙ sym (F.times_assoc a b i)
        ∙ ap (λ x. C.times x i) e
        ∙ F.times_comm C.zero i
        ∙ F.times_zero i)

  -- From `a * r = b * c` with `c` invertible: `b = (r / c) * a`.
  pub quotient :
      (a r b c i : Fr)
      → C.inverse c ≡ some i
      → C.times a r ≡ C.times b c
      → b ≡ C.times (C.times r i) a
  quotient a r b c i ei e =
      sym (F.times_one b)
      ∙ ap (C.times b) (sym (F.times_inverse c i ei))
      ∙ sym (F.times_assoc b c i)
      ∙ ap (λ x. C.times x i) (sym e)
      ∙ F.times_assoc a r i
      ∙ F.times_comm a (C.times r i)

module _ {Fr G1 G2 Gt : Type 0} (C : Curve Fr G1 G2 Gt) (F : FieldLaws C) (L : PairingLaws C) where
  pub pairing-scales :
      (a r : Fr)
      → C.pairing (C.scale1 a C.g1) (C.scale2 r C.g2) ≡ C.pairing (C.scale1 (C.times r a) C.g1) C.g2
  pairing-scales a r =
      sym (L.bilinear r (C.scale1 a C.g1) C.g2)
      ∙ ap (λ p. C.pairing p C.g2) (sym (L.scale1_times r a C.g1))

  -- The two forms of a point encode one scalar.
  abbrev pub IsConsistent : G1 → G2 → Type 0
  IsConsistent p q = C.pairing p C.g2 ≡ C.pairing C.g1 q

  -- A ratio of points from a ratio of their scalars.
  pub ratio :
      (p q : G1) (a b d : Fr)
      → p ≡ C.scale1 a C.g1
      → q ≡ C.scale1 b C.g1
      → b ≡ C.times d a
      → q ≡ C.scale1 d p
  ratio p q a b d ep eq e =
      eq ∙ ap (λ x. C.scale1 x C.g1) e ∙ L.scale1_times d a C.g1 ∙ ap (C.scale1 d) (sym ep)

  -- The pairing equation of two ratios, read on the scalars.
  cross :
      (p q : G1) (u w : G2) (a b r c : Fr)
      → p ≡ C.scale1 a C.g1
      → q ≡ C.scale1 b C.g1
      → u ≡ C.scale2 r C.g2
      → w ≡ C.scale2 c C.g2
      → C.pairing p u ≡ C.pairing q w
      → C.times a r ≡ C.times b c
  cross p q u w a b r c ep eq eu ew e =
      F.times_comm a r
      ∙ L.nondegenerate (C.times r a) (C.times c b) (
          sym (pairing-scales a r)
          ∙ ap₂ C.pairing (sym ep) (sym eu)
          ∙ e
          ∙ ap₂ C.pairing eq ew
          ∙ pairing-scales b c)
      ∙ F.times_comm c b

  -- The two forms of a consistent point have one logarithm.
  pub same_log :
      (p : G1) (q : G2) (a b : Fr)
      → p ≡ C.scale1 a C.g1
      → q ≡ C.scale2 b C.g2
      → IsConsistent p q
      → a ≡ b
  same_log p q a b ep eq e = L.nondegenerate a b (
      ap (λ x. C.pairing x C.g2) (sym ep)
      ∙ e
      ∙ ap (C.pairing C.g1) eq
      ∙ sym (L.bilinear b C.g1 C.g2))

  -- What the proof of knowledge shows: one increment, not one, that advances both forms of delta and
  -- that the prover's pair of points shows to be known.
  pub record Advances (old_g1 : G1) (old_g2 : G2) (new : DeltaParams G1 G2) (pok : Pok G1 G2)
      : Type 0 where
    pub increment : Fr
    pub advanced1 : new.delta_g1 ≡ C.scale1 increment old_g1
    pub advanced2 : new.delta_g2 ≡ C.scale2 increment old_g2
    pub known : pok.s_delta_g1 ≡ C.scale1 increment pok.s_g1
    pub changed : increment ≢ C.one
    pub consistent : IsConsistent new.delta_g1 new.delta_g2

  -- The checks of `verify_pok`, one by one.
  pub record PokChecks (H : Hashes Fr G1 G2) (prev : Bytes) (old : G1) (new : DeltaParams G1 G2)
      (pok : Pok G1 G2) : Type 0 where
    pub s_ok : ok_g1 C pok.s_g1 ≡ true
    pub s_delta_ok : ok_g1 C pok.s_delta_g1 ≡ true
    pub r_delta_ok : ok_g2 C pok.r_delta_g2 ≡ true
    pub delta1_ok : ok_g1 C new.delta_g1 ≡ true
    pub delta2_ok : ok_g2 C new.delta_g2 ≡ true
    pub changed : new.delta_g1 ≢ old
    pub challenge : Fr
    pub drawn : pok_challenge C H prev pok.s_g1 pok.s_delta_g1 new.delta_g1 ≡ ok challenge
    pub same_ratio :
        C.pairing pok.s_g1 pok.r_delta_g2 ≡ C.pairing pok.s_delta_g1 (C.scale2 challenge C.g2)
    pub advance : C.pairing new.delta_g1 (C.scale2 challenge C.g2) ≡ C.pairing old pok.r_delta_g2
    pub consistent : IsConsistent new.delta_g1 new.delta_g2

  pub PokChecks-Advances :
      (H : Hashes Fr G1 G2) (prev : Bytes) (old : G1) (old_g2 : G2) (new : DeltaParams G1 G2)
      (pok : Pok G1 G2)
      → ok_g1 C old ≡ true
      → ok_g2 C old_g2 ≡ true
      → IsConsistent old old_g2
      → PokChecks H prev old new pok
      → Advances old old_g2 new pok
  PokChecks-Advances H prev old old_g2 new pok ok1 ok2 same k =
      let (a, ea, na) = L.log1 pok.s_g1 k.s_ok in
      let (b, eb, nb) = L.log1 pok.s_delta_g1 k.s_delta_ok in
      let (r, er, nr) = L.log2 pok.r_delta_g2 k.r_delta_ok in
      let (n, en, nn) = L.log1 new.delta_g1 k.delta1_ok in
      let (o, eo, no_zero) = L.log1 old ok1 in
      let (n2, en2, _) = L.log2 new.delta_g2 k.delta2_ok in
      let (o2, eo2, _) = L.log2 old_g2 ok2 in
      let c : Fr = k.challenge in
      let eq1 : C.times a r ≡ C.times b c =
        cross pok.s_g1 pok.s_delta_g1 pok.r_delta_g2 (C.scale2 c C.g2) a b r c ea eb er refl
          k.same_ratio in
      let eq2 : C.times o r ≡ C.times n c =
        cross old new.delta_g1 pok.r_delta_g2 (C.scale2 c C.g2) o n r c eo en er refl
          (sym k.advance) in
      let nc : c ≢ C.zero =
        λ e. times_nonzero C F a r na nr (eq1 ∙ ap (C.times b) e ∙ F.times_zero b) in
      let (i, ei) = F.inverse_of c nc in
      let d : Fr = C.times r i in
      let step : n ≡ C.times d o = quotient C F o r n c i ei eq2 in
      let step2 : n2 ≡ C.times d o2 =
        sym (same_log new.delta_g1 new.delta_g2 n n2 en en2 k.consistent)
        ∙ step
        ∙ ap (C.times d) (same_log old old_g2 o o2 eo eo2 same) in
      let advanced : new.delta_g1 ≡ C.scale1 d old = ratio old new.delta_g1 o n d eo en step in
      record {
        increment = d;
        advanced1 = advanced;
        advanced2 =
            en2
            ∙ ap (λ x. C.scale2 x C.g2) step2
            ∙ L.scale2_times d o2 C.g2
            ∙ ap (C.scale2 d) (sym eo2);
        known = ratio pok.s_g1 pok.s_delta_g1 a b d ea eb (quotient C F a r b c i ei eq1);
        changed = λ e. k.changed (advanced ∙ ap (λ x. C.scale1 x old) e ∙ L.scale1_one old);
        consistent = k.consistent;
      }

  pub verify_pok-PokChecks :
      (H : Hashes Fr G1 G2) (prev : Bytes) (old : G1) (new : DeltaParams G1 G2) (pok : Pok G1 G2)
      → verify_pok C H prev old new pok ≡ ok tt
      → PokChecks H prev old new pok
  unfolding verify_pok
  verify_pok-PokChecks H prev old new pok h =
      let malformed = not (ok_g1 C pok.s_delta_g1) || not (ok_g2 C pok.r_delta_g2) in
      let (e1, k1) =
        >>-eq-ok
          (fail_if (not (ok_g1 C pok.s_g1) || malformed) (Failure.refused "PoK point malformed")) _
          h in
      let (e2, k2) =
        >>-eq-ok
          (fail_if (not (ok_g1 C new.delta_g1) || not (ok_g2 C new.delta_g2))
            (Failure.refused "new delta point malformed"))
          _ k1 in
      let (e3, k3) =
        >>-eq-ok
          (ite (C.g1-discrete new.delta_g1 old)
            (err (Failure.refused "identity contribution (delta unchanged) rejected")) (ok tt))
          _ k2 in
      let (c, e4, k4) =
        >>=-eq-ok (pok_challenge C H prev pok.s_g1 pok.s_delta_g1 new.delta_g1) _ k3 in
      let (e5, k5) =
        >>-eq-ok
          (demand
            (C.gt-discrete (C.pairing pok.s_g1 pok.r_delta_g2)
              (C.pairing pok.s_delta_g1 (C.scale2 c C.g2)))
            (Failure.refused "PoK same-ratio check (1) failed"))
          _ k4 in
      let (e6, k6) =
        >>-eq-ok
          (demand
            (C.gt-discrete (C.pairing new.delta_g1 (C.scale2 c C.g2))
              (C.pairing old pok.r_delta_g2))
            (Failure.refused "PoK delta-advance check (2) failed"))
          _ k5 in
      let (s_ok, others_ok) =
        or_false (ok_g1 C pok.s_g1) malformed (fail_if-eq-ok _ (Failure.refused _) e1) in
      let points = both_false (ok_g1 C pok.s_delta_g1) (ok_g2 C pok.r_delta_g2) others_ok in
      let deltas =
        both_false (ok_g1 C new.delta_g1) (ok_g2 C new.delta_g2)
          (fail_if-eq-ok _ (Failure.refused _) e2) in
      record {
        s_ok = s_ok;
        s_delta_ok = points.0;
        r_delta_ok = points.1;
        delta1_ok = deltas.0;
        delta2_ok = deltas.1;
        changed = refused_equal (C.g1-discrete new.delta_g1 old) (Failure.refused _) e3;
        challenge = c;
        drawn = e4;
        same_ratio = demand-eq-ok _ (Failure.refused _) e5;
        advance = demand-eq-ok _ (Failure.refused _) e6;
        consistent =
            demand-eq-ok (C.gt-discrete (C.pairing new.delta_g1 C.g2) (C.pairing C.g1 new.delta_g2))
              (Failure.refused "delta_g1/delta_g2 consistency check (3) failed") k6;
      }

  -- An accepted proof of knowledge shows one increment other than one that advanced both forms of
  -- delta and whose effect on a point the prover showed, if the old delta was consistent.
  pub verify_pok-Advances :
      (H : Hashes Fr G1 G2) (prev : Bytes) (old : G1) (old_g2 : G2) (new : DeltaParams G1 G2)
      (pok : Pok G1 G2)
      → ok_g1 C old ≡ true
      → ok_g2 C old_g2 ≡ true
      → IsConsistent old old_g2
      → verify_pok C H prev old new pok ≡ ok tt
      → Advances old old_g2 new pok
  verify_pok-Advances H prev old old_g2 new pok ok1 ok2 same h =
      PokChecks-Advances H prev old old_g2 new pok ok1 ok2 same
        (verify_pok-PokChecks H prev old new pok h)
