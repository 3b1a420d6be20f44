-- ===== src/Ceremony/Verify.antt =====
-- The verification of a contribution: ceremony/src/verify.rs.
use mathlib.Core.Logic.{ite}
use shielded_ledger_hivemind.Common.{
  ℕ, Bool, true, false, not, ◌&&◌, ◌||◌, List, [], ◌∷◌, ◌++◌, ok, err, ◌>>=◌, ◌>>◌, fail_if, ok_or,
  length, ◌==◌,
}
use shielded_ledger_hivemind.Adapter.Legacy.Messages.{Bytes}
use shielded_ledger_hivemind.Ceremony.Curve.{Curve, ok_g1, ok_g2}
use shielded_ledger_hivemind.Ceremony.Transcript.{DeltaParams, Pok, Failure, Outcome}
use shielded_ledger_hivemind.Ceremony.Hashing.{Hashes, hash_to_fr, pok_challenge}

abbrev pub h_query_tag : Bytes
h_query_tag = b'h' ∷ b'-' ∷ b'q' ∷ b'u' ∷ b'e' ∷ b'r' ∷ b'y' ∷ []

abbrev pub l_query_tag : Bytes
l_query_tag = b'l' ∷ b'-' ∷ b'q' ∷ b'u' ∷ b'e' ∷ b'r' ∷ b'y' ∷ []

abbrev pub beacon_tag : Bytes
beacon_tag = b'b' ∷ b'e' ∷ b'a' ∷ b'c' ∷ b'o' ∷ b'n' ∷ []

-- `if !condition { return Err(..) }`
abbrev pub demand : {Q : Type 0} → Dec Q → Failure → Outcome (Unit {0})
demand d failure = ite d (ok tt) (err failure)

unfoldable pub all_ok : {A : Type 0} → (A → Bool) → List A → Bool
all_ok test [] = true
all_ok test (x ∷ xs) = test x && all_ok test xs

module _ {Fr G1 G2 Gt : Type 0} (C : Curve Fr G1 G2 Gt) (H : Hashes Fr G1 G2) where
  unfoldable pub validate_delta_shape : DeltaParams G1 G2 → ℕ → ℕ → Outcome (Unit {0})
  unfolding ok_g1 ok_g2 all_ok
  validate_delta_shape d h_len l_len = do
    fail_if (not (length d.h_query == h_len)) (Failure.refused "h_query len")
    fail_if (not (length d.l_query == l_len)) (Failure.refused "l_query len")
    fail_if (not (ok_g1 C d.delta_g1) || not (ok_g2 C d.delta_g2))
        (Failure.refused "delta_g1/delta_g2 not a valid non-identity subgroup point")
    fail_if (not (all_ok (ok_g1 C) d.h_query) || not (all_ok (ok_g1 C) d.l_query))
        (Failure.refused "a query point is not a valid non-identity subgroup point")

  unfoldable pub verify_pok : Bytes → G1 → DeltaParams G1 G2 → Pok G1 G2 → Outcome (Unit {0})
  unfolding ok_g1 ok_g2 pok_challenge
  verify_pok prev_challenge old_delta_g1 new pok = do
    fail_if
        (not (ok_g1 C pok.s_g1) || (not (ok_g1 C pok.s_delta_g1) || not (ok_g2 C pok.r_delta_g2)))
        (Failure.refused "PoK point malformed")
    fail_if (not (ok_g1 C new.delta_g1) || not (ok_g2 C new.delta_g2))
        (Failure.refused "new delta point malformed")
    ite (C.g1-discrete new.delta_g1 old_delta_g1)
        (err (Failure.refused "identity contribution (delta unchanged) rejected")) (ok tt)
    c ← pok_challenge C H prev_challenge pok.s_g1 pok.s_delta_g1 new.delta_g1
    demand
        (C.gt-discrete (C.pairing pok.s_g1 pok.r_delta_g2)
          (C.pairing pok.s_delta_g1 (C.scale2 c C.g2)))
        (Failure.refused "PoK same-ratio check (1) failed")
    demand
        (C.gt-discrete (C.pairing new.delta_g1 (C.scale2 c C.g2))
          (C.pairing old_delta_g1 pok.r_delta_g2))
        (Failure.refused "PoK delta-advance check (2) failed")
    demand (C.gt-discrete (C.pairing new.delta_g1 C.g2) (C.pairing C.g1 new.delta_g2))
        (Failure.refused "delta_g1/delta_g2 consistency check (3) failed")

  unfoldable pub division_rho : DeltaParams G1 G2 → DeltaParams G1 G2 → Bytes → Fr
  unfolding hash_to_fr
  division_rho old new tag =
      hash_to_fr C H (H.sha256 (H.serialize_delta old) ++ (H.sha256 (H.serialize_delta new) ++ tag))

  -- The loop of `division_ok` for one of its two sums: `acc` so far, and the power of rho.
  unfoldable pub combine : Fr → List G1 → G1 → Fr → G1
  combine rho [] acc p = acc
  combine rho (q ∷ qs) acc p = combine rho qs (C.add1 acc (C.scale1 p q)) (C.times p rho)

  unfoldable pub division_ok : List G1 → List G1 → G2 → G2 → Fr → Bool
  unfolding combine
  division_ok old_q new_q old_delta_g2 new_delta_g2 rho =
      (length old_q == length new_q)
      && ite
          (C.gt-discrete (C.pairing (combine rho new_q C.identity1 C.one) new_delta_g2)
            (C.pairing (combine rho old_q C.identity1 C.one) old_delta_g2))
          true false

  unfoldable pub verify_division : DeltaParams G1 G2 → DeltaParams G1 G2 → Outcome (Unit {0})
  unfolding division_ok division_rho
  verify_division old new = do
    fail_if
        (not (length old.h_query == length new.h_query)
          || not (length old.l_query == length new.l_query))
        (Failure.refused "query lengths changed between contributions")
    fail_if
        (not (
          division_ok old.h_query new.h_query old.delta_g2 new.delta_g2
            (division_rho old new h_query_tag)))
        (Failure.refused "H-query division inconsistent")
    fail_if
        (not (
          division_ok old.l_query new.l_query old.delta_g2 new.delta_g2
            (division_rho old new l_query_tag)))
        (Failure.refused "L-query division inconsistent")

  unfoldable pub beacon_secret : Bytes → Fr
  unfolding hash_to_fr
  beacon_secret beacon =
      let d = hash_to_fr C H (beacon_tag ++ beacon) in
      ite (C.fr-discrete d C.zero) (C.plus C.one C.one) d

  -- The spot check of the first point of the H query; `new.h_query[0]` panics on an empty query.
  unfoldable pub check_first : Fr → List G1 → List G1 → Outcome (Unit {0})
  check_first d_inv [] new_h = ok tt
  check_first d_inv (old ∷ olds) [] = err (Failure.panic "index out of bounds")
  check_first d_inv (old ∷ olds) (new ∷ news) =
      demand (C.g1-discrete (C.scale1 d_inv old) new)
        (Failure.refused "beacon H-division does not match the public beacon secret")

  unfoldable pub verify_beacon_step :
      Bytes → DeltaParams G1 G2 → DeltaParams G1 G2 → Pok G1 G2 → Bytes → Outcome (Unit {0})
  unfolding verify_pok verify_division beacon_secret check_first
  verify_beacon_step prev_challenge old new pok beacon = do
    verify_pok prev_challenge old.delta_g1 new pok
    verify_division old new
    d_inv ←
        ok_or (C.inverse (beacon_secret beacon)) (Failure.refused "beacon secret not invertible")
    demand (C.g1-discrete (C.scale1 (beacon_secret beacon) old.delta_g1) new.delta_g1)
        (Failure.refused "beacon delta_g1 does not match the public beacon secret")
    check_first d_inv old.h_query new.h_query
