-- ===== src/Ceremony/Curve.antt =====
-- The pairing-friendly curve of arkworks that ceremony/src calls, as an interface. Affine and
-- projective points are one type here, and `into_affine` is the identity.
use shielded_ledger_hivemind.Common.{◌≡◌, ◌≢◌, Bool, true, not, ◌&&◌, Option, some}
use shielded_ledger_hivemind.Adapter.Legacy.Messages.{Bytes}

pub record Curve (Fr G1 G2 Gt : Type 0) : Type 0 where
  pub zero : Fr
  pub one : Fr
  pub times : Fr → Fr → Fr
  pub plus : Fr → Fr → Fr
  pub inverse : Fr → Option Fr
  pub g1 : G1
  pub g2 : G2
  pub identity1 : G1
  pub add1 : G1 → G1 → G1
  pub scale1 : Fr → G1 → G1
  pub scale2 : Fr → G2 → G2
  pub pairing : G1 → G2 → Gt
  pub is_zero1 : G1 → Bool
  pub is_zero2 : G2 → Bool
  pub is_on_curve1 : G1 → Bool
  pub is_on_curve2 : G2 → Bool
  pub in_subgroup1 : G1 → Bool
  pub in_subgroup2 : G2 → Bool
  -- `xy()`: the big-endian coordinates, 48 bytes each; `none` is the identity.
  pub xy1 : G1 → Option (Bytes × Bytes)
  pub xy2 : G2 → Option ((Bytes × Bytes) × (Bytes × Bytes))
  pub fr-discrete : Discrete Fr
  pub g1-discrete : Discrete G1
  pub g2-discrete : Discrete G2
  pub gt-discrete : Discrete Gt

module _ {Fr G1 G2 Gt : Type 0} (C : Curve Fr G1 G2 Gt) where
  -- `ok_g1` and `ok_g2` of ceremony/src/verify.rs
  unfoldable pub ok_g1 : G1 → Bool
  ok_g1 p = not (C.is_zero1 p) && (C.is_on_curve1 p && C.in_subgroup1 p)

  unfoldable pub ok_g2 : G2 → Bool
  ok_g2 p = not (C.is_zero2 p) && (C.is_on_curve2 p && C.in_subgroup2 p)

  -- The scalars are a field, of which the code uses the product and the inverse.
  pub record FieldLaws : Type 0 where
    pub times_comm : (a b : Fr) → C.times a b ≡ C.times b a
    pub times_assoc : (a b c : Fr) → C.times (C.times a b) c ≡ C.times a (C.times b c)
    pub times_one : (a : Fr) → C.times a C.one ≡ a
    pub times_zero : (a : Fr) → C.times a C.zero ≡ C.zero
    pub one_nonzero : C.one ≢ C.zero
    pub inverse_of : (a : Fr) → a ≢ C.zero → (b : Fr) × (C.inverse a ≡ some b)
    pub times_inverse : (a b : Fr) → C.inverse a ≡ some b → C.times a b ≡ C.one

  -- Groups of prime order with scalar multiplication, and a bilinear, non-degenerate pairing.
  pub record PairingLaws : Type 0 where
    pub scale1_times : (a b : Fr) (p : G1) → C.scale1 (C.times a b) p ≡ C.scale1 a (C.scale1 b p)
    pub scale2_times : (a b : Fr) (q : G2) → C.scale2 (C.times a b) q ≡ C.scale2 a (C.scale2 b q)
    pub scale1_one : (p : G1) → C.scale1 C.one p ≡ p
    pub scale2_one : (q : G2) → C.scale2 C.one q ≡ q
    pub scale1_add :
        (a : Fr) (p q : G1) → C.scale1 a (C.add1 p q) ≡ C.add1 (C.scale1 a p) (C.scale1 a q)
    pub scale1_identity : (a : Fr) → C.scale1 a C.identity1 ≡ C.identity1
    pub bilinear :
        (a : Fr) (p : G1) (q : G2) → C.pairing (C.scale1 a p) q ≡ C.pairing p (C.scale2 a q)
    pub generators : (ok_g1 C.g1 ≡ true) × (ok_g2 C.g2 ≡ true)
    pub scale1_ok : (a : Fr) (p : G1) → a ≢ C.zero → ok_g1 p ≡ true → ok_g1 (C.scale1 a p) ≡ true
    pub scale2_ok : (a : Fr) (q : G2) → a ≢ C.zero → ok_g2 q ≡ true → ok_g2 (C.scale2 a q) ≡ true
    pub cancel1 : (a b : Fr) (p : G1) → ok_g1 p ≡ true → C.scale1 a p ≡ C.scale1 b p → a ≡ b
    pub log1 : (p : G1) → ok_g1 p ≡ true → (a : Fr) × (p ≡ C.scale1 a C.g1) × (a ≢ C.zero)
    pub log2 : (q : G2) → ok_g2 q ≡ true → (a : Fr) × (q ≡ C.scale2 a C.g2) × (a ≢ C.zero)
    pub nondegenerate :
        (a b : Fr) → C.pairing (C.scale1 a C.g1) C.g2 ≡ C.pairing (C.scale1 b C.g1) C.g2 → a ≡ b
