-- ===== src/Ceremony/Toy/Laws.antt =====
-- The field of three elements satisfies the laws of the curve of ceremony/src.
use shielded_ledger_hivemind.Common.{◌≡◌, ◌≢◌, refl, sym, true, some}
use shielded_ledger_hivemind.Ceremony.Curve.{FieldLaws, PairingLaws, ok_g1, ok_g2}
use shielded_ledger_hivemind.Ceremony.Toy.{Three, times3, plus3, inverse3, curve, nought, unit, two}

comm3 : (a b : Three) → times3 a b ≡ times3 b a
comm3 nought nought = refl
comm3 nought unit = refl
comm3 nought two = refl
comm3 unit nought = refl
comm3 unit unit = refl
comm3 unit two = refl
comm3 two nought = refl
comm3 two unit = refl
comm3 two two = refl

assoc3 : (a b c : Three) → times3 (times3 a b) c ≡ times3 a (times3 b c)
assoc3 nought nought nought = refl
assoc3 nought nought unit = refl
assoc3 nought nought two = refl
assoc3 nought unit nought = refl
assoc3 nought unit unit = refl
assoc3 nought unit two = refl
assoc3 nought two nought = refl
assoc3 nought two unit = refl
assoc3 nought two two = refl
assoc3 unit nought nought = refl
assoc3 unit nought unit = refl
assoc3 unit nought two = refl
assoc3 unit unit nought = refl
assoc3 unit unit unit = refl
assoc3 unit unit two = refl
assoc3 unit two nought = refl
assoc3 unit two unit = refl
assoc3 unit two two = refl
assoc3 two nought nought = refl
assoc3 two nought unit = refl
assoc3 two nought two = refl
assoc3 two unit nought = refl
assoc3 two unit unit = refl
assoc3 two unit two = refl
assoc3 two two nought = refl
assoc3 two two unit = refl
assoc3 two two two = refl

distributes3 : (a b c : Three) → times3 a (plus3 b c) ≡ plus3 (times3 a b) (times3 a c)
distributes3 nought nought nought = refl
distributes3 nought nought unit = refl
distributes3 nought nought two = refl
distributes3 nought unit nought = refl
distributes3 nought unit unit = refl
distributes3 nought unit two = refl
distributes3 nought two nought = refl
distributes3 nought two unit = refl
distributes3 nought two two = refl
distributes3 unit nought nought = refl
distributes3 unit nought unit = refl
distributes3 unit nought two = refl
distributes3 unit unit nought = refl
distributes3 unit unit unit = refl
distributes3 unit unit two = refl
distributes3 unit two nought = refl
distributes3 unit two unit = refl
distributes3 unit two two = refl
distributes3 two nought nought = refl
distributes3 two nought unit = refl
distributes3 two nought two = refl
distributes3 two unit nought = refl
distributes3 two unit unit = refl
distributes3 two unit two = refl
distributes3 two two nought = refl
distributes3 two two unit = refl
distributes3 two two two = refl

pairs3 : (a p q : Three) → times3 (times3 a p) q ≡ times3 p (times3 a q)
pairs3 nought nought nought = refl
pairs3 nought nought unit = refl
pairs3 nought nought two = refl
pairs3 nought unit nought = refl
pairs3 nought unit unit = refl
pairs3 nought unit two = refl
pairs3 nought two nought = refl
pairs3 nought two unit = refl
pairs3 nought two two = refl
pairs3 unit nought nought = refl
pairs3 unit nought unit = refl
pairs3 unit nought two = refl
pairs3 unit unit nought = refl
pairs3 unit unit unit = refl
pairs3 unit unit two = refl
pairs3 unit two nought = refl
pairs3 unit two unit = refl
pairs3 unit two two = refl
pairs3 two nought nought = refl
pairs3 two nought unit = refl
pairs3 two nought two = refl
pairs3 two unit nought = refl
pairs3 two unit unit = refl
pairs3 two unit two = refl
pairs3 two two nought = refl
pairs3 two two unit = refl
pairs3 two two two = refl

one3 : (a : Three) → times3 a unit ≡ a
one3 nought = refl
one3 unit = refl
one3 two = refl

unit3 : (a : Three) → times3 unit a ≡ a
unit3 nought = refl
unit3 unit = refl
unit3 two = refl

zero3 : (a : Three) → times3 a nought ≡ nought
zero3 nought = refl
zero3 unit = refl
zero3 two = refl

unit-ne-nought : unit ≢ nought
unit-ne-nought e = cc

inverse_of3 : (a : Three) → a ≢ nought → (b : Three) × (inverse3 a ≡ some b)
inverse_of3 nought h = absurd (h refl)
inverse_of3 unit h = (unit, refl)
inverse_of3 two h = (two, refl)

times_inverse3 : (a b : Three) → inverse3 a ≡ some b → times3 a b ≡ unit
times_inverse3 nought nought h = cc
times_inverse3 nought unit h = cc
times_inverse3 nought two h = cc
times_inverse3 unit nought h = cc
times_inverse3 unit unit h = refl
times_inverse3 unit two h = cc
times_inverse3 two nought h = cc
times_inverse3 two unit h = cc
times_inverse3 two two h = refl

ok_g1_iff : (a : Three) → ok_g1 curve a ≡ true → a ≢ nought
unfolding ok_g1
ok_g1_iff nought h e = cc
ok_g1_iff unit h e = cc
ok_g1_iff two h e = cc

ok_g2_iff : (a : Three) → ok_g2 curve a ≡ true → a ≢ nought
unfolding ok_g2
ok_g2_iff nought h e = cc
ok_g2_iff unit h e = cc
ok_g2_iff two h e = cc

scale1_ok3 : (a p : Three) → a ≢ nought → ok_g1 curve p ≡ true → ok_g1 curve (times3 a p) ≡ true
unfolding ok_g1
scale1_ok3 nought nought h k = absurd (h refl)
scale1_ok3 nought unit h k = absurd (h refl)
scale1_ok3 nought two h k = absurd (h refl)
scale1_ok3 unit nought h k = cc
scale1_ok3 unit unit h k = refl
scale1_ok3 unit two h k = refl
scale1_ok3 two nought h k = cc
scale1_ok3 two unit h k = refl
scale1_ok3 two two h k = refl

scale2_ok3 : (a p : Three) → a ≢ nought → ok_g2 curve p ≡ true → ok_g2 curve (times3 a p) ≡ true
unfolding ok_g2
scale2_ok3 nought nought h k = absurd (h refl)
scale2_ok3 nought unit h k = absurd (h refl)
scale2_ok3 nought two h k = absurd (h refl)
scale2_ok3 unit nought h k = cc
scale2_ok3 unit unit h k = refl
scale2_ok3 unit two h k = refl
scale2_ok3 two nought h k = cc
scale2_ok3 two unit h k = refl
scale2_ok3 two two h k = refl

cancel3 : (a b p : Three) → ok_g1 curve p ≡ true → times3 a p ≡ times3 b p → a ≡ b
unfolding ok_g1
cancel3 nought nought nought h e = refl
cancel3 nought nought unit h e = refl
cancel3 nought nought two h e = refl
cancel3 nought unit nought h e = cc
cancel3 nought unit unit h e = cc
cancel3 nought unit two h e = cc
cancel3 nought two nought h e = cc
cancel3 nought two unit h e = cc
cancel3 nought two two h e = cc
cancel3 unit nought nought h e = cc
cancel3 unit nought unit h e = cc
cancel3 unit nought two h e = cc
cancel3 unit unit nought h e = refl
cancel3 unit unit unit h e = refl
cancel3 unit unit two h e = refl
cancel3 unit two nought h e = cc
cancel3 unit two unit h e = cc
cancel3 unit two two h e = cc
cancel3 two nought nought h e = cc
cancel3 two nought unit h e = cc
cancel3 two nought two h e = cc
cancel3 two unit nought h e = cc
cancel3 two unit unit h e = cc
cancel3 two unit two h e = cc
cancel3 two two nought h e = refl
cancel3 two two unit h e = refl
cancel3 two two two h e = refl

same3 : (a b : Three) → times3 (times3 a unit) unit ≡ times3 (times3 b unit) unit → a ≡ b
same3 nought nought e = refl
same3 nought unit e = cc
same3 nought two e = cc
same3 unit nought e = cc
same3 unit unit e = refl
same3 unit two e = cc
same3 two nought e = cc
same3 two unit e = cc
same3 two two e = refl

pub field : FieldLaws curve
field = record {
  times_comm = comm3;
  times_assoc = assoc3;
  times_one = one3;
  times_zero = zero3;
  one_nonzero = unit-ne-nought;
  inverse_of = inverse_of3;
  times_inverse = times_inverse3;
}

pub groups : PairingLaws curve
unfolding ok_g1 ok_g2
groups = record {
  scale1_times = assoc3;
  scale2_times = assoc3;
  scale1_one = unit3;
  scale2_one = unit3;
  scale1_add = distributes3;
  scale1_identity = zero3;
  bilinear = pairs3;
  generators = (refl, refl);
  scale1_ok = scale1_ok3;
  scale2_ok = scale2_ok3;
  cancel1 = cancel3;
  log1 = λ p h. (p, sym (one3 p), ok_g1_iff p h);
  log2 = λ p h. (p, sym (one3 p), ok_g2_iff p h);
  nondegenerate = same3;
}
