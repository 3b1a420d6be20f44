-- ===== src/Ceremony/Toy.antt =====
-- The field of three elements as the curve of ceremony/src: it is its own groups, with multiplication as
-- the pairing.
pub mod Laws
use shielded_ledger_hivemind.Common.{Bool, true, false, Option, none, some, [], ◌∷◌}
use shielded_ledger_hivemind.Adapter.Legacy.Messages.{Bytes}
use shielded_ledger_hivemind.Ceremony.Curve.{Curve}
use shielded_ledger_hivemind.Ceremony.Hashing.{Hashes}

pub data Three : Type 0 where
  nought : Three
  unit : Three
  two : Three

unfoldable pub Three-discrete : Discrete Three
Three-discrete = hlevel

abbrev pub times3 : Three → Three → Three
times3 nought nought = nought
times3 nought unit = nought
times3 nought two = nought
times3 unit nought = nought
times3 unit unit = unit
times3 unit two = two
times3 two nought = nought
times3 two unit = two
times3 two two = unit

abbrev pub plus3 : Three → Three → Three
plus3 nought nought = nought
plus3 nought unit = unit
plus3 nought two = two
plus3 unit nought = unit
plus3 unit unit = two
plus3 unit two = nought
plus3 two nought = two
plus3 two unit = nought
plus3 two two = unit

abbrev pub inverse3 : Three → Option Three
inverse3 nought = none
inverse3 unit = some unit
inverse3 two = some two

abbrev is_nought : Three → Bool
is_nought nought = true
is_nought unit = false
is_nought two = false

abbrev coordinates : Three → Option (Bytes × Bytes)
coordinates nought = none
coordinates unit = some (1 ∷ [], 4 ∷ [])
coordinates two = some (1 ∷ [], 5 ∷ [])

abbrev coordinates2 : Three → Option ((Bytes × Bytes) × (Bytes × Bytes))
coordinates2 nought = none
coordinates2 unit = some ((1 ∷ [], 0 ∷ []), (4 ∷ [], 0 ∷ []))
coordinates2 two = some ((1 ∷ [], 0 ∷ []), (5 ∷ [], 0 ∷ []))

abbrev pub curve : Curve Three Three Three Three
curve = record {
  zero = nought;
  one = unit;
  times = times3;
  plus = plus3;
  inverse = inverse3;
  g1 = unit;
  g2 = unit;
  identity1 = nought;
  add1 = plus3;
  scale1 = times3;
  scale2 = times3;
  pairing = times3;
  is_zero1 = is_nought;
  is_zero2 = is_nought;
  is_on_curve1 = λ p. true;
  is_on_curve2 = λ p. true;
  in_subgroup1 = λ p. true;
  in_subgroup2 = λ p. true;
  xy1 = coordinates;
  xy2 = coordinates2;
  fr-discrete = Three-discrete;
  g1-discrete = Three-discrete;
  g2-discrete = Three-discrete;
  gt-discrete = Three-discrete;
}

abbrev pub hashes : Hashes Three Three Three
hashes = record {
  sha256 = λ b. b;
  from_le_bytes_mod_order = λ b. two;
  serialize_fixed = λ f. 8 ∷ [];
  serialize_delta = λ d. 9 ∷ [];
}
